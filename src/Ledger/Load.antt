-- ===== src/Ledger/Load.antt =====
-- What `UnmarshalJSON` of internal/spec/ledger.go accepts.
use mathlib.Core.Path.{subst}
use mathlib.Core.Option.{some-injective, none-ne-some}
use gombit_forge.Prelude.{
  Bool, true, false, not, ◌||◌, ◌≡◌, ◌≢◌, ◌↔◌, ◌⊎◌, refl, sym, ap, ◌∙◌, some, [], ◌∷◌, arith, ◌==◌,
  text_eq, text_beq_iff, Text, Bool-cases, inl, inr,
}
use gombit_forge.Prelude.Assoc.{Assoc, lookup, NodupKeys, lookup-head, lookup-later}
use gombit_forge.Ledger.{
  Ledger, Entry, Table, Namespace, SymbolStatus, live, tombstoned, unknown, or_empty, table_of,
  entry_at, is_loadable_entry, is_loadable_table, is_live_status, is_tombstoned_status,
  unmarshal_json,
}
use gombit_forge.Ledger.Deletion.{DistinctKeys}
use gombit_forge.Ledger.Valid.{IsWellFormed, loadable_tables, entry_at-loadable}

-- The entry is live or tombstoned, and it has an owner.
pub record IsKnown (e : Entry) : Type 0 where
  pub is_status : (e.status ≡ live) ⊎ (e.status ≡ tombstoned)
  pub has_owner : e.entity_id ≢ []

known_status :
    (s : SymbolStatus)
    → (is_live_status s || is_tombstoned_status s) ≡ true
    → (s ≡ live) ⊎ (s ≡ tombstoned)
known_status live h = inl refl
known_status tombstoned h = inr refl
known_status (unknown t) h = cc

owned : (b : Bool) → b ≡ true → not b ≡ true → ⊥
owned true h k = cc
owned false h k = cc

loadable-IsKnown : (e : Entry) → is_loadable_entry e ≡ true → IsKnown e
loadable-IsKnown e h = record {
  is_status = known_status e.status (ground arith);
  has_owner =
      λ blank. owned (e.entity_id == []) ((text_beq_iff e.entity_id []).1 blank) (ground arith);
}

status_loadable :
    (s : SymbolStatus)
    → (s ≡ live) ⊎ (s ≡ tombstoned)
    → (is_live_status s || is_tombstoned_status s) ≡ true
status_loadable s (inl e) = rw e refl
status_loadable s (inr e) = rw e refl

IsKnown-loadable : (e : Entry) → IsKnown e → is_loadable_entry e ≡ true
IsKnown-loadable e k = elim (Bool-cases (e.entity_id == [])) [
  | inl blank ↦ absurd (k.has_owner ((text_beq_iff e.entity_id []).0 blank))
  | inr owned ↦ rw (owned, status_loadable e.status k.is_status) refl
]

table-loadable :
    (table : Table)
    → NodupKeys table
    → ((symbol : Text) (e : Entry) → lookup symbol table ≡ some e → IsKnown e)
    → is_loadable_table table ≡ true
table-loadable [] u h = refl
table-loadable ((s, e) ∷ table) (fresh, u) h =
    let first = IsKnown-loadable e (h s e (lookup-head s e table)) in
    let rest =
      table-loadable table u
        (λ symbol e' found. h symbol e' (lookup-later s symbol e e' table fresh found)) in
    ground arith

tables-loadable :
    (tables : Assoc Namespace Table)
    → DistinctKeys tables
    → ((ns : Namespace) (table : Table) (symbol : Text) (e : Entry)
        → lookup ns tables ≡ some table
        → lookup symbol table ≡ some e
        → IsKnown e)
    → loadable_tables tables ≡ true
tables-loadable [] u h = refl
tables-loadable ((ns, table) ∷ tables) (fresh, distinct, u) h =
    let first =
      table-loadable table distinct
        (λ symbol e found. h ns table symbol e (lookup-head ns table tables) found) in
    let rest = tables-loadable tables u (λ ns' table' symbol e at_ns found.
      h ns' table' symbol e (lookup-later ns ns' table table' tables fresh at_ns) found) in
    ground arith

-- Maps with distinct keys are loaded exactly when every symbol that they record is live or tombstoned
-- and has an owner, and then as they are.
pub unmarshal_json-IsKnown :
    (raw : Assoc Namespace Table) (l : Ledger)
    → DistinctKeys raw
    → (unmarshal_json raw ≡ some l) ↔ (
        (l.namespaces ≡ raw)
        × ((ns : Namespace) (symbol : Text) (e : Entry)
            → entry_at l ns symbol ≡ some e
            → IsKnown e))
unfolding unmarshal_json entry_at table_of
unmarshal_json-IsKnown raw l distinct = (accepted, loaded)
  where
    accepted :
        unmarshal_json raw ≡ some l
        → (l.namespaces ≡ raw)
          × ((ns : Namespace) (symbol : Text) (e : Entry)
              → entry_at l ns symbol ≡ some e
              → IsKnown e)
    accepted h = elim (Bool-cases (loadable_tables raw)) [
      | inl loadable ↦
          let made : record { namespaces = raw } ≡ l = some-injective _ _ (rw loadable at h) in
          let w : IsWellFormed l =
            subst IsWellFormed made (record { distinct = distinct; loadable = loadable }) in
          (
            ap (λ (m : Ledger). m.namespaces) (sym made),
            λ ns symbol e found. loadable-IsKnown e (entry_at-loadable l ns symbol e w found),
          )
      | inr refused ↦ absurd (none-ne-some l (rw refused at h))
    ]

    loaded :
        (l.namespaces ≡ raw)
          × ((ns : Namespace) (symbol : Text) (e : Entry)
              → entry_at l ns symbol ≡ some e
              → IsKnown e)
        → unmarshal_json raw ≡ some l
    loaded (same, known) =
        let loadable : loadable_tables raw ≡ true =
          tables-loadable raw distinct (λ ns table symbol e at_ns found. known ns symbol e (
            ap (λ m. lookup symbol (or_empty (lookup ns m))) same
            ∙ ap (λ o. lookup symbol (or_empty o)) at_ns
            ∙ found)) in
        rw loadable (ap some (ap (λ r. record { namespaces = r }) (sym same)))
