-- ===== src/Ledger/Valid.antt =====
-- The invariant of a ledger: distinct keys, known statuses and owners that are not blank.
use mathlib.Core.Option
use mathlib.Core.Option.{some-injective, none-ne-some}
use gombit_forge.Prelude.{
  Bool, true, false, ◌≡◌, refl, ap, ◌∙◌, some, [], ◌∷◌, arith, all, ◌==◌, text_eq, text_beq_iff,
  Text, Bool-cases, Option-cases, inl, inr,
}
use gombit_forge.Prelude.Assoc.{
  Assoc, lookup, put, map_values, NodupKeys, lookup-put, lookup-cons, put-NodupKeys,
  map_values-NodupKeys, lookup-map_values, all-put, all-lookup,
}
use gombit_forge.StableId.{StableId}
use gombit_forge.Ledger.{
  Ledger, Entry, Table, Namespace, or_empty, table_of, entry_at, set_entry, retire_owned,
  tombstone_entity, is_loadable_entry, is_loadable_table,
}
use gombit_forge.Ledger.Laws.{record_symbol-ok, tombstone-ok}
use gombit_forge.Ledger.Deletion.{DistinctKeys}
use gombit_forge.Ledger.History.{Step, recorded, retired_symbol, deleted}

abbrev pub loadable_tables : Assoc Namespace Table → Bool
loadable_tables = all (λ (entry : Namespace × Table). is_loadable_table entry.1)

pub record IsWellFormed (l : Ledger) : Type 0 where
  pub distinct : DistinctKeys l.namespaces
  pub loadable : loadable_tables l.namespaces ≡ true

put-DistinctKeys :
    (ns : Namespace) (table : Table) (m : Assoc Namespace Table)
    → DistinctKeys m
    → NodupKeys table
    → DistinctKeys (put ns table m)
unfolding put lookup
put-DistinctKeys ns table [] h u = (refl, u, tt)
put-DistinctKeys ns table ((n, t) ∷ m) (fresh, distinct, rest) u = ground (
  arith,
  text_beq_iff n ns,
  text_beq_iff ns n,
  put-DistinctKeys ns table m rest u,
  lookup-put n ns table m,
)

map_values-DistinctKeys :
    (f : Entry → Entry) (m : Assoc Namespace Table)
    → DistinctKeys m
    → DistinctKeys (map_values (map_values f) m)
map_values-DistinctKeys f [] h = tt
map_values-DistinctKeys f ((n, t) ∷ m) (fresh, distinct, rest) = (
  lookup-map_values (map_values f) n m ∙ ap (Option.map (map_values f)) fresh,
  map_values-NodupKeys f t distinct,
  map_values-DistinctKeys f m rest,
)

NodupKeys-table :
    (ns : Namespace) (m : Assoc Namespace Table)
    → DistinctKeys m
    → NodupKeys (or_empty (lookup ns m))
NodupKeys-table ns [] h = unfold lookup in tt
NodupKeys-table ns ((n, t) ∷ m) (fresh, distinct, rest) = elim (Bool-cases (n == ns)) [
  | inl same ↦ rw lookup-cons (rw same distinct)
  | inr other ↦ rw lookup-cons (rw other (NodupKeys-table ns m rest))
]

loadable-table :
    (ns : Namespace) (m : Assoc Namespace Table)
    → loadable_tables m ≡ true
    → is_loadable_table (or_empty (lookup ns m)) ≡ true
loadable-table ns m h = elim (Option-cases (lookup ns m)) [
  | inl (t, found) ↦ rw found (all-lookup is_loadable_table ns t m h found)
  | inr missing ↦ rw missing refl
]

loadable-map :
    (f : Entry → Entry) (table : Table)
    → ((e : Entry) → is_loadable_entry e ≡ true → is_loadable_entry (f e) ≡ true)
    → is_loadable_table table ≡ true
    → is_loadable_table (map_values f table) ≡ true
loadable-map f [] keeps h = refl
loadable-map f ((s, e) ∷ table) keeps h = ground (arith, keeps e, loadable-map f table keeps)

loadable_tables-map :
    (f : Entry → Entry) (m : Assoc Namespace Table)
    → ((e : Entry) → is_loadable_entry e ≡ true → is_loadable_entry (f e) ≡ true)
    → loadable_tables m ≡ true
    → loadable_tables (map_values (map_values f) m) ≡ true
loadable_tables-map f [] keeps h = refl
loadable_tables-map f ((n, t) ∷ m) keeps h =
    ground (arith, loadable-map f t keeps, loadable_tables-map f m keeps)

set_entry-IsWellFormed :
    (l : Ledger) (ns : Namespace) (symbol : Text) (e : Entry)
    → IsWellFormed l
    → is_loadable_entry e ≡ true
    → IsWellFormed (set_entry l ns symbol e)
unfolding set_entry table_of
set_entry-IsWellFormed l ns symbol e w h = record {
  distinct =
      put-DistinctKeys ns _ l.namespaces w.distinct
        (put-NodupKeys symbol e _ (NodupKeys-table ns l.namespaces w.distinct));
  loadable =
      all-put is_loadable_table ns _ l.namespaces w.loadable
        (all-put is_loadable_entry symbol e _ (loadable-table ns l.namespaces w.loadable) h);
}

retire_owned-loadable :
    (entity : StableId) (e : Entry)
    → is_loadable_entry e ≡ true
    → is_loadable_entry (retire_owned entity e) ≡ true
unfolding retire_owned
retire_owned-loadable entity e h = ground arith

tombstone_entity-IsWellFormed :
    (l : Ledger) (entity : StableId) → IsWellFormed l → IsWellFormed (tombstone_entity l entity).1
unfolding tombstone_entity
tombstone_entity-IsWellFormed l entity w = record {
  distinct = map_values-DistinctKeys (retire_owned entity) l.namespaces w.distinct;
  loadable =
      loadable_tables-map (retire_owned entity) l.namespaces (retire_owned-loadable entity)
        w.loadable;
}

pub entry_at-loadable :
    (l : Ledger) (ns : Namespace) (symbol : Text) (e : Entry)
    → IsWellFormed l
    → entry_at l ns symbol ≡ some e
    → is_loadable_entry e ≡ true
unfolding entry_at table_of
entry_at-loadable l ns symbol e w found =
    all-lookup is_loadable_entry symbol e _ (loadable-table ns l.namespaces w.loadable) found

-- An operation called for an entity with an ID.
abbrev pub HasOwner : {l l' : Ledger} → Step l l' → Type 0
HasOwner (recorded ns symbol entity _) = (entity == []) ≡ false
HasOwner _ = Unit

-- Every operation on the ledger keeps the invariant: keys are distinct, statuses known and owners
-- not blank, if no blank ID is recorded.
pub Step-IsWellFormed :
    {l l' : Ledger} (step : Step l l') → HasOwner step → IsWellFormed l → IsWellFormed l'
Step-IsWellFormed {l} (recorded ns symbol entity done) h w =
    let (free, made) = record_symbol-ok l ns symbol entity done in
    rw made (set_entry-IsWellFormed l ns symbol _ w (rw h refl))
Step-IsWellFormed {l} (retired_symbol ns symbol done) h w =
    let (e, found, is_live, made) = tombstone-ok l ns symbol done in
    let good : is_loadable_entry e ≡ true = entry_at-loadable l ns symbol e w found in
    rw made (set_entry-IsWellFormed l ns symbol _ w (ground arith))
Step-IsWellFormed {l} (deleted entity) h w = tombstone_entity-IsWellFormed l entity w
