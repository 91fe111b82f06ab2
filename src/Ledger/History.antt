-- ===== src/Ledger/History.antt =====
-- Any sequence of ledger operations: a symbol is never removed, never revived and never changes
-- hands.
use mathlib.Core.Option.{some-injective}
use mathlib.Core.Path.{subst}
use gombit_forge.Prelude.{
  ◌≡◌, refl, sym, ◌∙◌, true, some, arith, text_beq_iff, Text, ◌==◌, text_eq, ◌&&◌, Bool-cases, inl,
  inr,
}
use gombit_forge.Prelude.Result.{ok}
use gombit_forge.StableId.{StableId}
use gombit_forge.Ledger.{
  Ledger, Entry, Namespace, tombstoned, entry_at, set_entry, record_symbol, retired, tombstone,
  retire_owned, tombstone_entity,
}
use gombit_forge.Ledger.Laws.{
  entry_at-set_entry, entry_at-tombstone_entity, record_symbol-ok, tombstone-ok,
}

-- The calls that change a ledger; a call that returns an error changes nothing.
pub data Step : Ledger → Ledger → Type 0 where
  recorded :
      {l l' : Ledger} (ns : Namespace) (symbol : Text) (entity : StableId)
      → record_symbol l ns symbol entity ≡ ok l'
      → Step l l'
  retired_symbol :
      {l l' : Ledger} (ns : Namespace) (symbol : Text) → tombstone l ns symbol ≡ ok l' → Step l l'
  deleted : {l : Ledger} (entity : StableId) → Step l (tombstone_entity l entity).1

pub data Reach (l : Ledger) : Ledger → Type 0 where
  here : Reach l l
  next : {m n : Ledger} → Reach l m → Step m n → Reach l n

-- What stays of an entry: its owner, and that it is retired.
pub record Continues (e e' : Entry) : Type 0 where
  pub owner : e'.entity_id ≡ e.entity_id
  pub retired : e.status ≡ tombstoned → e'.status ≡ tombstoned

abbrev pub Kept : Ledger → Namespace → Text → Entry → Type 0
Kept l ns symbol e = (e' : Entry) × (entry_at l ns symbol ≡ some e') × Continues e e'

Continues-refl : (e : Entry) → Continues e e
Continues-refl e = record { owner = refl; retired = λ h. h }

Continues-retired : (e : Entry) → Continues e (retired e)
Continues-retired e = record { owner = refl; retired = λ h. refl }

Continues-retire_owned : (entity : StableId) (e : Entry) → Continues e (retire_owned entity e)
unfolding retire_owned
Continues-retire_owned entity e = record { owner = ground arith; retired = λ h. ground arith }

Continues-trans : {a b c : Entry} → Continues a b → Continues b c → Continues a c
Continues-trans p q = record { owner = q.owner ∙ p.owner; retired = λ h. q.retired (p.retired h) }

same_key :
    (l : Ledger) (ns ns' : Namespace) (symbol symbol' : Text)
    → (ns == ns' && symbol == symbol') ≡ true
    → entry_at l ns symbol ≡ entry_at l ns' symbol'
same_key l ns ns' symbol symbol' h =
    ground (arith, text_beq_iff ns ns', text_beq_iff symbol symbol')

-- A write at a free symbol, or one that continues the entry it replaces.
set_entry-Kept :
    (l : Ledger) (ns ns' : Namespace) (symbol symbol' : Text) (new e : Entry)
    → ((old : Entry) → entry_at l ns symbol ≡ some old → Continues old new)
    → entry_at l ns' symbol' ≡ some e
    → Kept (set_entry l ns symbol new) ns' symbol' e
set_entry-Kept l ns ns' symbol symbol' new e h found =
    elim (Bool-cases (ns == ns' && symbol == symbol')) [
      | inl same ↦ (
        new,
        entry_at-set_entry l ns ns' symbol symbol' new ∙ rw same,
        h e (same_key l ns ns' symbol symbol' same ∙ found),
      )
      | inr other ↦
          (e, entry_at-set_entry l ns ns' symbol symbol' new ∙ rw other found, Continues-refl e)
    ]

Step-Kept :
    {l l' : Ledger} (ns : Namespace) (symbol : Text) (e : Entry)
    → Step l l'
    → entry_at l ns symbol ≡ some e
    → Kept l' ns symbol e
Step-Kept {l} ns symbol e (recorded ns' symbol' entity ok') found =
    let (free, made) = record_symbol-ok l ns' symbol' entity ok' in
    rw made (set_entry-Kept l ns' ns symbol' symbol _ e (λ old f. cc (free, f)) found)
Step-Kept {l} ns symbol e (retired_symbol ns' symbol' ok') found =
    let (old, found', is_live, made) = tombstone-ok l ns' symbol' ok' in
    rw made (
      set_entry-Kept l ns' ns symbol' symbol _ e
        (λ old' f.
          subst (λ x. Continues x (retired old)) (some-injective _ _ (sym found' ∙ f))
            (Continues-retired old))
        found)
Step-Kept {l} ns symbol e (deleted entity) found = (
  retire_owned entity e,
  entry_at-tombstone_entity l entity ns symbol ∙ rw found,
  Continues-retire_owned entity e,
)

-- Whatever operations a ledger goes through, a symbol that was recorded stays recorded for the same
-- entity, and one that was retired stays retired.
pub Reach-Kept :
    (l l' : Ledger) (ns : Namespace) (symbol : Text) (e : Entry)
    → Reach l l'
    → entry_at l ns symbol ≡ some e
    → Kept l' ns symbol e
Reach-Kept l l' ns symbol e here found = (e, found, Continues-refl e)
Reach-Kept l l' ns symbol e (next r step) found =
    let (e', found', kept) = Reach-Kept l _ ns symbol e r found in
    let (e'', found'', kept') = Step-Kept ns symbol e' step found' in
    (e'', found'', Continues-trans kept kept')

pub Reach-trans : {l m n : Ledger} → Reach l m → Reach m n → Reach l n
Reach-trans r here = r
Reach-trans r (next q step) = next (Reach-trans r q) step
