-- ===== src/Refactor/Freeze.antt =====
-- `refreeze`: the ledger's half of a change of symbol.
use gombit_forge.Prelude.{
  ◌≡◌, refl, sym, ap, ◌∙◌, true, false, not, ◌&&◌, none, some, [], arith, Bool-cases, Option-cases,
  inl, inr, ◌==◌, text_eq, text_beq_iff, ==_refl, Text,
}
use gombit_forge.StableId.{StableId}
use gombit_forge.Ledger.{
  Ledger, Entry, Namespace, live, is_live_status, entry_at, set_entry, retired, is_live,
}
use gombit_forge.Ledger.Laws.{
  entry_at-set_entry, is_live_lem, live_at, tombstone-live, record_symbol-free,
}
use gombit_forge.Ledger.History.{Reach, here, next, recorded, retired_symbol}
use gombit_forge.Refactor.{or_same, retire_old, refreeze}

-- What retiring the old symbol leaves.
record Retired (l : Ledger) (ns : Namespace) (old : Text) (l' : Ledger) : Type 0 where
  reached : Reach l l'
  gone : (old == []) ≡ false → is_live l' ns old ≡ false
  others :
      (ns' : Namespace) (s : Text)
      → (ns == ns' && old == s) ≡ false
      → entry_at l' ns' s ≡ entry_at l ns' s

Retired-unchanged :
    (l : Ledger) (ns : Namespace) (old : Text)
    → (not (old == []) && is_live l ns old) ≡ false
    → Retired l ns old l
Retired-unchanged l ns old h = record {
  reached = here;
  gone = λ named. ground arith;
  others = λ ns' s other. refl;
}

Retired-set_entry :
    (l : Ledger) (ns : Namespace) (old : Text) (e : Entry)
    → entry_at l ns old ≡ some e
    → is_live_status e.status ≡ true
    → Retired l ns old (set_entry l ns old (retired e))
Retired-set_entry l ns old e found is_live' = record {
  reached = next here (retired_symbol ns old (tombstone-live l ns old e found is_live'));
  gone = λ named. rw is_live_lem (rw entry_at-set_entry (rw (==_refl ns) (rw (==_refl old))));
  others = λ ns' s other. rw entry_at-set_entry (rw other);
}

live_entry-cases :
    (l : Ledger) (ns : Namespace) (symbol : Text)
    → is_live l ns symbol ≡ true
    → (e : Entry) × (entry_at l ns symbol ≡ some e) × (is_live_status e.status ≡ true)
live_entry-cases l ns symbol h = elim (Option-cases (entry_at l ns symbol)) [
  | inl (e, found) ↦ (e, found, ap live_at (sym found) ∙ sym (is_live_lem l ns symbol) ∙ h)
  | inr missing ↦ cc (is_live_lem l ns symbol, ap live_at missing)
]

retire_old-Retired :
    (l : Ledger) (ns : Namespace) (old : Text) → Retired l ns old (retire_old l ns old)
unfolding retire_old
retire_old-Retired l ns old = elim (Bool-cases (not (old == []) && is_live l ns old)) [
  | inl held ↦
      let (e, found, is_live') = live_entry-cases l ns old (ground arith) in
      rw held (
        rw (tombstone-live l ns old e found is_live') (Retired-set_entry l ns old e found is_live'))
  | inr h ↦ rw h (Retired-unchanged l ns old h)
]

-- What `refreeze` leaves of the ledger `l`.
pub record Refrozen (l : Ledger) (ns : Namespace) (old new : Text) (entity : StableId) (l' : Ledger)
    : Type 0 where
  pub reached : Reach l l'
  pub new_live : entry_at l' ns new ≡ some (record { status = live; entity_id = entity })
  pub old_gone : (old == []) ≡ false → is_live l' ns old ≡ false
  pub others :
      (ns' : Namespace) (s : Text)
      → (ns == ns' && old == s) ≡ false
      → (ns == ns' && new == s) ≡ false
      → entry_at l' ns' s ≡ entry_at l ns' s

refreeze_lem :
    (l : Ledger) (ns : Namespace) (old new : Text) (entity : StableId)
    → entry_at (retire_old l ns old) ns new ≡ none
    → refreeze l ns old new entity
      ≡ set_entry (retire_old l ns old) ns new (record { status = live; entity_id = entity })
unfolding refreeze
refreeze_lem l ns old new entity free =
    ap (or_same (retire_old l ns old)) (record_symbol-free (retire_old l ns old) ns new entity free)

Refrozen-set_entry :
    (l l' : Ledger) (ns : Namespace) (old new : Text) (entity : StableId)
    → Retired l ns old l'
    → (old == new) ≡ false
    → entry_at l' ns new ≡ none
    → Refrozen l ns old new entity
        (set_entry l' ns new (record { status = live; entity_id = entity }))
Refrozen-set_entry l l' ns old new entity r differ free = record {
  reached = next r.reached (recorded ns new entity (record_symbol-free l' ns new entity free));
  new_live = rw entry_at-set_entry (rw (==_refl ns) (rw (==_refl new)));
  old_gone = λ named. ground (
    arith,
    is_live_lem (set_entry l' ns new (record { status = live; entity_id = entity })) ns old,
    is_live_lem l' ns old,
    entry_at-set_entry l' ns ns new old (record { status = live; entity_id = entity }),
    text_beq_iff old new,
    text_beq_iff new old,
    r.gone named,
  );
  others = λ ns' s other other'. rw entry_at-set_entry (rw other' (r.others ns' s other));
}

-- If the new symbol is free and not the old one, the new symbol is live for the entity, the old one
-- is no longer live, every other entry is as it was, and only the ledger's operations were used.
pub refreeze-Refrozen :
    (l : Ledger) (ns : Namespace) (old new : Text) (entity : StableId)
    → (old == new) ≡ false
    → entry_at l ns new ≡ none
    → Refrozen l ns old new entity (refreeze l ns old new entity)
refreeze-Refrozen l ns old new entity differ free =
    let r : Retired l ns old (retire_old l ns old) = retire_old-Retired l ns old in
    let free' : entry_at (retire_old l ns old) ns new ≡ none =
      r.others ns new (ground arith) ∙ free in
    rw (refreeze_lem l ns old new entity free')
      (Refrozen-set_entry l (retire_old l ns old) ns old new entity r differ free')
