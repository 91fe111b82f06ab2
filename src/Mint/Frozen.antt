-- ===== src/Mint/Frozen.antt =====
-- A minted symbol is frozen: it is live for its entity, nothing else changed, and minting again,
-- after a relabel too, returns it.
use mathlib.Core.Path.{subst}
use gombit_forge.Prelude.{
  ℕ, ◌≡◌, refl, sym, ap, ◌∙◌, Bool, true, false, ◌&&◌, ◌||◌, Option, some, arith, Option-cases, inl,
  inr, ◌==◌, text_eq, text_beq_iff, ==_refl, Text,
}
use gombit_forge.Prelude.Result.{ok, ok-injective}
use gombit_forge.StableId.{StableId}
use gombit_forge.Ledger.{Ledger, Namespace, Entry, live, entry_at, set_entry, symbols}
use gombit_forge.Ledger.Laws.{record_symbol-free, entry_at-set_entry, is_free_lem}
use gombit_forge.Ledger.History.{Reach, here, next, recorded, Reach-Kept}
use gombit_forge.Mint.{owns, find_owned, is_blocked, mint}
use gombit_forge.Mint.Search.{owns-eq-owned_live_at, find_owned-some, find_owned_complete}
use gombit_forge.Mint.Outcome.{IsNew, mint_base, mint_owned, mint_unowned, mint-ok, mint_from-ok}

owns-set_entry :
    (l : Ledger) (ns : Namespace) (entity : StableId) (symbol x : Text)
    → owns (set_entry l ns symbol (record { status = live; entity_id = entity })) ns entity x
      ≡ (symbol == x || owns l ns entity x)
owns-set_entry l ns entity symbol x =
    let e : Entry = record { status = live; entity_id = entity } in
    ground (
      arith,
      owns-eq-owned_live_at (set_entry l ns symbol e) ns entity x,
      owns-eq-owned_live_at l ns entity x,
      entry_at-set_entry l ns ns symbol x e,
      ==_refl ns,
      ==_refl entity,
    )

module _ (l : Ledger) (ns : Namespace) (entity : StableId) (reserved : Option (Text → Bool))
    (is_letter : ℕ → Bool) where
  new-owns :
      (base symbol x : Text) (l' : Ledger)
      → IsNew l ns entity reserved base symbol l'
      → owns l' ns entity x ≡ (symbol == x)
  new-owns base symbol x l' new =
      rw new.made (rw (owns-set_entry l ns entity symbol x) (rw (new.unowned x) (ground arith)))

  find_owned-new :
      (base symbol : Text) (l' : Ledger)
      → IsNew l ns entity reserved base symbol l'
      → find_owned l' ns entity (symbols l' ns) ≡ some symbol
  find_owned-new base symbol l' new =
      elim (Option-cases (find_owned l' ns entity (symbols l' ns))) [
        | inl (x, found) ↦
            found
            ∙ ap some (
                sym (
                  (text_beq_iff symbol x).0 (
                    sym (new-owns base symbol x l' new)
                    ∙ find_owned-some l' ns entity (symbols l' ns) x found)))
        | inr nothing ↦ cc (
          find_owned_complete l' ns entity symbol nothing,
          new-owns base symbol symbol l' new,
          ==_refl symbol,
        )
      ]

  -- If `Mint` returned a symbol, minting again for the same entity, whatever the label and the
  -- reserved names are by then, returns that symbol and leaves the ledger as it is.
  pub mint-mint :
      (label label' symbol : Text) (reserved' : Option (Text → Bool)) (l' : Ledger)
      → mint is_letter l ns label entity reserved ≡ ok (symbol, l')
      → mint is_letter l' ns label' entity reserved' ≡ ok (symbol, l')
  mint-mint label label' symbol reserved' l' h =
      elim (Option-cases (find_owned l ns entity (symbols l ns))) [
        | inl (s, found) ↦
            let same : ◌≡◌ {A = Text × Ledger} (s, l) (symbol, l') =
              ok-injective _ _
                (sym (mint_owned l ns entity reserved is_letter label s found) ∙ h) in
            subst (λ (p : Text × Ledger). mint is_letter p.1 ns label' entity reserved' ≡ ok p) same
              (mint_owned l ns entity reserved' is_letter label' s found)
        | inr nothing ↦ mint_owned l' ns entity reserved' is_letter label' symbol (
            find_owned-new (mint_base is_letter label entity) symbol l' (
              mint_from-ok l ns entity reserved (mint_base is_letter label entity)
                (sym (mint_unowned l ns entity reserved is_letter label nothing) ∙ h)
                (λ s. find_owned_complete l ns entity s nothing)))
      ]

  -- After a successful `Mint` the symbol is live for the entity, every other entry is as it was, and
  -- the ledger was reached by its own operations.
  pub mint_live :
      (label symbol : Text) (l' : Ledger)
      → mint is_letter l ns label entity reserved ≡ ok (symbol, l')
      → (owns l' ns entity symbol ≡ true)
        × ((ns' : Namespace) (s : Text)
            → (ns == ns' && symbol == s) ≡ false
            → entry_at l' ns' s ≡ entry_at l ns' s)
        × Reach l l'
  mint_live label symbol l' h = elim (mint-ok l ns entity reserved is_letter label symbol l' h) [
    | inl (held, same) ↦ rw same (held, (λ ns' s _. refl), here)
    | inr new ↦ (
      new-owns (mint_base is_letter label entity) symbol symbol l' new ∙ ==_refl symbol,
      (λ ns' s other. rw new.made (rw entry_at-set_entry (rw other))),
      next here (
          recorded ns symbol entity
            (record_symbol-free l ns symbol entity new.was_free ∙ ap ok (sym new.made))),
    )
  ]

-- What is recorded stays recorded, so that a blocked symbol stays blocked.
pub is_blocked-Reach :
    (l l' : Ledger) (ns : Namespace) (reserved : Option (Text → Bool)) (symbol : Text)
    → Reach l l'
    → is_blocked l ns reserved symbol ≡ true
    → is_blocked l' ns reserved symbol ≡ true
unfolding is_blocked
is_blocked-Reach l l' ns reserved symbol r h = elim (Option-cases (entry_at l ns symbol)) [
  | inl (e, found) ↦
      let (e', found', kept) = Reach-Kept l l' ns symbol e r found in
      ground (arith, is_free_lem l' ns symbol)
  | inr missing ↦ ground (arith, is_free_lem l ns symbol)
]
