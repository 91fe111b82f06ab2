-- ===== src/Mint/Outcome.antt =====
-- What `Mint` returns, and that minting again changes nothing.
use mathlib.Core.Path.{subst}
use gombit_forge.Prelude.{
  ℕ, ◌≡◌, ◌⊎◌, refl, sym, ap, ◌∙◌, Bool, true, false, Option, none, some, [], arith, Bool-cases,
  Option-cases, inl, inr, ◌==◌, text_eq, Text, if◌then◌else◌,
}
use gombit_forge.Prelude.Result.{Result, ok, err, ok-injective}
use gombit_forge.StableId.{StableId, kind_of}
use gombit_forge.Normalize.{normalize}
use gombit_forge.Ledger.{Ledger, Namespace, Entry, live, entry_at, set_entry, symbols}
use gombit_forge.Ledger.Laws.{record_symbol-free, is_free_lem}
use gombit_forge.Mint.{
  MintError, unrepresentable, owns, find_owned, is_blocked, is_reserved, first_available, frozen,
  freeze, owned_or, mint_from, mint_new, mint, kind_fallback, or_text, max_mint_attempts,
}
use gombit_forge.Mint.Search.{find_owned-some, find_owned_complete, IsFirst, first_available-some}

pub is_blocked-free :
    (l : Ledger) (ns : Namespace) (reserved : Option (Text → Bool)) (symbol : Text)
    → is_blocked l ns reserved symbol ≡ false
    → (entry_at l ns symbol ≡ none) × (is_reserved reserved symbol ≡ false)
unfolding is_blocked
is_blocked-free l ns reserved symbol h =
    (ground (arith, is_free_lem l ns symbol), ground (arith, is_free_lem l ns symbol))

abbrev pub mint_base : (ℕ → Bool) → Text → StableId → Text
mint_base is_letter label entity =
    or_text (kind_fallback (kind_of entity)) (normalize is_letter label)

abbrev live_entry : StableId → Entry
live_entry entity = record { status = live; entity_id = entity }

-- The entity owned no live symbol; the symbol is the first that is free and not reserved.
pub record IsNew (l : Ledger) (ns : Namespace) (entity : StableId) (reserved : Option (Text → Bool))
    (base : Text) (symbol : Text) (l' : Ledger) : Type 0 where
  pub unowned : (s : Text) → owns l ns entity s ≡ false
  pub first : IsFirst l ns reserved base 1 symbol
  pub was_free : entry_at l ns symbol ≡ none
  pub unreserved : is_reserved reserved symbol ≡ false
  pub made : l' ≡ set_entry l ns symbol (live_entry entity)

freeze-free :
    (l : Ledger) (ns : Namespace) (entity : StableId) (symbol : Text)
    → entry_at l ns symbol ≡ none
    → freeze l ns entity (some symbol) ≡ ok (symbol, set_entry l ns symbol (live_entry entity))
unfolding freeze
freeze-free l ns entity symbol free =
    ap (frozen symbol) (record_symbol-free l ns symbol entity free)

owned_or-some :
    (l : Ledger) (symbol : Text) (rest : Result MintError (Text × Ledger))
    → owned_or l (some symbol) rest ≡ ok (symbol, l)
unfolding owned_or
owned_or-some l symbol rest = refl

owned_or-none : (l : Ledger) (rest : Result MintError (Text × Ledger)) → owned_or l none rest ≡ rest
unfolding owned_or
owned_or-none l rest = refl

mint_new_lem :
    (l : Ledger) (ns : Namespace) (entity : StableId) (reserved : Option (Text → Bool))
    (is_letter : ℕ → Bool) (label : Text)
    → mint_new is_letter l ns label entity reserved
      ≡ mint_from l ns entity reserved (mint_base is_letter label entity)
unfolding mint_new
mint_new_lem l ns entity reserved is_letter label = refl

module _ (l : Ledger) (ns : Namespace) (entity : StableId) (reserved : Option (Text → Bool)) where
  freeze-ok :
      (base : Text) (o : Option Text) {symbol : Text} {l' : Ledger}
      → first_available l ns reserved base max_mint_attempts 1 ≡ o
      → freeze l ns entity o ≡ ok (symbol, l')
      → ((s : Text) → owns l ns entity s ≡ false)
      → IsNew l ns entity reserved base symbol l'
  freeze-ok base none found h unowned = unfold freeze in cc
  freeze-ok base (some s) {symbol} {l'} found h unowned =
      let first : IsFirst l ns reserved base 1 s =
        first_available-some l ns reserved base max_mint_attempts 1 s found in
      let (free, unreserved) = is_blocked-free l ns reserved s first.open_ in
      subst (λ (p : Text × Ledger). IsNew l ns entity reserved base p.0 p.1)
        (ok-injective {A = Text × Ledger} (s, set_entry l ns s (live_entry entity)) (symbol, l')
          (sym (freeze-free l ns entity s free) ∙ h))
        (record {
          unowned = unowned;
          first = first;
          was_free = free;
          unreserved = unreserved;
          made = refl;
        })

  mint_from_lem :
      (base : Text)
      → mint_from l ns entity reserved base ≡ (
          if base == []
          then err unrepresentable
          else freeze l ns entity (first_available l ns reserved base max_mint_attempts 1))
  unfolding mint_from
  mint_from_lem base = refl

  -- What the second half of `Mint` returns is new.
  pub mint_from-ok :
      (base : Text) {symbol : Text} {l' : Ledger}
      → mint_from l ns entity reserved base ≡ ok (symbol, l')
      → ((s : Text) → owns l ns entity s ≡ false)
      → IsNew l ns entity reserved base symbol l'
  mint_from-ok base h unowned = elim (Bool-cases (base == [])) [
    | inl blank ↦
        let e : mint_from l ns entity reserved base ≡ err unrepresentable =
          mint_from_lem base ∙ rw blank in
        cc
    | inr named ↦
        freeze-ok base (first_available l ns reserved base max_mint_attempts 1) refl
          (rw named at (sym (mint_from_lem base) ∙ h)) unowned
  ]

  module _ (is_letter : ℕ → Bool) where
    mint_lem :
        (label : Text)
        → mint is_letter l ns label entity reserved
          ≡ owned_or l
              (find_owned l ns entity (symbols l ns))
              (mint_new is_letter l ns label entity reserved)
    unfolding mint
    mint_lem label = refl

    pub mint_owned :
        (label symbol : Text)
        → find_owned l ns entity (symbols l ns) ≡ some symbol
        → mint is_letter l ns label entity reserved ≡ ok (symbol, l)
    mint_owned label symbol found =
        mint_lem label
        ∙ ap (λ o. owned_or l o (mint_new is_letter l ns label entity reserved)) found
        ∙ owned_or-some l symbol (mint_new is_letter l ns label entity reserved)

    pub mint_unowned :
        (label : Text)
        → find_owned l ns entity (symbols l ns) ≡ none
        → mint is_letter l ns label entity reserved
          ≡ mint_from l ns entity reserved (mint_base is_letter label entity)
    mint_unowned label found =
        mint_lem label
        ∙ ap (λ o. owned_or l o (mint_new is_letter l ns label entity reserved)) found
        ∙ owned_or-none l (mint_new is_letter l ns label entity reserved)
        ∙ mint_new_lem l ns entity reserved is_letter label

    -- A successful `Mint` returns a symbol that the entity already held live, with the ledger as it
    -- was, or, if it held none, records the first candidate that is free and not reserved.
    pub mint-ok :
        (label symbol : Text) (l' : Ledger)
        → mint is_letter l ns label entity reserved ≡ ok (symbol, l')
        → (owns l ns entity symbol ≡ true) × (l' ≡ l)
          ⊎ IsNew l ns entity reserved (mint_base is_letter label entity) symbol l'
    mint-ok label symbol l' h = elim (Option-cases (find_owned l ns entity (symbols l ns))) [
      | inl (s, found) ↦
          let same : ◌≡◌ {A = Text × Ledger} (s, l) (symbol, l') =
            ok-injective _ _ (sym (mint_owned label s found) ∙ h) in
          inl (
            subst (λ t. owns l ns entity t ≡ true) (ap (λ (p : Text × Ledger). p.0) same)
                (find_owned-some l ns entity (symbols l ns) s found),
            ap (λ (p : Text × Ledger). p.1) (sym same),
          )
      | inr nothing ↦ inr (
          mint_from-ok (mint_base is_letter label entity) (sym (mint_unowned label nothing) ∙ h)
            (λ s. find_owned_complete l ns entity s nothing))
    ]
