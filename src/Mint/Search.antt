-- ===== src/Mint/Search.antt =====
-- The two loops of `Mint`.
use mathlib.Core.Option.{some-injective, some-ne-none}
use native.Mathlib.Decide.{ℕ_discrete}
use gombit_forge.Prelude.{
  ℕ, zero, suc, ◌+◌, ◌≤◌, ◌<◌, ◌≡◌, sym, ◌∙◌, Bool, true, false, Option, none, some, List, [], ◌∷◌,
  arith, contains, Bool-cases, inl, inr, text_eq, text_beq_iff, Text,
}
use gombit_forge.StableId.{StableId}
use gombit_forge.Ledger.{Ledger, Namespace, entry_at, symbols}
use gombit_forge.Ledger.Laws.{is_live_lem, owner_of_lem}
use gombit_forge.Ledger.Walk.{walk_complete}
use gombit_forge.Ledger.Deletion.{owned_live_at}
use gombit_forge.Mint.{owns, find_owned, candidate, is_blocked, first_available}

pub owns-eq-owned_live_at :
    (l : Ledger) (ns : Namespace) (entity : StableId) (symbol : Text)
    → owns l ns entity symbol ≡ owned_live_at entity (entry_at l ns symbol)
unfolding owns
owns-eq-owned_live_at l ns entity symbol =
    ground (arith, owner_of_lem l ns symbol, is_live_lem l ns symbol)

pub find_owned-some :
    (l : Ledger) (ns : Namespace) (entity : StableId) (xs : List Text) (symbol : Text)
    → find_owned l ns entity xs ≡ some symbol
    → owns l ns entity symbol ≡ true
unfolding find_owned
find_owned-some l ns entity [] symbol h = cc
find_owned-some l ns entity (x ∷ xs) symbol h =
    ground (arith, find_owned-some l ns entity xs symbol)

pub find_owned-none :
    (l : Ledger) (ns : Namespace) (entity : StableId) (xs : List Text) (symbol : Text)
    → find_owned l ns entity xs ≡ none
    → contains symbol xs ≡ true
    → owns l ns entity symbol ≡ false
unfolding find_owned
find_owned-none l ns entity [] symbol h found = cc
find_owned-none l ns entity (x ∷ xs) symbol h found =
    ground (arith, text_beq_iff x symbol, find_owned-none l ns entity xs symbol)

-- If the loop over the symbols finds nothing, the entity owns no live symbol.
pub find_owned_complete :
    (l : Ledger) (ns : Namespace) (entity : StableId) (symbol : Text)
    → find_owned l ns entity (symbols l ns) ≡ none
    → owns l ns entity symbol ≡ false
find_owned_complete l ns entity symbol h =
    let (_, _, _, listed) = walk_complete l ns symbol in
    ground (
      arith,
      find_owned-none l ns entity (symbols l ns) symbol h,
      owns-eq-owned_live_at l ns entity symbol,
    )

-- The candidate that is found is the first that is not blocked.
pub record IsFirst (l : Ledger) (ns : Namespace) (reserved : Option (Text → Bool)) (base : Text)
    (n : ℕ) (symbol : Text) : Type 0 where
  pub number : ℕ
  pub from : n ≤ number
  pub named : symbol ≡ candidate base number
  pub open_ : is_blocked l ns reserved symbol ≡ false
  pub before : (m : ℕ) → n ≤ m → m < number → is_blocked l ns reserved (candidate base m) ≡ true

module _ (l : Ledger) (ns : Namespace) (reserved : Option (Text → Bool)) (base : Text) where
  IsFirst-here :
      (n : ℕ) (symbol : Text)
      → is_blocked l ns reserved (candidate base n) ≡ false
      → candidate base n ≡ symbol
      → IsFirst l ns reserved base n symbol
  IsFirst-here n symbol available same = record {
    number = n;
    from = omega arith;
    named = sym same;
    open_ = rw (← same) available;
    before = λ m low high. absurd (omega arith);
  }

  before-cons :
      (n k m : ℕ)
      → is_blocked l ns reserved (candidate base n) ≡ true
      → ((i : ℕ) → n + 1 ≤ i → i < k → is_blocked l ns reserved (candidate base i) ≡ true)
      → n ≤ m
      → m < k
      → is_blocked l ns reserved (candidate base m) ≡ true
  before-cons n k m blocked later low high = elim (ℕ_discrete n m) [
    | yes same ↦ rw (← same) blocked
    | no differ ↦ later m (omega arith) high
  ]

  IsFirst-earlier :
      (n : ℕ) (symbol : Text)
      → is_blocked l ns reserved (candidate base n) ≡ true
      → IsFirst l ns reserved base (n + 1) symbol
      → IsFirst l ns reserved base n symbol
  IsFirst-earlier n symbol blocked first = record {
    number = first.number;
    from = omega arith;
    named = first.named;
    open_ = first.open_;
    before = λ m low high. before-cons n first.number m blocked first.before low high;
  }

  first_available-blocked :
      (rounds n : ℕ)
      → is_blocked l ns reserved (candidate base n) ≡ true
      → first_available l ns reserved base (suc rounds) n
        ≡ first_available l ns reserved base rounds (n + 1)
  unfolding first_available
  first_available-blocked rounds n h = ground arith

  first_available-open :
      (rounds n : ℕ)
      → is_blocked l ns reserved (candidate base n) ≡ false
      → first_available l ns reserved base (suc rounds) n ≡ some (candidate base n)
  unfolding first_available
  first_available-open rounds n h = ground arith

  pub first_available-some :
      (rounds n : ℕ) (symbol : Text)
      → first_available l ns reserved base rounds n ≡ some symbol
      → IsFirst l ns reserved base n symbol
  first_available-some zero n symbol h = unfold first_available in cc
  first_available-some (suc rounds) n symbol h =
      elim (Bool-cases (is_blocked l ns reserved (candidate base n))) [
        | inl blocked ↦ IsFirst-earlier n symbol blocked (
            first_available-some rounds (n + 1) symbol
              (sym (first_available-blocked rounds n blocked) ∙ h))
        | inr available ↦
            IsFirst-here n symbol available
              (some-injective _ _ (sym (first_available-open rounds n available) ∙ h))
      ]

  -- If none is found, every candidate in reach is blocked.
  pub first_available-none :
      (rounds n m : ℕ)
      → first_available l ns reserved base rounds n ≡ none
      → n ≤ m
      → m < n + rounds
      → is_blocked l ns reserved (candidate base m) ≡ true
  first_available-none zero n m h low high = absurd (omega arith)
  first_available-none (suc rounds) n m h low high =
      elim (Bool-cases (is_blocked l ns reserved (candidate base n))) [
        | inl blocked ↦
            before-cons n (n + suc rounds) m blocked
              (λ i low' high'.
                first_available-none rounds (n + 1) i
                  (sym (first_available-blocked rounds n blocked) ∙ h) low' (omega arith))
              low high
        | inr available ↦
            absurd
              (some-ne-none (candidate base n) (sym (first_available-open rounds n available) ∙ h))
      ]
