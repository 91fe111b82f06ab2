-- ===== src/Refactor/Drift/Target.antt =====
-- Where `normalizedSymbol` moves an entity, and what that does to the ledger.
use mathlib.Core.Bool.{false≢true}
use gombit_forge.Prelude.{
  ℕ, zero, suc, ◌+◌, ◌≡◌, ◌⊎◌, inl, inr, refl, sym, ap, ◌∙◌, Bool, true, false, Option, [], arith,
  ◌==◌, text_eq, text_beq_iff, Text, Bool-cases, ==_refl,
}
use gombit_forge.StableId.{StableId}
use gombit_forge.Ledger.{Ledger, Namespace}
use gombit_forge.Ledger.History.{Reach, here}
use gombit_forge.Mint.{candidate, is_blocked, max_mint_attempts}
use gombit_forge.Mint.Outcome.{is_blocked-free, mint_base}
use gombit_forge.Mint.Frozen.{is_blocked-Reach}
use gombit_forge.Refactor.Freeze.{refreeze-Refrozen}
use gombit_forge.Refactor.Drift.{target_loop, normalized_symbol, refreeze_to}

module _ (l : Ledger) (ns : Namespace) (reserved : Option (Text → Bool)) (base current : Text) where
  target_loop-same :
      (rounds n : ℕ)
      → (candidate base n == current) ≡ true
      → target_loop l ns reserved base current (suc rounds) n ≡ current
  unfolding target_loop
  target_loop-same rounds n h = ground arith

  target_loop-blocked :
      (rounds n : ℕ)
      → (candidate base n == current) ≡ false
      → is_blocked l ns reserved (candidate base n) ≡ true
      → target_loop l ns reserved base current (suc rounds) n
        ≡ target_loop l ns reserved base current rounds (n + 1)
  unfolding target_loop
  target_loop-blocked rounds n h k = ground arith

  target_loop-open :
      (rounds n : ℕ)
      → (candidate base n == current) ≡ false
      → is_blocked l ns reserved (candidate base n) ≡ false
      → target_loop l ns reserved base current (suc rounds) n ≡ candidate base n
  unfolding target_loop
  target_loop-open rounds n h k = ground arith

  -- The target is the current symbol or one that is available.
  pub target_loop-cases :
      (rounds n : ℕ)
      → (target_loop l ns reserved base current rounds n ≡ current)
        ⊎ (is_blocked l ns reserved (target_loop l ns reserved base current rounds n) ≡ false)
  target_loop-cases zero n = inl (unfold target_loop in refl)
  target_loop-cases (suc rounds) n = elim (Bool-cases (candidate base n == current)) [
    | inl same ↦ inl (target_loop-same rounds n same)
    | inr differ ↦ elim (Bool-cases (is_blocked l ns reserved (candidate base n))) [
      | inl blocked ↦
          rw (target_loop-blocked rounds n differ blocked) (target_loop-cases rounds (n + 1))
      | inr available ↦
          inr
            (ap (is_blocked l ns reserved) (target_loop-open rounds n differ available) ∙ available)
    ]
  ]

-- In any later ledger the target of the target is the target itself.
pub target_loop-target_loop :
    (l l' : Ledger) (ns : Namespace) (reserved : Option (Text → Bool)) (base current : Text)
    (rounds n : ℕ) (t : Text)
    → Reach l l'
    → target_loop l ns reserved base current rounds n ≡ t
    → target_loop l' ns reserved base t rounds n ≡ t
target_loop-target_loop l l' ns reserved base current zero n t r h = unfold target_loop in refl
target_loop-target_loop l l' ns reserved base current (suc rounds) n t r h =
    elim (Bool-cases (candidate base n == t)) [
      | inl same ↦ target_loop-same l' ns reserved base t rounds n same
      | inr differ ↦ elim (Bool-cases (candidate base n == current)) [
        | inl same ↦ cc (target_loop-same l ns reserved base current rounds n same)
        | inr differ' ↦ elim (Bool-cases (is_blocked l ns reserved (candidate base n))) [
          | inl blocked ↦
              target_loop-blocked l' ns reserved base t rounds n differ
                (is_blocked-Reach l l' ns reserved (candidate base n) r blocked)
              ∙ target_loop-target_loop l l' ns reserved base current rounds (n + 1) t r (
                  sym (target_loop-blocked l ns reserved base current rounds n differ' blocked) ∙ h)
          | inr available ↦
              cc (target_loop-open l ns reserved base current rounds n differ' available, ==_refl t)
        ]
      ]
    ]

module _ (is_letter : ℕ → Bool) where
  pub normalized_symbol-cases :
      (l : Ledger) (ns : Namespace) (label : Text) (entity : StableId)
      (reserved : Option (Text → Bool)) (current : Text)
      → let t = normalized_symbol is_letter l ns label entity reserved current in
        (t ≡ current) ⊎ (is_blocked l ns reserved t ≡ false)
  unfolding normalized_symbol
  normalized_symbol-cases l ns label entity reserved current =
      elim (Bool-cases (mint_base is_letter label entity == [])) [
        | inl blank ↦ rw blank (inl refl)
        | inr named ↦ rw named (
            target_loop-cases l ns reserved (mint_base is_letter label entity) current
              max_mint_attempts 1)
      ]

  pub normalized_symbol-normalized_symbol :
      (l l' : Ledger) (ns : Namespace) (label : Text) (entity : StableId)
      (reserved : Option (Text → Bool)) (current : Text)
      → Reach l l'
      → let t = normalized_symbol is_letter l ns label entity reserved current in
        normalized_symbol is_letter l' ns label entity reserved t ≡ t
  unfolding normalized_symbol
  normalized_symbol-normalized_symbol l l' ns label entity reserved current r =
      elim (Bool-cases (mint_base is_letter label entity == [])) [
        | inl blank ↦ rw blank refl
        | inr named ↦ rw named (
            target_loop-target_loop l l' ns reserved (mint_base is_letter label entity) current
              max_mint_attempts 1 _ r refl)
      ]

  refreeze_target :
      (l : Ledger) (ns : Namespace) (entity : StableId) (reserved : Option (Text → Bool))
      (current t : Text)
      → (t ≡ current) ⊎ (is_blocked l ns reserved t ≡ false)
      → Reach l (refreeze_to is_letter l ns current t entity)
  unfolding refreeze_to
  refreeze_target l ns entity reserved current t h = elim (Bool-cases (t == current)) [
    | inl same ↦ rw same here
    | inr differ ↦ rw differ (elim h [
      | inl same ↦ absurd (false≢true (sym differ ∙ (text_beq_iff t current).1 same))
      | inr available ↦
          let (free, unreserved) = is_blocked-free l ns reserved t available in
          (refreeze-Refrozen l ns current t entity
            (ground (arith, text_beq_iff t current, text_beq_iff current t)) free).reached
    ])
  ]

  -- The step of the loop on one entity goes by the ledger's operations.
  pub refreeze_to-Reach :
      (l : Ledger) (ns : Namespace) (label : Text) (entity : StableId)
      (reserved : Option (Text → Bool)) (current : Text)
      → Reach l (
          refreeze_to is_letter l ns current
            (normalized_symbol is_letter l ns label entity reserved current)
            entity)
  refreeze_to-Reach l ns label entity reserved current =
      refreeze_target l ns entity reserved current
        (normalized_symbol is_letter l ns label entity reserved current)
        (normalized_symbol-cases l ns label entity reserved current)

  pub refreeze_to-same :
      (l : Ledger) (ns : Namespace) (t : Text) (entity : StableId)
      → refreeze_to is_letter l ns t t entity ≡ l
  unfolding refreeze_to
  refreeze_to-same l ns t entity = rw (==_refl t)
