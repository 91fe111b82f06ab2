-- ===== src/Org/Store/Rows.antt =====
-- The row of the invitations that a token leads to, and the table after it is accepted.
use mathlib.Core.Path.{subst}
use mathlib.Core.Option.{some-injective}
use gombit_forge.Prelude.{
  ℕ, ◌≡◌, refl, sym, ap, ◌∙◌, Bool, true, false, not, Option, none, some, List, [], ◌∷◌, all,
  text_beq_iff, if◌then◌else◌, text_eq, Text, arith, Bool-cases, inl, inr, ◌++◌, ◌&&◌, ◌⊎◌, ◌<◌,
  map, keep, is_some, ◌==◌,
}
use gombit_forge.Org.Roles.{Role}
use gombit_forge.Org.Store.{Member, Invitation, role_in, redeemable, is_redeemable, accepted_row}

-- The invitation is a row of the table.
abbrev pub IsRow : Invitation → List Invitation → Type 0
IsRow inv [] = ⊥
IsRow inv (i ∷ is) = (i ≡ inv) ⊎ IsRow inv is

and_not-true : (b : Bool) → (b && not true) ≡ false
and_not-true b = ground arith

none_of : (o : Option ℕ) → is_some o ≡ false → o ≡ none
none_of none h = refl
none_of (some a) h = cc

module _ (to_lower : Text → Text) (hash : Text → Text) (has_email : ℕ → Text → Bool) where
  -- The row that the lookup finds.
  pub record Found (is : List Invitation) (token : Text) (now : ℕ) (inv : Invitation) : Type 0 where
    pub row : IsRow inv is
    pub named : inv.token_hash ≡ hash token
    pub unaccepted : inv.accepted_at ≡ none
    pub unexpired : now < inv.expires_at

  pub redeemable-Found :
      (is : List Invitation) (token : Text) (now : ℕ) (inv : Invitation)
      → redeemable to_lower hash has_email is token now ≡ some inv
      → Found is token now inv
  unfolding redeemable
  redeemable-Found [] token now inv e = absurd (cc)
  redeemable-Found (i ∷ is) token now inv e =
      elim (Bool-cases (is_redeemable to_lower hash has_email token now i)) [
        | inl c ↦
            let same : i ≡ inv = some-injective _ _ (
              ap (λ b. if b then some i else redeemable to_lower hash has_email is token now)
                (sym c)
              ∙ e) in
            subst (Found (i ∷ is) token now) same (record {
              row = inl refl;
              named = (text_beq_iff i.token_hash (hash token)).0 (ground arith);
              unaccepted = none_of i.accepted_at (ground arith);
              unexpired = ground arith;
            })
        | inr c ↦
            let later = redeemable-Found is token now inv (
              ap (λ b. if b then some i else redeemable to_lower hash has_email is token now)
                (sym c)
              ∙ e) in
            record {
              row = inr later.row;
              named = later.named;
              unaccepted = later.unaccepted;
              unexpired = later.unexpired;
            }
      ]

  pub row-bounded :
      (p : Invitation → Bool) (is : List Invitation) (inv : Invitation)
      → all p is ≡ true
      → IsRow inv is
      → p inv ≡ true
  row-bounded p [] inv h r = absurd r
  row-bounded p (i ∷ is) inv h (inl same) = subst (λ x. p x ≡ true) same (ground arith)
  row-bounded p (i ∷ is) inv h (inr r) = row-bounded p is inv (ground arith) r

  -- Once its row is accepted, the token redeems nothing.
  pub redeemable-spent :
      (is : List Invitation) (inv : Invitation) (token : Text) (now later : ℕ)
      → inv.token_hash ≡ hash token
      → redeemable to_lower hash has_email
          (map (accepted_row to_lower hash has_email inv now) is)
          token
          later
        ≡ none
  unfolding redeemable
  redeemable-spent [] inv token now later e = refl
  redeemable-spent (i ∷ is) inv token now later e =
      elim (Bool-cases (i.token_hash == inv.token_hash)) [
        | inl c ↦
            rw (c, and_not-true (i.token_hash == hash token))
              (redeemable-spent is inv token now later e)
        | inr c ↦
            let other : (i.token_hash == hash token) ≡ false = rw e at c in
            rw (c, other) (redeemable-spent is inv token now later e)
      ]

  pub other_rows :
      (is : List Invitation) (inv : Invitation) (now : ℕ)
      → keep
          (λ (i : Invitation). not (i.token_hash == inv.token_hash))
          (map (accepted_row to_lower hash has_email inv now) is)
        ≡ keep (λ (i : Invitation). not (i.token_hash == inv.token_hash)) is
  other_rows [] inv now = refl
  other_rows (i ∷ is) inv now = elim (Bool-cases (i.token_hash == inv.token_hash)) [
    | inl c ↦ rw (c, c) (other_rows is inv now)
    | inr c ↦ rw (c, c) (ap (λ t. i ∷ t) (other_rows is inv now))
  ]

  pub role_in-append :
      (ms : List Member) (m : Member)
      → role_in ms m.organization_id m.user_id ≡ none
      → role_in (ms ++ (m ∷ [])) m.organization_id m.user_id ≡ some m.role
  unfolding role_in
  role_in-append [] m h = ground arith
  role_in-append (n ∷ ms) m h = ground (arith, role_in-append ms m)

  pub no_role : (o : Option Role) → is_some o ≡ false → o ≡ none
  no_role none h = refl
  no_role (some r) h = cc
