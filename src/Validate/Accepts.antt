-- ===== src/Validate/Accepts.antt =====
-- What a check accepts: the IDs that it claims, and a test of all else that it looks at.
pub mod Valid
pub mod Parts
pub mod Loops
pub mod FieldLoop
pub mod ResourceLoop
pub mod PageLoop
pub mod Spec
use gombit_forge.Prelude.{
  ◌≡◌, refl, sym, ap, ◌∙◌, Bool, true, false, not, ◌&&◌, ◌||◌, List, [], ◌∷◌, ◌++◌, contains,
  if◌then◌else◌, ◌==◌, text_eq, Text, arith, Bool-cases, inl, inr,
}
use gombit_forge.StableId.{StableId, Kind, is_valid}
use gombit_forge.Validate.{
  Diagnostic, Code, Check, report, report_if, reports, ◌>>◌, claim_id, name_reports,
}
use gombit_forge.Validate.Fields.{is_empty}

-- An ID that an entity of a kind has.
pub record Claim : Type 0 where
  pub id : StableId
  pub kind : Kind

-- Every ID is valid for its kind, and none is used twice or seen before.
abbrev pub is_fresh : List Claim → List StableId → Bool
is_fresh [] seen = true
is_fresh (c ∷ cs) seen =
    not (c.id == [])
    && is_valid c.id c.kind
    && not (contains c.id seen)
    && is_fresh cs (c.id ∷ seen)

abbrev pub with_claims : List Claim → List StableId → List StableId
with_claims [] seen = seen
with_claims (c ∷ cs) seen = with_claims cs (c.id ∷ seen)

-- The check reports nothing exactly when the test holds and the claims are fresh; and then, or
-- whatever the test says, it has added the claims.
pub record Accepts (c : Check) (claims : List Claim) (test : Bool) : Type 0 where
  pub verdict : (seen : List StableId) → is_empty (c seen).0 ≡ (test && is_fresh claims seen)
  pub claimed :
      (seen : List StableId) → is_fresh claims seen ≡ true → (c seen).1 ≡ with_claims claims seen

pub is_empty-append {ℓ} :
    {A : Type ℓ} (xs ys : List A) → is_empty (xs ++ ys) ≡ (is_empty xs && is_empty ys)
is_empty-append [] ys = refl
is_empty-append (x ∷ xs) ys = refl

is_fresh-append :
    (cs ds : List Claim) (seen : List StableId)
    → is_fresh (cs ++ ds) seen ≡ (is_fresh cs seen && is_fresh ds (with_claims cs seen))
is_fresh-append [] ds seen = refl
is_fresh-append (c ∷ cs) ds seen = ground (arith, is_fresh-append cs ds (c.id ∷ seen))

with_claims-append :
    (cs ds : List Claim) (seen : List StableId)
    → with_claims (cs ++ ds) seen ≡ with_claims ds (with_claims cs seen)
with_claims-append [] ds seen = refl
with_claims-append (c ∷ cs) ds seen = with_claims-append cs ds (c.id ∷ seen)

pub reports-Accepts : (ds : List Diagnostic) → Accepts (reports ds) [] (is_empty ds)
unfolding reports
reports-Accepts ds = record { verdict = λ seen. ground arith; claimed = λ seen h. refl }

pub claim_id-Accepts :
    (id : StableId) (kind : Kind) (path : Text)
    → Accepts (claim_id id kind path) (record { id = id; kind = kind } ∷ []) true
unfolding claim_id
claim_id-Accepts id kind path = record {
  verdict = λ seen. ground arith;
  claimed = λ seen h. ground arith;
}

>>_fresh :
    (a b p q f g : Bool)
    → a ≡ (p && f)
    → (f ≡ true → b ≡ (q && g))
    → (a && b) ≡ ((p && q) && (f && g))
>>_fresh a b p q false g h k = ground (arith, h)
>>_fresh a b p q true g h k = ground (arith, h, k refl)

pub >>-Accepts :
    {c d : Check} {cs ds : List Claim} {p q : Bool}
    → Accepts c cs p
    → Accepts d ds q
    → Accepts (c >> d) (cs ++ ds) (p && q)
unfolding ◌>>◌
>>-Accepts {c} {d} {cs} {ds} {p} {q} a b = record {
  verdict = λ seen.
      is_empty-append (c seen).0 (d (c seen).1).0
      ∙ >>_fresh (is_empty (c seen).0) (is_empty (d (c seen).1).0) p q (is_fresh cs seen)
          (is_fresh ds (with_claims cs seen)) (a.verdict seen)
          (λ h. ap (λ s. is_empty (d s).0) (a.claimed seen h) ∙ b.verdict (with_claims cs seen))
      ∙ ap (λ t. (p && q) && t) (sym (is_fresh-append cs ds seen));
  claimed = λ seen h.
      let both : (is_fresh cs seen && is_fresh ds (with_claims cs seen)) ≡ true =
        sym (is_fresh-append cs ds seen) ∙ h in
      let first : is_fresh cs seen ≡ true = ground arith in
      ap (λ s. (d s).1) (a.claimed seen first)
      ∙ b.claimed (with_claims cs seen) (ground arith)
      ∙ sym (with_claims-append cs ds seen);
}

-- The test may be stated otherwise.
pub Accepts-test :
    {c : Check} {cs : List Claim} {p q : Bool} → p ≡ q → Accepts c cs p → Accepts c cs q
Accepts-test e a = rw (← e) a

-- No name stands twice in the list.
abbrev pub is_distinct : List Text → Bool
is_distinct [] = true
is_distinct (x ∷ xs) = not (contains x xs) && is_distinct xs

-- No name stands twice or is used before.
abbrev pub is_unused : List Text → List Text → Bool
is_unused used [] = true
is_unused used (x ∷ xs) = not (contains x used) && is_unused (x ∷ used) xs
