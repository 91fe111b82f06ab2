-- ===== src/Validate/Accepts/FieldLoop.antt =====
-- What the loop over the fields of a resource accepts.
use gombit_forge.Prelude.{
  ℕ, ◌+◌, ◌≡◌, refl, Bool, true, false, not, ◌&&◌, Option, none, some, List, [], ◌∷◌, ◌++◌, all,
  contains, text_eq, Text, codes, arith,
}
use gombit_forge.Prelude.Space.{is_blank}
use gombit_forge.StableId.{kind_field}
use gombit_forge.ProjectSpec.{ProjectSpec, Resource, Field, is_valid_type}
use gombit_forge.Validate.{at_index, name_used}
use gombit_forge.Validate.Defaults.{is_valid_default}
use gombit_forge.Validate.Fields.{
  validate_field, fields_from, validate_fields, made_names, is_good_code, is_good_storage,
  generated, is_reserved_key,
}
use gombit_forge.Validate.Accepts.{
  Accepts, is_empty-append, reports-Accepts, claim_id-Accepts, >>-Accepts, Accepts-test, is_unused,
}
use gombit_forge.Validate.Accepts.Loops.{is_unused-nil, is_unused-name_used, is_empty-report_if}
use gombit_forge.Validate.Accepts.Parts
use gombit_forge.Validate.Accepts.Valid.{
  on_some, if_some, has_valid_target, is_valid_field, code_names, generated_names, storage_names,
  are_valid_fields, field_claims,
}

pub not-not : (b : Bool) → not (not b) ≡ b
not-not false = refl
not-not true = refl

-- One round of the loop over the fields: `u`, `m` and `v` tell that a name is used already.
field_round :
    (l t g k u m b v w d a U M S U' M' S' : Bool)
    → ((g && not u) && U') ≡ (g && U)
    → (((g && not u) && not m) && M') ≡ ((g && not u) && M)
    → ((b && not v) && S') ≡ (b && S)
    → ((l && t && (g && not k && not u && not m) && (b && not v) && w && d)
        && (a && U' && M' && S'))
      ≡ (((l && t && (g && not k) && b && w && d) && a) && U && M && S)
field_round l t false k u m b v w d a U M S U' M' S' p q r = ground arith
field_round l t true k u m false v w d a U M S U' M' S' p q r = ground arith
field_round l t true k u m true v w d a U M S U' M' S' p q r = ground (arith, p, q, r)

module _ (s : ProjectSpec) where
  abbrev field_test : List Text → List Text → List Text → Field → Bool
  field_test used made stored f =
      not (is_blank f.label)
      && is_valid_type f.type
      && (is_good_code f
          && not (is_reserved_key f)
          && not (contains f.code_name used)
          && not (contains (generated f) made))
      && (is_good_storage f && not (contains f.storage_name stored))
      && has_valid_target s f
      && if_some (is_valid_default f.type f.enum_values) f.default

  validate_field-Accepts :
      (path : Text) (used made stored : List Text) (f : Field)
      → Accepts
          (validate_field s path used made stored f)
          (record { id = f.id; kind = kind_field } ∷ [])
          (field_test used made stored f)
  unfolding validate_field
  validate_field-Accepts path used made stored f =
      Accepts-test
        (simp (
          is_empty-append, is_empty-report_if, not-not, Parts.code_reports-is_empty,
          Parts.storage_reports-is_empty, Parts.validate_field_type-is_empty,
          Parts.validate_field_default-is_empty,
        ))
        (>>-Accepts (claim_id-Accepts f.id kind_field (path ++ codes ".id")) (reports-Accepts _))

  fields_round :
      (used made stored : List Text) (f : Field) (fs : List (Option Field))
      → (field_test used made stored f
          && (all (on_some (is_valid_field s)) fs
              && is_unused (name_used (is_good_code f) used f.code_name) (code_names fs)
              && is_unused (made_names used made f) (generated_names fs)
              && is_unused
                  (name_used (is_good_storage f) stored f.storage_name)
                  (storage_names fs)))
        ≡ ((is_valid_field s f && all (on_some (is_valid_field s)) fs)
            && is_unused used (f.code_name ∷ code_names fs)
            && is_unused made (generated f ∷ generated_names fs)
            && is_unused stored (f.storage_name ∷ storage_names fs))
  fields_round used made stored f fs =
      field_round (not (is_blank f.label)) (is_valid_type f.type) (is_good_code f)
        (is_reserved_key f) (contains f.code_name used) (contains (generated f) made)
        (is_good_storage f) (contains f.storage_name stored) (has_valid_target s f)
        (if_some (is_valid_default f.type f.enum_values) f.default)
        (all (on_some (is_valid_field s)) fs) (is_unused used (f.code_name ∷ code_names fs))
        (is_unused made (generated f ∷ generated_names fs))
        (is_unused stored (f.storage_name ∷ storage_names fs))
        (is_unused (name_used (is_good_code f) used f.code_name) (code_names fs))
        (is_unused (made_names used made f) (generated_names fs))
        (is_unused (name_used (is_good_storage f) stored f.storage_name) (storage_names fs))
        (is_unused-name_used (is_good_code f) used (code_names fs) f.code_name)
        (is_unused-name_used (is_good_code f && not (contains f.code_name used)) made
          (generated_names fs) (generated f))
        (is_unused-name_used (is_good_storage f) stored (storage_names fs) f.storage_name)

  fields_from-Accepts :
      (r : Resource) (path : Text) (index : ℕ) (used made stored : List Text)
      (fs : List (Option Field))
      → Accepts (fields_from s r path index used made stored fs) (field_claims fs) (
          all (on_some (is_valid_field s)) fs
          && is_unused used (code_names fs)
          && is_unused made (generated_names fs)
          && is_unused stored (storage_names fs))
  unfolding fields_from
  fields_from-Accepts r path index used made stored [] = reports-Accepts []
  fields_from-Accepts r path index used made stored (none ∷ fs) =
      >>-Accepts (reports-Accepts _) (fields_from-Accepts r path (index + 1) used made stored fs)
  fields_from-Accepts r path index used made stored (some f ∷ fs) =
      Accepts-test (fields_round used made stored f fs) (
        >>-Accepts
          (validate_field-Accepts (at_index (path ++ codes ".fields") index) used made stored f)
          (fields_from-Accepts r path (index + 1) (name_used (is_good_code f) used f.code_name)
            (made_names used made f) (name_used (is_good_storage f) stored f.storage_name) fs))

  pub validate_fields-Accepts :
      (r : Resource) (path : Text)
      → Accepts (validate_fields s r path) (field_claims r.fields) (are_valid_fields s r.fields)
  unfolding validate_fields
  validate_fields-Accepts r path =
      Accepts-test
        (λ i.
          all (on_some (is_valid_field s)) r.fields
          && is_unused-nil (code_names r.fields) i
          && is_unused-nil (generated_names r.fields) i
          && is_unused-nil (storage_names r.fields) i)
        (fields_from-Accepts r path 0 [] [] [] r.fields)
