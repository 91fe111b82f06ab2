-- ===== src/Validate/Fields.antt =====
-- `validateFields` and `validateFieldType` of internal/spec/validate.go.
use gombit_forge.Prelude.{
  ℕ, ◌+◌, Bool, true, false, not, ◌&&◌, ◌||◌, Option, none, some, List, [], ◌∷◌, ◌++◌, contains,
  if◌then◌else◌, is_some, ◌==◌, text_eq, Text, codes,
}
use gombit_forge.Prelude.Space.{is_blank}
use gombit_forge.Names.{
  is_exported_go_ident, is_reserved_code_name, is_reserved_storage_name, is_storage_name,
  generated_model_field_name,
}
use gombit_forge.StableId.{StableId, kind_field}
use gombit_forge.ProjectSpec.{
  ProjectSpec, Resource, Field, EnumValue, enum, belongs_to, is_valid_type, is_belongs_to,
  find_resource,
}
use gombit_forge.Validate.{
  Diagnostic, Check, report, report_if, reports, ◌>>◌, claim_id, at_index, name_reports, name_used,
  missing_label, unsupported_field_type, invalid_code_name, duplicate_code_name, reserved_name,
  invalid_storage_name, duplicate_storage_name, invalid_enum, dangling_reference, empty_project,
}
use gombit_forge.Validate.Defaults.{validate_field_default}

-- The loop over the values of an enum, with the values seen.
unfoldable pub enum_reports : Text → StableId → ℕ → List Text → List EnumValue → List Diagnostic
enum_reports path id index seen [] = []
enum_reports path id index seen (v ∷ rest) =
    let here = at_index (path ++ codes ".enum_values") index in
    elim (is_blank v.value || contains v.value seen) [
      | true ↦ report invalid_enum here id ++ enum_reports path id (index + 1) seen rest
      | false ↦ enum_reports path id (index + 1) (v.value ∷ seen) rest
    ]

abbrev pub is_empty {ℓ} : {A : Type ℓ} → List A → Bool
is_empty [] = true
is_empty (x ∷ xs) = false

unfoldable pub validate_field_type : ProjectSpec → Field → Text → List Diagnostic
unfolding enum_reports
validate_field_type s f path = elim f.type [
  | enum ↦
      report_if (is_empty f.enum_values) invalid_enum (path ++ codes ".enum_values") f.id
      ++ enum_reports path f.id 0 [] f.enum_values
  | belongs_to ↦
      report_if (f.target == [] || not (is_some (find_resource s f.target))) dangling_reference
        (path ++ codes ".target") f.id
  | _ ↦
      report_if (not (is_empty f.enum_values)) invalid_enum (path ++ codes ".enum_values") f.id
      ++ report_if (not (f.target == [])) dangling_reference (path ++ codes ".target") f.id
]

-- GeneratedModelFieldName(field.CodeName, field.Type)
abbrev pub generated : Field → Text
generated f = generated_model_field_name f.code_name (is_belongs_to f.type)

abbrev pub is_good_code : Field → Bool
is_good_code f = is_exported_go_ident f.code_name && not (is_reserved_code_name f.code_name)

abbrev pub is_reserved_key : Field → Bool
is_reserved_key f = not (generated f == f.code_name) && is_reserved_code_name (generated f)

-- The `switch` on the code name, with the code names and the generated names used.
unfoldable pub code_reports : Text → List Text → List Text → Field → List Diagnostic
code_reports path used made f =
    if not (is_exported_go_ident f.code_name)
    then report invalid_code_name (path ++ codes ".code_name") f.id
    else if is_reserved_code_name f.code_name
    then report reserved_name (path ++ codes ".code_name") f.id
    else if contains f.code_name used
    then report duplicate_code_name (path ++ codes ".code_name") f.id
    else report_if (is_reserved_key f) reserved_name (path ++ codes ".code_name") f.id
      ++ report_if (contains (generated f) made) duplicate_code_name (path ++ codes ".code_name")
          f.id

abbrev pub made_names : List Text → List Text → Field → List Text
made_names used made f =
    name_used (is_good_code f && not (contains f.code_name used)) made (generated f)

-- The `switch` on the storage name, with those used.
unfoldable pub storage_reports : Text → List Text → Field → List Diagnostic
storage_reports path used f =
    if is_storage_name f.storage_name && is_reserved_storage_name f.storage_name
    then report reserved_name (path ++ codes ".storage_name") f.id
    else name_reports (is_storage_name f.storage_name) invalid_storage_name duplicate_storage_name
        (path ++ codes ".storage_name") f.id used f.storage_name

abbrev pub is_good_storage : Field → Bool
is_good_storage f = is_storage_name f.storage_name && not (is_reserved_storage_name f.storage_name)

-- The body of the loop over the fields.
unfoldable pub validate_field :
    ProjectSpec → Text → List Text → List Text → List Text → Field → Check
unfolding code_reports storage_reports
validate_field s path used made stored f =
    claim_id f.id kind_field (path ++ codes ".id")
    >> reports (
        report_if (is_blank f.label) missing_label (path ++ codes ".label") f.id
        ++ report_if (not (is_valid_type f.type)) unsupported_field_type (path ++ codes ".type")
            f.id
        ++ code_reports path used made f
        ++ storage_reports path stored f
        ++ validate_field_type s f path
        ++ validate_field_default f path)

-- The loop, with the code names, the generated names and the storage names used.
unfoldable pub fields_from :
    ProjectSpec
    → Resource
    → Text
    → ℕ
    → List Text
    → List Text
    → List Text
    → List (Option Field)
    → Check
unfolding validate_field
fields_from s r path index used made stored [] = reports []
fields_from s r path index used made stored (none ∷ rest) =
    reports (report empty_project (at_index (path ++ codes ".fields") index) r.id)
    >> fields_from s r path (index + 1) used made stored rest
fields_from s r path index used made stored (some f ∷ rest) =
    validate_field s (at_index (path ++ codes ".fields") index) used made stored f
    >> fields_from s r path (index + 1) (name_used (is_good_code f) used f.code_name)
        (made_names used made f) (name_used (is_good_storage f) stored f.storage_name) rest

unfoldable pub validate_fields : ProjectSpec → Resource → Text → Check
unfolding fields_from
validate_fields s r path = fields_from s r path 0 [] [] [] r.fields
