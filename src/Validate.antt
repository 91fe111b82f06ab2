-- ===== src/Validate.antt =====
-- internal/spec/validate.go: diagnostics, and the walk that accumulates them. A check is a function
-- of the IDs seen so far: it returns what it appends to `v.out`, in order, and the IDs seen then.
-- The texts of the messages, and what the maps hold beside their keys for them, are left out.
pub mod Defaults
pub mod Fields
pub mod Resources
pub mod Pages
pub mod Navigation
pub mod Whole
pub mod Accepts
use gombit_forge.Prelude.{
  Bool, true, false, not, ◌&&◌, ◌||◌, List, [], ◌∷◌, ◌++◌, ℕ, any, contains, if◌then◌else◌, ◌==◌,
  text_eq, Text, codes,
}
use gombit_forge.Prelude.Decimal.{itoa}
use gombit_forge.StableId.{StableId, Kind, is_valid}

pub data Code : Type 0 where
  spec_version_unsupported missing_id malformed_id duplicate_id invalid_slug duplicate_slug : Code
  invalid_storage_name duplicate_storage_name invalid_code_name duplicate_code_name : Code
  missing_label unsupported_field_type dangling_reference invalid_enum : Code
  invalid_database_driver invalid_auth_mode invalid_page invalid_navigation empty_project : Code
  invalid_default reserved_name page_config_mismatch invalid_hook duplicate_form_page : Code
  duplicate_detail_page invalid_branding invalid_query_capability : Code

pub record Diagnostic : Type 0 where
  pub code : Code
  pub path : Text
  pub entity : StableId

abbrev pub Check : Type 0
Check = List StableId → List Diagnostic × List StableId

-- v.report(code, path, entity)
abbrev pub report : Code → Text → StableId → List Diagnostic
report code path entity = record { code = code; path = path; entity = entity } ∷ []

abbrev pub report_if : Bool → Code → Text → StableId → List Diagnostic
report_if b code path entity = if b then report code path entity else []

-- A check that looks at no ID.
pub reports : List Diagnostic → Check
reports ds seen = (ds, seen)

abbrev and_then : List Diagnostic × List StableId → Check → List Diagnostic × List StableId
and_then (out, seen) d = let (out', seen') = d seen in (out ++ out', seen')

-- One check after the other.
infixr 20 ◌>>◌
pub ◌>>◌ : Check → Check → Check
◌>>◌ c d seen = and_then (c seen) d

-- `claimID`
pub claim_id : StableId → Kind → Text → Check
claim_id id kind path seen =
    if id == []
    then (report missing_id path [], seen)
    else if not (is_valid id kind)
    then (report malformed_id path id, seen)
    else if contains id seen
    then (report duplicate_id path id, seen)
    else ([], id ∷ seen)

-- path[index]
abbrev pub at_index : Text → ℕ → Text
at_index path index = path ++ b'[' ∷ itoa index ++ b']' ∷ []

-- The `switch` on a name that must be well formed and unused: what it reports.
abbrev pub name_reports : Bool → Code → Code → Text → StableId → List Text → Text → List Diagnostic
name_reports good bad again path entity used name =
    if not good
    then report bad path entity
    else if contains name used
    then report again path entity
    else []

-- The names used after it.
abbrev pub name_used : Bool → List Text → Text → List Text
name_used good used name =
    if not good then used else if contains name used then used else name ∷ used
