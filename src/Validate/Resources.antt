-- ===== src/Validate/Resources.antt =====
-- `validateResources`, `validateHooks` and `validateBehavior` of internal/spec/validate.go.
use gombit_forge.Prelude.{
  ℕ, ◌+◌, Bool, true, false, not, Option, none, some, List, [], ◌∷◌, ◌++◌, text_eq, Text, codes,
}
use gombit_forge.Prelude.Space.{is_blank}
use gombit_forge.Names.{is_exported_go_ident, is_storage_name}
use gombit_forge.StableId.{StableId, kind_resource, kind_hook}
use gombit_forge.ProjectSpec.{
  ProjectSpec, Resource, Field, FieldType, Hook, HookEvent, string, text, integer, decimal, boolean,
  enum, belongs_to, is_valid_event, find_field,
}
use gombit_forge.Validate.{
  Diagnostic, Check, report, report_if, reports, ◌>>◌, claim_id, at_index, name_reports, name_used,
  missing_label, invalid_code_name, duplicate_code_name, invalid_storage_name,
  duplicate_storage_name, dangling_reference, empty_project, invalid_hook, invalid_query_capability,
}
use gombit_forge.Validate.Fields.{validate_fields}

-- The text that an event is in the source.
unfoldable pub event_text : HookEvent → Text
event_text HookEvent.before_create = codes "before_create"
event_text HookEvent.after_create = codes "after_create"
event_text HookEvent.before_update = codes "before_update"
event_text HookEvent.after_update = codes "after_update"
event_text HookEvent.before_delete = codes "before_delete"
event_text HookEvent.after_delete = codes "after_delete"
event_text (HookEvent.other_event t) = t

-- The loop over the hooks, with the events seen.
unfoldable pub hooks_from : Resource → Text → ℕ → List Text → List (Option Hook) → Check
hooks_from r path index seen [] = reports []
hooks_from r path index seen (none ∷ rest) =
    reports (report invalid_hook (at_index (path ++ codes ".hooks") index) r.id)
    >> hooks_from r path (index + 1) seen rest
hooks_from r path index seen (some h ∷ rest) =
    let here = at_index (path ++ codes ".hooks") index in
    claim_id h.id kind_hook (here ++ codes ".id")
    >> (reports (
          name_reports (is_valid_event h.event) invalid_hook invalid_hook (here ++ codes ".event")
            h.id seen (event_text h.event))
        >> hooks_from r path (index + 1)
            (name_used (is_valid_event h.event) seen (event_text h.event)) rest)

-- capabilityAllowedTypes[name][type], where a name that the map has not allows every type
abbrev pub is_filterable_type : FieldType → Bool
is_filterable_type string = true
is_filterable_type integer = true
is_filterable_type boolean = true
is_filterable_type enum = true
is_filterable_type belongs_to = true
is_filterable_type _ = false

abbrev pub is_searchable_type : FieldType → Bool
is_searchable_type string = true
is_searchable_type text = true
is_searchable_type enum = true
is_searchable_type _ = false

abbrev pub is_aggregatable_type : FieldType → Bool
is_aggregatable_type integer = true
is_aggregatable_type decimal = true
is_aggregatable_type _ = false

abbrev pub is_any_type : FieldType → Bool
is_any_type t = true

abbrev reference_reports : (FieldType → Bool) → Text → StableId → Option Field → List Diagnostic
reference_reports allowed path id none = report dangling_reference path id
reference_reports allowed path id (some f) =
    report_if (not (allowed f.type)) invalid_query_capability path id

-- The loop over one list of `validateBehavior`.
unfoldable pub list_reports :
    Resource → (FieldType → Bool) → Text → ℕ → List StableId → List Diagnostic
list_reports r allowed path index [] = []
list_reports r allowed path index (id ∷ rest) =
    reference_reports allowed (at_index path index) id (find_field r id)
    ++ list_reports r allowed path (index + 1) rest

unfoldable pub validate_behavior : Resource → Text → List Diagnostic
unfolding list_reports
validate_behavior r path =
    let named : Text → Text = λ name. path ++ codes ".behavior." ++ name in
    list_reports r is_any_type (named (codes "list_fields")) 0 r.behavior.list_fields
    ++ list_reports r is_searchable_type (named (codes "searchable_fields")) 0
        r.behavior.searchable_fields
    ++ list_reports r is_any_type (named (codes "sortable_fields")) 0 r.behavior.sortable_fields
    ++ list_reports r is_filterable_type (named (codes "filterable_fields")) 0
        r.behavior.filterable_fields
    ++ list_reports r is_aggregatable_type (named (codes "aggregatable_fields")) 0
        r.behavior.aggregatable_fields

-- The loop over the resources, with the code names and the storage names used.
unfoldable pub resources_from :
    ProjectSpec → ℕ → List Text → List Text → List (Option Resource) → Check
unfolding hooks_from
resources_from s index used stored [] = reports []
resources_from s index used stored (none ∷ rest) =
    reports (report empty_project (at_index (codes "$.resources") index) [])
    >> resources_from s (index + 1) used stored rest
resources_from s index used stored (some r ∷ rest) =
    let path = at_index (codes "$.resources") index in
    claim_id r.id kind_resource (path ++ codes ".id")
    >> (reports (
          report_if (is_blank r.label) missing_label (path ++ codes ".label") r.id
          ++ name_reports (is_exported_go_ident r.code_name) invalid_code_name duplicate_code_name
              (path ++ codes ".code_name") r.id used r.code_name
          ++ name_reports (is_storage_name r.storage_name) invalid_storage_name
              duplicate_storage_name (path ++ codes ".storage_name") r.id stored r.storage_name)
        >> (validate_fields s r path
            >> (reports (validate_behavior r path)
                >> (hooks_from r path 0 [] r.hooks
                    >> resources_from s (index + 1)
                        (name_used (is_exported_go_ident r.code_name) used r.code_name)
                        (name_used (is_storage_name r.storage_name) stored r.storage_name) rest))))

unfoldable pub validate_resources : ProjectSpec → Check
unfolding resources_from
validate_resources s = resources_from s 0 [] [] s.resources
