-- ===== src/Validate/Accepts/ResourceLoop.antt =====
-- What the loops over hooks and over resources accept.
use gombit_forge.Prelude.{
  ℕ, ◌+◌, ◌≡◌, Bool, true, false, not, ◌&&◌, Option, none, some, List, [], ◌∷◌, ◌++◌, all, contains,
  text_eq, Text, codes, arith,
}
use gombit_forge.Prelude.Space.{is_blank}
use gombit_forge.Names.{is_exported_go_ident, is_storage_name}
use gombit_forge.StableId.{kind_hook, kind_resource}
use gombit_forge.ProjectSpec.{ProjectSpec, Resource, Hook, is_valid_event}
use gombit_forge.Validate.{
  report_if, at_index, name_reports, name_used, missing_label, invalid_hook, invalid_code_name,
  duplicate_code_name, invalid_storage_name, duplicate_storage_name,
}
use gombit_forge.Validate.Fields.{is_empty}
use gombit_forge.Validate.Resources.{event_text, hooks_from, resources_from, validate_resources}
use gombit_forge.Validate.Accepts.{
  Accepts, is_empty-append, reports-Accepts, claim_id-Accepts, >>-Accepts, Accepts-test, is_unused,
}
use gombit_forge.Validate.Accepts.Loops.{
  is_unused-nil, is_unused-name_used, is_empty-report_if, is_empty-name_reports,
}
use gombit_forge.Validate.Accepts.Parts
use gombit_forge.Validate.Accepts.Valid.{
  on_some, are_valid_fields, is_valid_behavior, event_names, are_valid_hooks, hook_claims,
  is_valid_resource, resource_code_names, resource_storage_names, are_valid_resources,
  resource_claims,
}
use gombit_forge.Validate.Accepts.FieldLoop.{validate_fields-Accepts}

pub name_round :
    (e g u a U U' : Bool)
    → e ≡ (g && not u)
    → ((g && not u) && U') ≡ (g && U)
    → (e && (a && U')) ≡ ((g && a) && U)
name_round e g u false U U' p q = ground arith
name_round e g u true U U' p q = ground (arith, p, q)

hooks_from-Accepts :
    (r : Resource) (path : Text) (index : ℕ) (seen : List Text) (hs : List (Option Hook))
    → Accepts
        (hooks_from r path index seen hs)
        (hook_claims hs)
        (all (on_some (λ (h : Hook). is_valid_event h.event)) hs && is_unused seen (event_names hs))
unfolding hooks_from
hooks_from-Accepts r path index seen [] = reports-Accepts []
hooks_from-Accepts r path index seen (none ∷ hs) =
    >>-Accepts (reports-Accepts _) (hooks_from-Accepts r path (index + 1) seen hs)
hooks_from-Accepts r path index seen (some h ∷ hs) =
    let here = at_index (path ++ codes ".hooks") index in
    Accepts-test
      (name_round
        (is_empty (
          name_reports (is_valid_event h.event) invalid_hook invalid_hook (here ++ codes ".event")
            h.id seen (event_text h.event)))
        (is_valid_event h.event) (contains (event_text h.event) seen)
        (all (on_some (λ (h : Hook). is_valid_event h.event)) hs)
        (is_unused seen (event_text h.event ∷ event_names hs))
        (is_unused (name_used (is_valid_event h.event) seen (event_text h.event)) (event_names hs))
        (is_empty-name_reports (is_valid_event h.event) invalid_hook invalid_hook
          (here ++ codes ".event") h.id seen (event_text h.event))
        (is_unused-name_used (is_valid_event h.event) seen (event_names hs) (event_text h.event)))
      (>>-Accepts (claim_id-Accepts h.id kind_hook (here ++ codes ".id")) (
        >>-Accepts (reports-Accepts _) (
          hooks_from-Accepts r path (index + 1)
            (name_used (is_valid_event h.event) seen (event_text h.event)) hs)))

validate_hooks-Accepts :
    (r : Resource) (path : Text)
    → Accepts (hooks_from r path 0 [] r.hooks) (hook_claims r.hooks) (are_valid_hooks r.hooks)
validate_hooks-Accepts r path =
    Accepts-test
      (λ i.
        all (on_some (λ (h : Hook). is_valid_event h.event)) r.hooks
        && is_unused-nil (event_names r.hooks) i)
      (hooks_from-Accepts r path 0 [] r.hooks)

-- One round of the loop over the resources.
resource_round :
    (e l g u b v fs be hs a U U' S S' : Bool)
    → e ≡ (l && (g && not u) && (b && not v))
    → ((g && not u) && U') ≡ (g && U)
    → ((b && not v) && S') ≡ (b && S)
    → (e && (fs && (be && (hs && (a && U' && S')))))
      ≡ ((((l && g && b) && fs && be && hs) && a) && U && S)
resource_round e l g u b v fs be hs false U U' S S' p q r = ground arith
resource_round e false g u b v fs be hs true U U' S S' p q r = ground arith
resource_round e true g u b v fs be hs true U U' S S' p q r = ground (arith, p, q, r)

module _ (s : ProjectSpec) where
  resources_from-Accepts :
      (index : ℕ) (used stored : List Text) (rs : List (Option Resource))
      → Accepts (resources_from s index used stored rs) (resource_claims rs) (
          all (on_some (is_valid_resource s)) rs
          && is_unused used (resource_code_names rs)
          && is_unused stored (resource_storage_names rs))
  unfolding resources_from
  resources_from-Accepts index used stored [] = reports-Accepts []
  resources_from-Accepts index used stored (none ∷ rs) =
      >>-Accepts (reports-Accepts _) (resources_from-Accepts (index + 1) used stored rs)
  resources_from-Accepts index used stored (some r ∷ rs) =
      let path = at_index (codes "$.resources") index in
      let names =
        report_if (is_blank r.label) missing_label (path ++ codes ".label") r.id
        ++ name_reports (is_exported_go_ident r.code_name) invalid_code_name duplicate_code_name
            (path ++ codes ".code_name") r.id used r.code_name
        ++ name_reports (is_storage_name r.storage_name) invalid_storage_name duplicate_storage_name
            (path ++ codes ".storage_name") r.id stored r.storage_name in
      Accepts-test
        (resource_round (is_empty names) (not (is_blank r.label)) (is_exported_go_ident r.code_name)
          (contains r.code_name used) (is_storage_name r.storage_name)
          (contains r.storage_name stored) (are_valid_fields s r.fields) (is_valid_behavior r)
          (are_valid_hooks r.hooks) (all (on_some (is_valid_resource s)) rs)
          (is_unused used (r.code_name ∷ resource_code_names rs))
          (is_unused (name_used (is_exported_go_ident r.code_name) used r.code_name)
            (resource_code_names rs))
          (is_unused stored (r.storage_name ∷ resource_storage_names rs))
          (is_unused (name_used (is_storage_name r.storage_name) stored r.storage_name)
            (resource_storage_names rs))
          (simp (is_empty-append, is_empty-report_if, is_empty-name_reports))
          (is_unused-name_used (is_exported_go_ident r.code_name) used (resource_code_names rs)
            r.code_name)
          (is_unused-name_used (is_storage_name r.storage_name) stored (resource_storage_names rs)
            r.storage_name))
        (>>-Accepts (claim_id-Accepts r.id kind_resource (path ++ codes ".id")) (
          >>-Accepts (reports-Accepts names) (
            >>-Accepts (validate_fields-Accepts s r path) (
              >>-Accepts
                (Accepts-test (Parts.validate_behavior-is_empty r path) (reports-Accepts _))
                (>>-Accepts (validate_hooks-Accepts r path) (
                  resources_from-Accepts (index + 1)
                    (name_used (is_exported_go_ident r.code_name) used r.code_name)
                    (name_used (is_storage_name r.storage_name) stored r.storage_name) rs))))))

  pub validate_resources-Accepts :
      Accepts (validate_resources s) (resource_claims s.resources) (are_valid_resources s)
  unfolding validate_resources
  validate_resources-Accepts =
      Accepts-test
        (λ i.
          all (on_some (is_valid_resource s)) s.resources
          && is_unused-nil (resource_code_names s.resources) i
          && is_unused-nil (resource_storage_names s.resources) i)
        (resources_from-Accepts 0 [] [] s.resources)
