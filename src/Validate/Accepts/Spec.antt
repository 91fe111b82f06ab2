-- ===== src/Validate/Accepts/Spec.antt =====
-- `Validate` accepts exactly the valid specs.
use gombit_forge.Prelude.{
  ℕ, ◌+◌, ◌≡◌, ◌&&◌, Option, none, some, List, [], ◌∷◌, ◌++◌, all, text_eq, codes,
}
use gombit_forge.StableId.{kind_nav, kind_project}
use gombit_forge.ProjectSpec.{ProjectSpec, NavItem}
use gombit_forge.Validate.{at_index}
use gombit_forge.Validate.Fields.{is_empty}
use gombit_forge.Validate.Navigation.{navigation_from, validate_navigation, validate_project}
use gombit_forge.Validate.Whole.{is_supported, whole_check, validate}
use gombit_forge.Validate.Accepts.{
  Accepts, is_empty-append, reports-Accepts, claim_id-Accepts, >>-Accepts, Accepts-test,
}
use gombit_forge.Validate.Accepts.Loops.{is_empty-report_if}
use gombit_forge.Validate.Accepts.Parts
use gombit_forge.Validate.Accepts.Valid.{
  on_some, if_some, are_valid_resources, are_valid_pages, is_valid_item, nav_claims,
  is_valid_branding, is_valid_project, all_claims, is_valid_spec,
}
use gombit_forge.Validate.Accepts.ResourceLoop.{validate_resources-Accepts}
use gombit_forge.Validate.Accepts.PageLoop.{validate_pages-Accepts}
use gombit_forge.Validate.Accepts.FieldLoop.{not-not}

module _ (s : ProjectSpec) where
  navigation_from-Accepts :
      (index : ℕ) (items : List (Option NavItem))
      → Accepts
          (navigation_from s index items)
          (nav_claims items)
          (all (on_some (is_valid_item s)) items)
  unfolding navigation_from
  navigation_from-Accepts index [] = reports-Accepts []
  navigation_from-Accepts index (none ∷ items) =
      >>-Accepts (reports-Accepts _) (navigation_from-Accepts (index + 1) items)
  navigation_from-Accepts index (some item ∷ items) =
      let path = at_index (codes "$.navigation") index in
      >>-Accepts (claim_id-Accepts item.id kind_nav (path ++ codes ".id")) (
        >>-Accepts
          (Accepts-test (simp (is_empty-append, is_empty-report_if, Parts.target_reports-is_empty))
            (reports-Accepts _))
          (navigation_from-Accepts (index + 1) items))

  validate_project-Accepts :
      Accepts
        (validate_project s)
        (record { id = s.project.id; kind = kind_project } ∷ [])
        (is_valid_project s)
  unfolding validate_project
  validate_project-Accepts =
      >>-Accepts (claim_id-Accepts s.project.id kind_project (codes "$.project.id"))
        (Accepts-test (simp (is_empty-append, is_empty-report_if, not-not)) (reports-Accepts _))

  whole_check-Accepts : Accepts (whole_check s) (all_claims s) (
      is_supported s.spec_version
      && (is_valid_project s
          && (are_valid_resources s
              && (are_valid_pages s
                  && (all (on_some (is_valid_item s)) s.navigation
                      && if_some is_valid_branding s.branding)))))
  unfolding whole_check validate_navigation
  whole_check-Accepts =
      >>-Accepts (Accepts-test (simp (is_empty-report_if, not-not)) (reports-Accepts _)) (
        >>-Accepts validate_project-Accepts (
          >>-Accepts (validate_resources-Accepts s) (
            >>-Accepts (validate_pages-Accepts s) (
              >>-Accepts (navigation_from-Accepts 0 s.navigation)
                (Accepts-test (Parts.validate_branding-is_empty s.branding) (reports-Accepts _))))))

  -- `Validate` reports nothing exactly for the valid specs: every entity passes the tests on it,
  -- names are unique where they must be, references lead to entities that exist, and every ID is
  -- well formed and occurs once in the whole spec.
  pub validate-is_valid_spec : is_empty (validate (some s)) ≡ is_valid_spec s
  unfolding validate
  validate-is_valid_spec = whole_check-Accepts.verdict []
