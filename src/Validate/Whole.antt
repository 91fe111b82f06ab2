-- ===== src/Validate/Whole.antt =====
-- `Validate` of internal/spec/validate.go, and `Has` of its result.
use gombit_forge.Prelude.{Bool, false, not, Option, none, some, List, [], nat_beq, codes}
use gombit_forge.Prelude.Int.{ℤ, pos, negsuc}
use gombit_forge.ProjectSpec.{ProjectSpec}
use gombit_forge.Validate.{
  Diagnostic, Check, report, report_if, reports, ◌>>◌, empty_project, spec_version_unsupported,
}
use gombit_forge.Validate.Resources.{validate_resources}
use gombit_forge.Validate.Pages.{validate_pages}
use gombit_forge.Validate.Navigation.{validate_project, validate_navigation, validate_branding}

abbrev pub is_supported : ℤ → Bool
is_supported (pos n) = nat_beq n 1
is_supported (negsuc n) = false

unfoldable pub whole_check : ProjectSpec → Check
whole_check s =
    reports (
      report_if (not (is_supported s.spec_version)) spec_version_unsupported
        (codes "$.spec_version") [])
    >> (validate_project s
        >> (validate_resources s
            >> (validate_pages s
                >> (validate_navigation s >> reports (validate_branding s.branding)))))

-- nil, the list of a valid spec, is the empty list.
unfoldable pub validate : Option ProjectSpec → List Diagnostic
unfolding whole_check
validate none = report empty_project (codes "$") []
validate (some s) = (whole_check s []).0
