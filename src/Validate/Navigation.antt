-- ===== src/Validate/Navigation.antt =====
-- `validateNavigation`, `validateBranding` and `validateProject` of internal/spec/validate.go.
use gombit_forge.Prelude.{
  ℕ, ◌+◌, Bool, true, false, not, ◌&&◌, ◌||◌, Option, none, some, List, [], ◌∷◌, ◌++◌, all, between,
  contains, nat_beq, if◌then◌else◌, ◌==◌, nat_eq, text_eq, Text, codes,
}
use gombit_forge.Prelude.Space.{is_blank}
use gombit_forge.Names.{is_slug, byte_len}
use gombit_forge.StableId.{StableId, kind_nav, kind_project}
use gombit_forge.ProjectSpec.{
  ProjectSpec, DatabaseDriver, AuthMode, Page, NavItem, NavTarget, page_target, external_target,
  other_target, Branding, find_page,
}
use gombit_forge.Validate.{
  Diagnostic, Check, report, report_if, reports, ◌>>◌, claim_id, at_index, missing_label,
  invalid_navigation, dangling_reference, empty_project, invalid_branding, invalid_slug,
  invalid_database_driver, invalid_auth_mode,
}
use gombit_forge.Validate.Pages.{is_dashboard_type, is_table_type}

-- strings.HasPrefix(s, prefix)
abbrev pub starts_with : Text → Text → Bool
starts_with [] s = true
starts_with (c ∷ cs) [] = false
starts_with (c ∷ cs) (d ∷ s) = nat_beq c d && starts_with cs s

abbrev pub is_web_url : Text → Bool
is_web_url url = starts_with (codes "http://") url || starts_with (codes "https://") url

-- The page that an entry leads to: a dashboard or a resource list.
abbrev pub is_destination : Option Page → Bool
is_destination none = false
is_destination (some p) = is_dashboard_type p.type || is_table_type p.type

abbrev target_page_reports : Text → StableId → Option Page → List Diagnostic
target_page_reports path id none = report dangling_reference (path ++ codes ".page") id
target_page_reports path id (some p) =
    report_if (not (is_dashboard_type p.type || is_table_type p.type)) invalid_navigation
      (path ++ codes ".page") id

-- The `switch` on the target.
unfoldable pub target_reports : ProjectSpec → Text → NavItem → NavTarget → List Diagnostic
target_reports s path item page_target =
    report_if (not (item.url == [])) invalid_navigation (path ++ codes ".url") item.id
    ++ (if item.page == []
        then report dangling_reference (path ++ codes ".page") item.id
        else target_page_reports path item.id (find_page s item.page))
target_reports s path item external_target =
    report_if (not (item.page == [])) invalid_navigation (path ++ codes ".page") item.id
    ++ report_if (not (is_web_url item.url)) invalid_navigation (path ++ codes ".url") item.id
target_reports s path item (other_target t) =
    report invalid_navigation (path ++ codes ".target") item.id

unfoldable pub navigation_from : ProjectSpec → ℕ → List (Option NavItem) → Check
unfolding target_reports
navigation_from s index [] = reports []
navigation_from s index (none ∷ rest) =
    reports (report empty_project (at_index (codes "$.navigation") index) [])
    >> navigation_from s (index + 1) rest
navigation_from s index (some item ∷ rest) =
    let path = at_index (codes "$.navigation") index in
    claim_id item.id kind_nav (path ++ codes ".id")
    >> (reports (
          report_if (is_blank item.label) missing_label (path ++ codes ".label") item.id
          ++ target_reports s path item item.target)
        >> navigation_from s (index + 1) rest)

unfoldable pub validate_navigation : ProjectSpec → Check
unfolding navigation_from
validate_navigation s = navigation_from s 0 s.navigation

abbrev is_hex : ℕ → Bool
is_hex c = between b'0' b'9' c || between b'a' b'f' c || between b'A' b'F' c

-- `isHexColor`: the length is in bytes.
unfoldable pub is_hex_color : Text → Bool
is_hex_color [] = false
is_hex_color (c ∷ s) =
    if not (nat_beq (byte_len (c ∷ s)) 4) && not (nat_beq (byte_len (c ∷ s)) 7)
    then false
    else if not (c == b'#')
    then false
    else all is_hex s

abbrev pub appearances : List Text
appearances = [] ∷ codes "light" ∷ codes "dark" ∷ codes "system" ∷ []

unfoldable pub validate_branding : Option Branding → List Diagnostic
validate_branding none = []
validate_branding (some b) =
    report_if (not (b.accent_color == []) && not (is_hex_color b.accent_color)) invalid_branding
      (codes "$.branding.accent_color") []
    ++ report_if (not (contains b.appearance appearances)) invalid_branding
        (codes "$.branding.appearance") []

abbrev pub is_known_driver : DatabaseDriver → Bool
is_known_driver (DatabaseDriver.other_driver t) = false
is_known_driver _ = true

abbrev pub is_known_mode : AuthMode → Bool
is_known_mode (AuthMode.other_mode t) = false
is_known_mode _ = true

unfoldable pub validate_project : ProjectSpec → Check
validate_project s =
    claim_id s.project.id kind_project (codes "$.project.id")
    >> reports (
        report_if (is_blank s.project.name) missing_label (codes "$.project.name") s.project.id
        ++ report_if (not (is_slug s.project.slug)) invalid_slug (codes "$.project.slug")
            s.project.id
        ++ report_if (not (is_known_driver s.database)) invalid_database_driver
            (codes "$.database.driver") s.project.id
        ++ report_if (not (is_known_mode s.auth)) invalid_auth_mode (codes "$.auth.mode")
            s.project.id)
