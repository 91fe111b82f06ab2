-- ===== src/Validate/Pages.antt =====
-- `validatePages` of internal/spec/validate.go, with its checks of tables, forms and dashboards.
use gombit_forge.Prelude.{
  ℕ, ◌+◌, Bool, true, false, not, ◌&&◌, Option, none, some, List, [], ◌∷◌, ◌++◌, contains,
  if◌then◌else◌, is_some, ◌==◌, text_eq, Text, codes,
}
use gombit_forge.Prelude.Int.{is_negative}
use gombit_forge.Prelude.Space.{is_blank}
use gombit_forge.Names.{is_slug}
use gombit_forge.StableId.{StableId, kind_page}
use gombit_forge.ProjectSpec.{
  ProjectSpec, Resource, Field, FieldType, date, datetime, Page, PageType, resource_table,
  resource_form, resource_detail, dashboard_page, other_page, TableConfig, FormConfig,
  DashboardConfig, DashboardCard, AggregateCard, is_valid_op, find_field, find_resource,
}
use gombit_forge.Validate.{
  Diagnostic, Check, report, report_if, reports, ◌>>◌, claim_id, at_index, name_reports, name_used,
  missing_label, invalid_slug, duplicate_slug, invalid_page, page_config_mismatch,
  dangling_reference, empty_project, invalid_query_capability, duplicate_form_page,
  duplicate_detail_page,
}
use gombit_forge.Validate.Fields.{is_empty}

abbrev pub is_table_type : PageType → Bool
is_table_type resource_table = true
is_table_type _ = false

abbrev pub is_form_type : PageType → Bool
is_form_type resource_form = true
is_form_type _ = false

abbrev pub is_detail_type : PageType → Bool
is_detail_type resource_detail = true
is_detail_type _ = false

abbrev pub is_dashboard_type : PageType → Bool
is_dashboard_type dashboard_page = true
is_dashboard_type _ = false

-- `validatePageConfigMatchesType`: which block a type permits.
unfoldable pub config_reports : Page → Text → List Diagnostic
config_reports p path =
    report_if (is_some p.table && not (is_table_type p.type)) page_config_mismatch
      (path ++ codes ".table") p.id
    ++ report_if (is_some p.form && not (is_form_type p.type)) page_config_mismatch
        (path ++ codes ".form") p.id
    ++ report_if (is_some p.dashboard && not (is_dashboard_type p.type)) page_config_mismatch
        (path ++ codes ".dashboard") p.id

abbrev pub has_field : Resource → StableId → Bool
has_field r id = is_some (find_field r id)

-- The loop over the columns of a table, or over the fields of a form.
unfoldable pub reference_reports : Resource → Text → ℕ → List StableId → List Diagnostic
reference_reports r path index [] = []
reference_reports r path index (id ∷ rest) =
    report_if (not (has_field r id)) dangling_reference (at_index path index) id
    ++ reference_reports r path (index + 1) rest

-- The loop over the filters of a table.
unfoldable pub filter_reports : Resource → Text → ℕ → List StableId → List Diagnostic
filter_reports r path index [] = []
filter_reports r path index (id ∷ rest) =
    (if not (has_field r id)
      then report dangling_reference (at_index path index) id
      else report_if (not (contains id r.behavior.filterable_fields)) invalid_query_capability
          (at_index path index) id)
    ++ filter_reports r path (index + 1) rest

abbrev pub table_reports : Resource → StableId → Text → Option TableConfig → List Diagnostic
table_reports r id path none = []
table_reports r id path (some t) =
    reference_reports r (path ++ codes ".table.columns") 0 t.columns
    ++ report_if (is_negative t.page_size) invalid_page (path ++ codes ".table.page_size") id
    ++ report_if (t.search && is_empty r.behavior.searchable_fields) invalid_query_capability
        (path ++ codes ".table.search") id
    ++ filter_reports r (path ++ codes ".table.filters") 0 t.filters

abbrev pub form_layouts : List Text
form_layouts = [] ∷ codes "single_column" ∷ codes "two_column" ∷ codes "section_groups" ∷ []

abbrev pub form_reports : Resource → StableId → Text → Option FormConfig → List Diagnostic
form_reports r id path none = []
form_reports r id path (some f) =
    reference_reports r (path ++ codes ".form.fields") 0 f.fields
    ++ report_if (not (contains f.layout form_layouts)) invalid_page (path ++ codes ".form.layout")
        id

abbrev pub resource_page_reports : Page → Text → Option Resource → List Diagnostic
resource_page_reports p path none = report dangling_reference (path ++ codes ".resource") p.id
resource_page_reports p path (some r) =
    table_reports r p.id path p.table ++ form_reports r p.id path p.form

-- `validateResourcePage`
unfoldable pub validate_resource_page : ProjectSpec → Page → Text → List Diagnostic
unfolding reference_reports filter_reports
validate_resource_page s p path =
    if p.resource == []
    then report dangling_reference (path ++ codes ".resource") p.id
    else resource_page_reports p path (find_resource s p.resource)

abbrev pub is_temporal : FieldType → Bool
is_temporal date = true
is_temporal datetime = true
is_temporal _ = false

abbrev pub order_field_reports : Text → StableId → Resource → Option Field → List Diagnostic
order_field_reports path order_by r none =
    report dangling_reference (path ++ codes ".order_by") order_by
order_field_reports path order_by r (some f) =
    report_if (not (contains order_by r.behavior.sortable_fields)) invalid_query_capability
      (path ++ codes ".order_by") order_by
    ++ report_if (not (is_temporal f.type)) invalid_query_capability (path ++ codes ".order_by")
        order_by

-- `validateCardOrderBy` on a recent list.
abbrev pub order_reports : Text → DashboardCard → Option Resource → List Diagnostic
order_reports path card none = []
order_reports path card (some r) =
    if card.order_by == []
    then []
    else order_field_reports path card.order_by r (find_field r card.order_by)

-- `validateCardOrderBy`; the flag tells the group `count_cards`.
abbrev pub card_order_reports :
    Bool → StableId → Text → DashboardCard → Option Resource → List Diagnostic
card_order_reports true page path card r =
    report_if (not (card.order_by == [])) invalid_page (path ++ codes ".order_by") page
card_order_reports false page path card r = order_reports path card r

-- The loop over the cards of one group.
unfoldable pub card_reports :
    ProjectSpec → Bool → StableId → Text → ℕ → List DashboardCard → List Diagnostic
card_reports s is_count page path index [] = []
card_reports s is_count page path index (card ∷ rest) =
    let here = at_index path index in
    (report_if (not (is_some (find_resource s card.resource))) dangling_reference
        (here ++ codes ".resource") page
      ++ report_if (is_blank card.label) missing_label (here ++ codes ".label") page
      ++ card_order_reports is_count page here card (find_resource s card.resource))
    ++ card_reports s is_count page path (index + 1) rest

abbrev pub aggregate_field_reports : Text → StableId → Resource → Bool → List Diagnostic
aggregate_field_reports path field r false =
    report dangling_reference (path ++ codes ".field") field
aggregate_field_reports path field r true =
    report_if (not (contains field r.behavior.aggregatable_fields)) invalid_query_capability
      (path ++ codes ".field") field

-- `validateAggregateCard`
abbrev pub aggregate_reports : StableId → Text → AggregateCard → Option Resource → List Diagnostic
aggregate_reports page path card none =
    report_if (not (is_valid_op card.op)) invalid_page (path ++ codes ".op") page
aggregate_reports page path card (some r) =
    report_if (not (is_valid_op card.op)) invalid_page (path ++ codes ".op") page
    ++ aggregate_field_reports path card.field r (has_field r card.field)

-- The loop over the aggregate cards.
unfoldable pub aggregates_reports :
    ProjectSpec → StableId → Text → ℕ → List AggregateCard → List Diagnostic
aggregates_reports s page path index [] = []
aggregates_reports s page path index (card ∷ rest) =
    let here = at_index path index in
    (report_if (not (is_some (find_resource s card.resource))) dangling_reference
        (here ++ codes ".resource") page
      ++ report_if (is_blank card.label) missing_label (here ++ codes ".label") page
      ++ aggregate_reports page here card (find_resource s card.resource))
    ++ aggregates_reports s page path (index + 1) rest

abbrev pub dashboard_reports :
    ProjectSpec → StableId → Text → Option DashboardConfig → List Diagnostic
dashboard_reports s page path none = []
dashboard_reports s page path (some d) =
    card_reports s true page (path ++ codes ".dashboard.count_cards") 0 d.count_cards
    ++ card_reports s false page (path ++ codes ".dashboard.recent_lists") 0 d.recent_lists
    ++ aggregates_reports s page (path ++ codes ".dashboard.aggregate_cards") 0 d.aggregate_cards

-- `validateDashboardPage`
unfoldable pub validate_dashboard_page : ProjectSpec → Page → Text → List Diagnostic
unfolding card_reports aggregates_reports
validate_dashboard_page s p path =
    report_if (not (p.resource == [])) invalid_page (path ++ codes ".resource") p.id
    ++ dashboard_reports s p.id path p.dashboard

-- A form page, or a detail page, of a resource: at most one is allowed.
abbrev pub claims_form : Page → Bool
claims_form p = is_form_type p.type && not (p.resource == [])

abbrev pub claims_detail : Page → Bool
claims_detail p = is_detail_type p.type && not (p.resource == [])

-- The `switch` on the type of a page, with the resources that have a form and a detail page.
abbrev pub resource_type_reports :
    ProjectSpec → Text → List StableId → List StableId → Page → List Diagnostic
resource_type_reports s path forms details p =
    config_reports p path
    ++ validate_resource_page s p path
    ++ report_if (claims_form p && contains p.resource forms) duplicate_form_page
        (path ++ codes ".resource") p.id
    ++ report_if (claims_detail p && contains p.resource details) duplicate_detail_page
        (path ++ codes ".resource") p.id

unfoldable pub type_reports :
    ProjectSpec → Text → List StableId → List StableId → Page → PageType → List Diagnostic
unfolding validate_resource_page validate_dashboard_page config_reports
type_reports s path forms details p resource_table = resource_type_reports s path forms details p
type_reports s path forms details p resource_form = resource_type_reports s path forms details p
type_reports s path forms details p resource_detail = resource_type_reports s path forms details p
type_reports s path forms details p dashboard_page =
    config_reports p path ++ validate_dashboard_page s p path
type_reports s path forms details p (other_page t) =
    report invalid_page (path ++ codes ".type") p.id

-- The loop over the pages, with the slugs used and the resources that have a form and a detail page.
unfoldable pub pages_from :
    ProjectSpec → ℕ → List Text → List StableId → List StableId → List (Option Page) → Check
unfolding type_reports
pages_from s index slugs forms details [] = reports []
pages_from s index slugs forms details (none ∷ rest) =
    reports (report empty_project (at_index (codes "$.pages") index) [])
    >> pages_from s (index + 1) slugs forms details rest
pages_from s index slugs forms details (some p ∷ rest) =
    let path = at_index (codes "$.pages") index in
    claim_id p.id kind_page (path ++ codes ".id")
    >> (reports (
          report_if (is_blank p.label) missing_label (path ++ codes ".label") p.id
          ++ name_reports (is_slug p.slug) invalid_slug duplicate_slug (path ++ codes ".slug") p.id
              slugs p.slug
          ++ type_reports s path forms details p p.type)
        >> pages_from s (index + 1) (name_used (is_slug p.slug) slugs p.slug)
            (name_used (claims_form p) forms p.resource)
            (name_used (claims_detail p) details p.resource) rest)

unfoldable pub validate_pages : ProjectSpec → Check
unfolding pages_from
validate_pages s = pages_from s 0 [] [] [] s.pages
