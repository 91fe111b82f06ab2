-- ===== src/Validate/Accepts/Parts.antt =====
-- When the checks that claim no ID report nothing.
use gombit_forge.Prelude.{
  ℕ, ◌+◌, ◌≡◌, refl, ◌∙◌, Bool, true, false, not, ◌&&◌, Option, none, some, List, [], ◌∷◌, ◌++◌,
  map, all, contains, is_some, ◌==◌, text_eq, Text, codes, arith, Option-cases, inl, inr,
}
use gombit_forge.Prelude.Int.{is_negative}
use gombit_forge.Prelude.Space.{is_blank}
use gombit_forge.StableId.{StableId}
use gombit_forge.ProjectSpec.{
  ProjectSpec, Resource, Field, FieldType, EnumValue, Page, TableConfig, FormConfig,
  DashboardConfig, DashboardCard, AggregateCard, NavItem, NavTarget, Branding, enum, belongs_to,
  page_target, external_target, other_target, find_resource, find_field, find_page,
}
use gombit_forge.Validate.{
  missing_label, invalid_page, invalid_query_capability, report_if, at_index,
}
use gombit_forge.Validate.Defaults.{is_valid_default, validate_field_default}
use gombit_forge.Validate.Fields.{
  is_empty, enum_reports, validate_field_type, code_reports, storage_reports, is_good_code,
  is_reserved_key, is_good_storage, generated,
}
use gombit_forge.Validate.Resources.{list_reports, validate_behavior}
use gombit_forge.Validate.Pages.{
  config_reports, reference_reports, filter_reports, table_reports, form_reports,
  resource_page_reports, validate_resource_page, form_layouts, card_reports, card_order_reports,
  aggregates_reports, dashboard_reports, validate_dashboard_page, has_field,
}
use gombit_forge.Validate.Navigation.{target_reports, validate_branding}
use gombit_forge.Validate.Accepts.{is_empty-append, is_unused}
use gombit_forge.Validate.Accepts.Loops.{is_unused-nil}
use gombit_forge.Validate.Accepts.Valid.{
  on_some, if_some, has_valid_target, refers_to, is_valid_behavior, has_own_config, is_valid_filter,
  is_valid_table, is_valid_form, is_valid_resource_page, is_valid_count, is_valid_recent,
  is_valid_aggregate, is_valid_dashboard, is_valid_target, is_valid_branding, is_valid_order,
}

enum_reports-is_empty :
    (path : Text) (id : StableId) (index : ℕ) (seen : List Text) (vs : List EnumValue)
    → is_empty (enum_reports path id index seen vs) ≡ (
        all (λ (v : EnumValue). not (is_blank v.value)) vs
        && is_unused seen (map (λ (v : EnumValue). v.value) vs))
unfolding enum_reports
enum_reports-is_empty path id index seen [] = refl
enum_reports-is_empty path id index seen (v ∷ vs) =
    ground (arith, enum_reports-is_empty path id (index + 1) (v.value ∷ seen) vs)

pub validate_field_type-is_empty :
    (s : ProjectSpec) (f : Field) (path : Text)
    → is_empty (validate_field_type s f path) ≡ has_valid_target s f
unfolding validate_field_type
validate_field_type-is_empty s f path = by_type f.type
  where
    by_type :
        (t : FieldType)
        → is_empty (validate_field_type s (record f { type = t }) path)
          ≡ has_valid_target s (record f { type = t })
    by_type enum = ground (
      arith,
      enum_reports-is_empty path f.id 0 [] f.enum_values,
      is_unused-nil (map (λ (v : EnumValue). v.value) f.enum_values),
    )
    by_type belongs_to = ground arith
    by_type _ = ground arith

pub validate_field_default-is_empty :
    (f : Field) (path : Text)
    → is_empty (validate_field_default f path)
      ≡ if_some (is_valid_default f.type f.enum_values) f.default
unfolding validate_field_default
validate_field_default-is_empty f path = by_default f.default
  where
    by_default :
        (d : Option Text)
        → is_empty (validate_field_default (record f { default = d }) path)
          ≡ if_some (is_valid_default f.type f.enum_values) d
    by_default none = refl
    by_default (some v) = ground arith

pub code_reports-is_empty :
    (path : Text) (used made : List Text) (f : Field)
    → is_empty (code_reports path used made f) ≡ (
        is_good_code f
        && not (is_reserved_key f)
        && not (contains f.code_name used)
        && not (contains (generated f) made))
unfolding code_reports
code_reports-is_empty path used made f = ground arith

pub storage_reports-is_empty :
    (path : Text) (used : List Text) (f : Field)
    → is_empty (storage_reports path used f)
      ≡ (is_good_storage f && not (contains f.storage_name used))
unfolding storage_reports
storage_reports-is_empty path used f = ground arith

list_reports-is_empty :
    (r : Resource) (allowed : FieldType → Bool) (path : Text) (index : ℕ) (ids : List StableId)
    → is_empty (list_reports r allowed path index ids) ≡ all (refers_to r allowed) ids
unfolding list_reports
list_reports-is_empty r allowed path index [] = refl
list_reports-is_empty r allowed path index (id ∷ ids) = elim (Option-cases (find_field r id)) [
  | inl (f, e) ↦ rw e (ground (arith, list_reports-is_empty r allowed path (index + 1) ids))
  | inr e ↦ rw e refl
]

reference_reports-is_empty :
    (r : Resource) (path : Text) (index : ℕ) (ids : List StableId)
    → is_empty (reference_reports r path index ids) ≡ all (has_field r) ids
unfolding reference_reports
reference_reports-is_empty r path index [] = refl
reference_reports-is_empty r path index (id ∷ ids) =
    ground (arith, reference_reports-is_empty r path (index + 1) ids)

filter_reports-is_empty :
    (r : Resource) (path : Text) (index : ℕ) (ids : List StableId)
    → is_empty (filter_reports r path index ids) ≡ all (is_valid_filter r) ids
unfolding filter_reports
filter_reports-is_empty r path index [] = refl
filter_reports-is_empty r path index (id ∷ ids) =
    ground (arith, filter_reports-is_empty r path (index + 1) ids)

pub config_reports-is_empty :
    (p : Page) (path : Text) → is_empty (config_reports p path) ≡ has_own_config p
unfolding config_reports
config_reports-is_empty p path = ground arith

pub validate_behavior-is_empty :
    (r : Resource) (path : Text) → is_empty (validate_behavior r path) ≡ is_valid_behavior r
unfolding validate_behavior
validate_behavior-is_empty r path = simp (is_empty-append, list_reports-is_empty)

table_reports-is_empty :
    (r : Resource) (id : StableId) (path : Text) (t : Option TableConfig)
    → is_empty (table_reports r id path t) ≡ if_some (is_valid_table r) t
table_reports-is_empty r id path none = refl
table_reports-is_empty r id path (some t) = ground (
  arith,
  is_empty-append (reference_reports r (path ++ codes ".table.columns") 0 t.columns) (
      report_if (is_negative t.page_size) invalid_page (path ++ codes ".table.page_size") id
      ++ report_if (t.search && is_empty r.behavior.searchable_fields) invalid_query_capability
          (path ++ codes ".table.search") id
      ++ filter_reports r (path ++ codes ".table.filters") 0 t.filters),
  reference_reports-is_empty r (path ++ codes ".table.columns") 0 t.columns,
  filter_reports-is_empty r (path ++ codes ".table.filters") 0 t.filters,
)

form_reports-is_empty :
    (r : Resource) (id : StableId) (path : Text) (t : Option FormConfig)
    → is_empty (form_reports r id path t) ≡ if_some (is_valid_form r) t
form_reports-is_empty r id path none = refl
form_reports-is_empty r id path (some f) = ground (
  arith,
  is_empty-append (reference_reports r (path ++ codes ".form.fields") 0 f.fields) (
      report_if (not (contains f.layout form_layouts)) invalid_page (path ++ codes ".form.layout")
        id),
  reference_reports-is_empty r (path ++ codes ".form.fields") 0 f.fields,
)

resource_page_reports-is_empty :
    (p : Page) (path : Text) (o : Option Resource)
    → is_empty (resource_page_reports p path o)
      ≡ on_some
          (λ (r : Resource). if_some (is_valid_table r) p.table && if_some (is_valid_form r) p.form)
          o
resource_page_reports-is_empty p path none = refl
resource_page_reports-is_empty p path (some r) =
    is_empty-append (table_reports r p.id path p.table) (form_reports r p.id path p.form) ∙ (λ i.
      table_reports-is_empty r p.id path p.table i && form_reports-is_empty r p.id path p.form i)

pub validate_resource_page-is_empty :
    (s : ProjectSpec) (p : Page) (path : Text)
    → is_empty (validate_resource_page s p path) ≡ is_valid_resource_page s p
unfolding validate_resource_page
validate_resource_page-is_empty s p path =
    ground (arith, resource_page_reports-is_empty p path (find_resource s p.resource))

order_reports-is_empty :
    (path : Text) (card : DashboardCard) (o : Option Resource)
    → (is_some o && is_empty (card_order_reports false [] path card o))
      ≡ on_some (is_valid_order card) o
order_reports-is_empty path card none = refl
order_reports-is_empty path card (some r) = elim (Option-cases (find_field r card.order_by)) [
  | inl (f, e) ↦ ground arith
  | inr e ↦ ground arith
]

count_cards-is_empty :
    (s : ProjectSpec) (page : StableId) (path : Text) (index : ℕ) (cards : List DashboardCard)
    → is_empty (card_reports s true page path index cards) ≡ all (is_valid_count s) cards
unfolding card_reports
count_cards-is_empty s page path index [] = refl
count_cards-is_empty s page path index (card ∷ cards) =
    ground (arith, count_cards-is_empty s page path (index + 1) cards)

recent_lists-is_empty :
    (s : ProjectSpec) (page : StableId) (path : Text) (index : ℕ) (cards : List DashboardCard)
    → is_empty (card_reports s false page path index cards) ≡ all (is_valid_recent s) cards
unfolding card_reports
recent_lists-is_empty s page path index [] = refl
recent_lists-is_empty s page path index (card ∷ cards) = ground (
  arith,
  is_empty-append
      (report_if (is_blank card.label) missing_label (at_index path index ++ codes ".label") page
        ++ card_order_reports false page (at_index path index) card (find_resource s card.resource))
      (card_reports s false page path (index + 1) cards),
  order_reports-is_empty (at_index path index) card (find_resource s card.resource),
  recent_lists-is_empty s page path (index + 1) cards,
)

aggregates-is_empty :
    (s : ProjectSpec) (page : StableId) (path : Text) (index : ℕ) (cards : List AggregateCard)
    → is_empty (aggregates_reports s page path index cards) ≡ all (is_valid_aggregate s) cards
unfolding aggregates_reports
aggregates-is_empty s page path index [] = refl
aggregates-is_empty s page path index (card ∷ cards) =
    elim (Option-cases (find_resource s card.resource)) [
      | inl (r, e) ↦ rw e (ground (arith, aggregates-is_empty s page path (index + 1) cards))
      | inr e ↦ rw e (ground arith)
    ]

dashboard_reports-is_empty :
    (s : ProjectSpec) (page : StableId) (path : Text) (d : Option DashboardConfig)
    → is_empty (dashboard_reports s page path d) ≡ if_some (is_valid_dashboard s) d
dashboard_reports-is_empty s page path none = refl
dashboard_reports-is_empty s page path (some d) =
    simp (is_empty-append, count_cards-is_empty, recent_lists-is_empty, aggregates-is_empty)

pub validate_dashboard_page-is_empty :
    (s : ProjectSpec) (p : Page) (path : Text)
    → is_empty (validate_dashboard_page s p path)
      ≡ (p.resource == [] && if_some (is_valid_dashboard s) p.dashboard)
unfolding validate_dashboard_page
validate_dashboard_page-is_empty s p path =
    ground (arith, dashboard_reports-is_empty s p.id path p.dashboard)

pub target_reports-is_empty :
    (s : ProjectSpec) (path : Text) (item : NavItem) (t : NavTarget)
    → is_empty (target_reports s path item t) ≡ is_valid_target s item t
unfolding target_reports
target_reports-is_empty s path item page_target = elim (Option-cases (find_page s item.page)) [
  | inl (p, e) ↦ rw e (ground arith)
  | inr e ↦ rw e (ground arith)
]
target_reports-is_empty s path item external_target = ground arith
target_reports-is_empty s path item (other_target t) = refl

pub validate_branding-is_empty :
    (b : Option Branding) → is_empty (validate_branding b) ≡ if_some is_valid_branding b
unfolding validate_branding
validate_branding-is_empty none = refl
validate_branding-is_empty (some b) = ground arith
