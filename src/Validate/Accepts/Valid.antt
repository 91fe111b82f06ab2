-- ===== src/Validate/Accepts/Valid.antt =====
-- What a valid spec is, told without the walk: tests on the entities, names that occur once, and the
-- claims of all IDs in authored order.
use gombit_forge.Prelude.{
  Bool, true, false, not, ◌&&◌, ◌||◌, Option, none, some, List, [], ◌∷◌, ◌++◌, map, all, contains,
  if◌then◌else◌, is_some, ◌==◌, text_eq, Text,
}
use gombit_forge.Prelude.Int.{is_negative}
use gombit_forge.Prelude.Space.{is_blank}
use gombit_forge.Names.{is_exported_go_ident, is_storage_name, is_slug}
use gombit_forge.StableId.{
  StableId, Kind, kind_project, kind_resource, kind_field, kind_hook, kind_page, kind_nav,
}
use gombit_forge.ProjectSpec.{
  ProjectSpec, Resource, Field, FieldType, EnumValue, Hook, Page, PageType, TableConfig, FormConfig,
  DashboardConfig, DashboardCard, AggregateCard, NavItem, NavTarget, Branding, enum, belongs_to,
  resource_table, resource_form, resource_detail, dashboard_page, other_page, page_target,
  external_target, other_target, is_valid_type, is_valid_event, is_valid_op, find_resource,
  find_field, find_page,
}
use gombit_forge.Validate.Defaults.{is_valid_default}
use gombit_forge.Validate.Fields.{
  is_empty, generated, is_good_code, is_good_storage, is_reserved_key,
}
use gombit_forge.Validate.Resources.{
  event_text, is_any_type, is_searchable_type, is_filterable_type, is_aggregatable_type,
}
use gombit_forge.Validate.Pages.{
  is_table_type, is_form_type, is_dashboard_type, has_field, form_layouts, is_temporal, claims_form,
  claims_detail,
}
use gombit_forge.Validate.Navigation.{
  is_web_url, is_destination, is_hex_color, appearances, is_known_driver, is_known_mode,
}
use gombit_forge.Validate.Whole.{is_supported}
use gombit_forge.Validate.Accepts.{Claim, is_distinct, is_fresh}

-- The entries that are not nil.
abbrev pub entries {ℓ} : {A : Type ℓ} → List (Option A) → List A
entries [] = []
entries (none ∷ rest) = entries rest
entries (some a ∷ rest) = a ∷ entries rest

abbrev pub on_some {ℓ} : {A : Type ℓ} → (A → Bool) → Option A → Bool
on_some p none = false
on_some p (some a) = p a

-- A test of an optional value that none passes.
abbrev pub if_some {ℓ} : {A : Type ℓ} → (A → Bool) → Option A → Bool
if_some p none = true
if_some p (some a) = p a

abbrev pub has_valid_target : ProjectSpec → Field → Bool
has_valid_target s f = elim f.type [
  | enum ↦
      not (is_empty f.enum_values)
      && (all (λ (v : EnumValue). not (is_blank v.value)) f.enum_values
          && is_distinct (map (λ (v : EnumValue). v.value) f.enum_values))
  | belongs_to ↦ not (f.target == []) && is_some (find_resource s f.target)
  | _ ↦ is_empty f.enum_values && f.target == []
]

abbrev pub is_valid_field : ProjectSpec → Field → Bool
is_valid_field s f =
    not (is_blank f.label)
    && is_valid_type f.type
    && (is_good_code f && not (is_reserved_key f))
    && is_good_storage f
    && has_valid_target s f
    && if_some (is_valid_default f.type f.enum_values) f.default

abbrev pub code_names : List (Option Field) → List Text
code_names fs = map (λ (f : Field). f.code_name) (entries fs)

abbrev pub generated_names : List (Option Field) → List Text
generated_names fs = map generated (entries fs)

abbrev pub storage_names : List (Option Field) → List Text
storage_names fs = map (λ (f : Field). f.storage_name) (entries fs)

abbrev pub are_valid_fields : ProjectSpec → List (Option Field) → Bool
are_valid_fields s fs =
    all (on_some (is_valid_field s)) fs
    && is_distinct (code_names fs)
    && is_distinct (generated_names fs)
    && is_distinct (storage_names fs)

abbrev pub refers_to : Resource → (FieldType → Bool) → StableId → Bool
refers_to r allowed id = on_some (λ (f : Field). allowed f.type) (find_field r id)

abbrev pub is_valid_behavior : Resource → Bool
is_valid_behavior r =
    all (refers_to r is_any_type) r.behavior.list_fields
    && all (refers_to r is_searchable_type) r.behavior.searchable_fields
    && all (refers_to r is_any_type) r.behavior.sortable_fields
    && all (refers_to r is_filterable_type) r.behavior.filterable_fields
    && all (refers_to r is_aggregatable_type) r.behavior.aggregatable_fields

abbrev pub event_names : List (Option Hook) → List Text
event_names hs = map (λ (h : Hook). event_text h.event) (entries hs)

abbrev pub are_valid_hooks : List (Option Hook) → Bool
are_valid_hooks hs =
    all (on_some (λ (h : Hook). is_valid_event h.event)) hs && is_distinct (event_names hs)

abbrev pub is_valid_resource : ProjectSpec → Resource → Bool
is_valid_resource s r =
    (not (is_blank r.label) && is_exported_go_ident r.code_name && is_storage_name r.storage_name)
    && are_valid_fields s r.fields
    && is_valid_behavior r
    && are_valid_hooks r.hooks

abbrev pub resource_code_names : List (Option Resource) → List Text
resource_code_names rs = map (λ (r : Resource). r.code_name) (entries rs)

abbrev pub resource_storage_names : List (Option Resource) → List Text
resource_storage_names rs = map (λ (r : Resource). r.storage_name) (entries rs)

abbrev pub are_valid_resources : ProjectSpec → Bool
are_valid_resources s =
    all (on_some (is_valid_resource s)) s.resources
    && is_distinct (resource_code_names s.resources)
    && is_distinct (resource_storage_names s.resources)

-- A page carries no block but that of its type.
abbrev pub has_own_config : Page → Bool
has_own_config p =
    (not (is_some p.table) || is_table_type p.type)
    && (not (is_some p.form) || is_form_type p.type)
    && (not (is_some p.dashboard) || is_dashboard_type p.type)

abbrev pub is_valid_filter : Resource → StableId → Bool
is_valid_filter r id = has_field r id && contains id r.behavior.filterable_fields

abbrev pub is_valid_table : Resource → TableConfig → Bool
is_valid_table r t =
    all (has_field r) t.columns
    && not (is_negative t.page_size)
    && (not t.search || not (is_empty r.behavior.searchable_fields))
    && all (is_valid_filter r) t.filters

abbrev pub is_valid_form : Resource → FormConfig → Bool
is_valid_form r f = all (has_field r) f.fields && contains f.layout form_layouts

-- The blocks of a page fit its resource.
abbrev pub is_fitting : Page → Resource → Bool
is_fitting p r = if_some (is_valid_table r) p.table && if_some (is_valid_form r) p.form

abbrev pub is_valid_resource_page : ProjectSpec → Page → Bool
is_valid_resource_page s p =
    not (p.resource == []) && on_some (is_fitting p) (find_resource s p.resource)

abbrev pub is_valid_count : ProjectSpec → DashboardCard → Bool
is_valid_count s card =
    is_some (find_resource s card.resource) && not (is_blank card.label) && card.order_by == []

-- The field that a recent list is ordered by, if it is set.
abbrev pub is_valid_order : DashboardCard → Resource → Bool
is_valid_order card r =
    card.order_by == []
    || (contains card.order_by r.behavior.sortable_fields
        && on_some (λ (f : Field). is_temporal f.type) (find_field r card.order_by))

abbrev pub is_valid_recent : ProjectSpec → DashboardCard → Bool
is_valid_recent s card =
    not (is_blank card.label) && on_some (is_valid_order card) (find_resource s card.resource)

-- The field that an aggregate reduces.
abbrev pub is_valid_reduction : AggregateCard → Resource → Bool
is_valid_reduction card r =
    has_field r card.field && contains card.field r.behavior.aggregatable_fields

abbrev pub is_valid_aggregate : ProjectSpec → AggregateCard → Bool
is_valid_aggregate s card =
    not (is_blank card.label)
    && is_valid_op card.op
    && on_some (is_valid_reduction card) (find_resource s card.resource)

abbrev pub is_valid_dashboard : ProjectSpec → DashboardConfig → Bool
is_valid_dashboard s d =
    all (is_valid_count s) d.count_cards
    && all (is_valid_recent s) d.recent_lists
    && all (is_valid_aggregate s) d.aggregate_cards

abbrev pub is_valid_of_type : ProjectSpec → Page → PageType → Bool
is_valid_of_type s p resource_table = has_own_config p && is_valid_resource_page s p
is_valid_of_type s p resource_form = has_own_config p && is_valid_resource_page s p
is_valid_of_type s p resource_detail = has_own_config p && is_valid_resource_page s p
is_valid_of_type s p dashboard_page =
    has_own_config p && p.resource == [] && if_some (is_valid_dashboard s) p.dashboard
is_valid_of_type s p (other_page t) = false

abbrev pub is_valid_page : ProjectSpec → Page → Bool
is_valid_page s p = (not (is_blank p.label) && is_slug p.slug) && is_valid_of_type s p p.type

-- The resources of the pages that a test picks.
abbrev pub resources_of : (Page → Bool) → List Page → List StableId
resources_of picks [] = []
resources_of picks (p ∷ ps) =
    let rest = resources_of picks ps in if picks p then p.resource ∷ rest else rest

abbrev pub slugs : List (Option Page) → List Text
slugs ps = map (λ (p : Page). p.slug) (entries ps)

-- Slugs are distinct, and a resource has one form page and one detail page at most.
abbrev pub are_valid_pages : ProjectSpec → Bool
are_valid_pages s =
    all (on_some (is_valid_page s)) s.pages
    && is_distinct (slugs s.pages)
    && is_distinct (resources_of claims_form (entries s.pages))
    && is_distinct (resources_of claims_detail (entries s.pages))

abbrev pub is_valid_target : ProjectSpec → NavItem → NavTarget → Bool
is_valid_target s item page_target =
    item.url == [] && not (item.page == []) && is_destination (find_page s item.page)
is_valid_target s item external_target = item.page == [] && is_web_url item.url
is_valid_target s item (other_target t) = false

abbrev pub is_valid_item : ProjectSpec → NavItem → Bool
is_valid_item s item = not (is_blank item.label) && is_valid_target s item item.target

abbrev pub is_valid_branding : Branding → Bool
is_valid_branding b =
    (b.accent_color == [] || is_hex_color b.accent_color) && contains b.appearance appearances

abbrev pub is_valid_project : ProjectSpec → Bool
is_valid_project s =
    not (is_blank s.project.name)
    && is_slug s.project.slug
    && is_known_driver s.database
    && is_known_mode s.auth

abbrev claim : Kind → StableId → Claim
claim kind id = record { id = id; kind = kind }

abbrev pub field_claims : List (Option Field) → List Claim
field_claims [] = []
field_claims (none ∷ rest) = field_claims rest
field_claims (some f ∷ rest) = record { id = f.id; kind = kind_field } ∷ field_claims rest

abbrev pub hook_claims : List (Option Hook) → List Claim
hook_claims [] = []
hook_claims (none ∷ rest) = hook_claims rest
hook_claims (some h ∷ rest) = record { id = h.id; kind = kind_hook } ∷ hook_claims rest

abbrev pub resource_claims : List (Option Resource) → List Claim
resource_claims [] = []
resource_claims (none ∷ rest) = resource_claims rest
resource_claims (some r ∷ rest) =
    record { id = r.id; kind = kind_resource }
    ∷ (field_claims r.fields ++ (hook_claims r.hooks ++ resource_claims rest))

abbrev pub page_claims : List (Option Page) → List Claim
page_claims [] = []
page_claims (none ∷ rest) = page_claims rest
page_claims (some p ∷ rest) = record { id = p.id; kind = kind_page } ∷ page_claims rest

abbrev pub nav_claims : List (Option NavItem) → List Claim
nav_claims [] = []
nav_claims (none ∷ rest) = nav_claims rest
nav_claims (some item ∷ rest) = record { id = item.id; kind = kind_nav } ∷ nav_claims rest

abbrev pub all_claims : ProjectSpec → List Claim
all_claims s =
    record { id = s.project.id; kind = kind_project }
    ∷ (resource_claims s.resources ++ (page_claims s.pages ++ (nav_claims s.navigation ++ [])))

-- The spec is valid.
abbrev pub is_valid_spec : ProjectSpec → Bool
is_valid_spec s =
    (is_supported s.spec_version
      && (is_valid_project s
          && (are_valid_resources s
              && (are_valid_pages s
                  && (all (on_some (is_valid_item s)) s.navigation
                      && if_some is_valid_branding s.branding)))))
    && is_fresh (all_claims s) []
