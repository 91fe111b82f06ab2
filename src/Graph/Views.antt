-- ===== src/Graph/Views.antt =====
-- `resolveBehavior` of internal/compiler/graph/graph.go, and the view that each type of page gets.
use gombit_forge.Prelude.{
  ℕ, ◌+◌, Bool, true, Option, none, some, List, [], ◌∷◌, if◌then◌else◌, ◌==◌, text_eq,
}
use gombit_forge.Prelude.Assoc.{lookup}
use gombit_forge.StableId.{StableId}
use gombit_forge.ProjectSpec.{
  Page as PageSpec, PageType, TableConfig, FormConfig, DashboardConfig, DashboardCard,
  AggregateCard as AggregateCardSpec, resource_table, resource_form, resource_detail,
  dashboard_page, other_page, is_scalar,
}
use gombit_forge.Validate.Fields.{is_empty}
use gombit_forge.Graph.{FieldRef, Field, Resource, Card, AggregateCard, Page, Graph, get_elem?}

-- `resolveFields`
unfoldable pub resolve_fields : Resource → List StableId → List FieldRef
resolve_fields r [] = []
resolve_fields r (id ∷ ids) = elim (lookup id r.by_field_id) [
  | none ↦ resolve_fields r ids
  | some f ↦ f ∷ resolve_fields r ids
]

unfoldable pub with_behavior : Resource → Resource
unfolding resolve_fields
with_behavior r = record r {
  behavior = record {
    spec = some r.spec.behavior;
    list = resolve_fields r r.spec.behavior.list_fields;
    searchable = resolve_fields r r.spec.behavior.searchable_fields;
    sortable = resolve_fields r r.spec.behavior.sortable_fields;
    filterable = resolve_fields r r.spec.behavior.filterable_fields;
    aggregatable = resolve_fields r r.spec.behavior.aggregatable_fields;
  };
}

unfoldable pub resolve_all : List Resource → List Resource
resolve_all [] = []
resolve_all (r ∷ rs) = with_behavior r ∷ resolve_all rs

-- `resolveBehavior`
abbrev pub resolve_behavior : Graph → Graph
resolve_behavior g = record g { resources = resolve_all g.resources }

-- The pointers to the fields that a test picks, from a position on.
unfoldable pub picked_fields : (Field → Bool) → ℕ → List Field → List FieldRef
picked_fields picks index [] = []
picked_fields picks index (f ∷ fs) =
    let rest = picked_fields picks (index + 1) fs in
    if picks f then record { owner = f.owner; index = index } ∷ rest else rest

-- `ScalarFields`
abbrev pub scalar_fields : Resource → List FieldRef
scalar_fields r = picked_fields (λ f. is_scalar f.spec.type) 0 r.fields

-- `r.Fields`, as pointers
abbrev pub all_fields : Resource → List FieldRef
all_fields r = picked_fields (λ f. true) 0 r.fields

abbrev pub default_columns : Resource → List FieldRef
default_columns r = if is_empty r.behavior.list then scalar_fields r else r.behavior.list

-- `tableColumns`
abbrev pub table_columns : Resource → Option TableConfig → List FieldRef
table_columns r none = default_columns r
table_columns r (some t) =
    if is_empty t.columns then default_columns r else resolve_fields r t.columns

-- `tableFilters`
abbrev pub table_filters : Resource → Option TableConfig → List FieldRef
table_filters r none = []
table_filters r (some t) = resolve_fields r t.filters

-- `formFields`
abbrev pub form_fields_of : Resource → Option FormConfig → List FieldRef
form_fields_of r none = all_fields r
form_fields_of r (some f) = if is_empty f.fields then all_fields r else resolve_fields r f.fields

-- What a pointer to a resource leads to; nil leads nowhere.
abbrev pub resource_at : Graph → Option ℕ → Option Resource
resource_at g none = none
resource_at g (some k) = get_elem? g.resources k

abbrev pub field_of : Option Resource → StableId → Option FieldRef
field_of none id = none
field_of (some r) id = lookup id r.by_field_id

-- The loop of `resolveCards`.
unfoldable pub resolve_cards : Graph → List DashboardCard → List Card
resolve_cards g [] = []
resolve_cards g (card ∷ rest) =
    let resource = lookup card.resource g.by_resource_id in
    record {
      spec = card;
      resource = resource;
      order_by =
          if card.order_by == [] then none else field_of (resource_at g resource) card.order_by;
    }
    ∷ resolve_cards g rest

-- The loop of `resolveAggregateCards`.
unfoldable pub resolve_aggregate_cards : Graph → List AggregateCardSpec → List AggregateCard
resolve_aggregate_cards g [] = []
resolve_aggregate_cards g (card ∷ rest) =
    let resource = lookup card.resource g.by_resource_id in
    record {
      spec = card;
      resource = resource;
      field = field_of (resource_at g resource) card.field;
    }
    ∷ resolve_aggregate_cards g rest

abbrev pub new_page : Graph → PageSpec → Page
new_page g p = record {
  spec = p;
  resource = if p.resource == [] then none else lookup p.resource g.by_resource_id;
  columns = [];
  filters = [];
  form_fields = [];
  count_cards = [];
  recent_lists = [];
  aggregate_cards = [];
}

abbrev pub with_table : Option Resource → Page → Page
with_table none page = page
with_table (some r) page = record page {
  columns = table_columns r page.spec.table;
  filters = table_filters r page.spec.table;
}

abbrev pub with_form : Option Resource → Page → Page
with_form none page = page
with_form (some r) page = record page { form_fields = form_fields_of r page.spec.form }

abbrev pub with_dashboard : Graph → Option DashboardConfig → Page → Page
with_dashboard g none page = page
with_dashboard g (some d) page = record page {
  count_cards = resolve_cards g d.count_cards;
  recent_lists = resolve_cards g d.recent_lists;
  aggregate_cards = resolve_aggregate_cards g d.aggregate_cards;
}

-- The `switch` on the type of the page.
unfoldable pub with_view : Graph → PageType → Page → Page
unfolding resolve_fields picked_fields resolve_cards resolve_aggregate_cards
with_view g resource_table page = with_table (resource_at g page.resource) page
with_view g resource_form page = with_form (resource_at g page.resource) page
with_view g dashboard_page page = with_dashboard g page.spec.dashboard page
with_view g resource_detail page = page
with_view g (other_page t) page = page
