-- ===== src/Examples/Graphs.antt =====
-- A valid spec of two resources, the second of which belongs to the first, and versions.
use mathlib.Core.Option
use gombit_forge.Prelude.{
  ℕ, is_some, ◌≡◌, refl, ◌∙◌, true, false, Option, none, some, value_or, List, [], ◌∷◌, ◌↔◌, codes,
  text_eq, text_beq, keep, arith,
}
use gombit_forge.Prelude.Assoc.{lookup, put}
use gombit_forge.Names.{
  is_slug, is_exported_go_ident, is_go_keyword, is_storage_name, is_reserved_code_name,
  generated_model_field_name, is_reserved_storage_name,
}
use gombit_forge.Prelude.Int.{pos}
use gombit_forge.Prelude.Result.{Result, ok, err}
use gombit_forge.Validate.Fields.{is_empty}
use gombit_forge.Validate.Whole.{validate}
use gombit_forge.Validate.Accepts.Spec.{validate-is_valid_spec}
use gombit_forge.Validate.Accepts.Valid.{is_valid_spec, entries}
use gombit_forge.StableId.{StableId, is_valid}
use gombit_forge.ProjectSpec.{
  ProjectSpec, Resource as ResourceSpec, Field as FieldSpec, string, belongs_to, DatabaseDriver,
  AuthMode, is_belongs_to, find_resource_in, find_resource,
}
use gombit_forge.Deletion.{blocked_deletions, analyze_deletions}
use gombit_forge.Deletion.Validated.{blocked_deletions-validate}
use gombit_forge.Graph.{Graph, Resource, Field, Relationship, get_elem?}
use gombit_forge.Graph.Build.{
  BuildError, build, build_stages, new_graph, new_resource, build_resources, link_resources,
  link_fields, link_field, build_pages, build_navigation,
}
use gombit_forge.Graph.Views.{resolve_all, with_behavior}
use gombit_forge.Graph.Links.{specs, edges, leaves, arrives}
use gombit_forge.Graph.Stages.{is_ok}
use gombit_forge.Graph.Built.{
  build-valid, build-validate, belongs_to-has_many, field-relationship, resource-find_resource,
}
use gombit_forge.Version.{Version, version_string, parse_version, at_least, minimum_version}
use gombit_forge.Version.Printed.{parse_version-version_string}
use gombit_forge.Version.Ordered.{IsAtLeast, at_least-IsAtLeast}

abbrev customer_id : StableId
customer_id = codes "res_0123456789ABCDEFGHJKMNPQRS"

abbrev name_field : FieldSpec
name_field = record {
  id = codes "fld_0123456789ABCDEFGHJKMNPQRT";
  label = codes "Name";
  type = string;
  code_name = codes "Name";
  storage_name = codes "name";
  required = true;
  unique = false;
  index = false;
  default = none;
  enum_values = [];
  target = [];
  inverse_label = [];
}

abbrev customer_field : FieldSpec
customer_field = record name_field {
  id = codes "fld_0123456789ABCDEFGHJKMNPQRV";
  label = codes "Customer";
  type = belongs_to;
  code_name = codes "Customer";
  storage_name = codes "customer_id";
  target = customer_id;
}

abbrev customer : ResourceSpec
customer = record {
  id = customer_id;
  label = codes "Customer";
  label_plural = codes "Customers";
  code_name = codes "Customer";
  storage_name = codes "customers";
  fields = some name_field ∷ [];
  behavior = record {
    create_enabled = true;
    update_enabled = true;
    delete_enabled = true;
    admin_visible = true;
    list_fields = [];
    searchable_fields = [];
    sortable_fields = [];
    filterable_fields = [];
    aggregatable_fields = [];
  };
  hooks = [];
}

abbrev order : ResourceSpec
order = record customer {
  id = codes "res_0123456789ABCDEFGHJKMNPQRW";
  label = codes "Order";
  code_name = codes "Order";
  storage_name = codes "orders";
  fields = some customer_field ∷ [];
}

abbrev shop_of : List (Option ResourceSpec) → ProjectSpec
shop_of resources = record {
  spec_version = pos 1;
  project = record {
    id = codes "prj_0123456789ABCDEFGHJKMNPQRX";
    name = codes "shop";
    slug = codes "shop";
    label = codes "Shop";
  };
  database = DatabaseDriver.postgres;
  auth = AuthMode.cookie;
  resources = resources;
  pages = [];
  navigation = [];
  branding = none;
}

abbrev pub shop : ProjectSpec
shop = shop_of (some customer ∷ some order ∷ [])

abbrev small_shop : ProjectSpec
small_shop = shop_of (some customer ∷ [])

validate-is_valid_spec_example : is_empty (validate (some shop)) ≡ is_valid_spec shop
validate-is_valid_spec_example = validate-is_valid_spec shop

small_shop-is_valid : is_valid_spec small_shop ≡ true
unfolding is_slug text_beq is_exported_go_ident is_go_keyword is_storage_name is_reserved_code_name
    lookup generated_model_field_name is_reserved_storage_name is_valid
small_shop-is_valid = refl

shop-is_valid : is_valid_spec shop ≡ true
unfolding is_slug text_beq is_exported_go_ident is_go_keyword is_storage_name is_reserved_code_name
    lookup generated_model_field_name is_reserved_storage_name is_valid find_resource_in
shop-is_valid = refl

small_shop-validate : is_empty (validate (some small_shop)) ≡ true
small_shop-validate = validate-is_valid_spec small_shop ∙ small_shop-is_valid

shop-validate : is_empty (validate (some shop)) ≡ true
shop-validate = validate-is_valid_spec shop ∙ shop-is_valid

blocked_deletions-validate_example :
    blocked_deletions (analyze_deletions (λ t. t) (some shop) (some small_shop)) ≡ []
unfolding text_beq
blocked_deletions-validate_example =
    blocked_deletions-validate (λ t. t) shop small_shop small_shop-validate refl

build-validate_example : is_ok (build (some shop)) ≡ is_empty (validate (some shop))
build-validate_example = build-validate shop

abbrev graph_of : Result BuildError Graph → Graph
graph_of (ok g) = g
graph_of (err e) = new_graph shop

shop_graph : Graph
shop_graph = graph_of (build_stages shop)

shop_built : build (some shop) ≡ ok shop_graph
unfolding shop_graph build_stages build_resources link_resources link_fields link_field lookup put
    text_beq build_pages build_navigation resolve_all with_behavior
shop_built = build-valid shop shop-validate ∙ refl

abbrev customer_node : Resource
customer_node = value_or (new_resource customer) (get_elem? shop_graph.resources 0)

customer_at : get_elem? shop_graph.resources 0 ≡ some customer_node
unfolding shop_graph build_stages build_resources link_resources link_fields link_field lookup put
    text_beq build_pages build_navigation resolve_all with_behavior
customer_at = refl

abbrev order_node : Resource
order_node = value_or (new_resource order) (get_elem? shop_graph.resources 1)

order_at : get_elem? shop_graph.resources 1 ≡ some order_node
unfolding shop_graph build_stages build_resources link_resources link_fields link_field lookup put
    text_beq build_pages build_navigation resolve_all with_behavior
order_at = refl

abbrev no_field : Field
no_field = record { spec = name_field; owner = 0; relationship = none }

abbrev customer_link : Field
customer_link = value_or no_field (get_elem? order_node.fields 0)

customer_link_at : get_elem? order_node.fields 0 ≡ some customer_link
unfolding shop_graph build_stages build_resources link_resources link_fields link_field lookup put
    text_beq build_pages build_navigation resolve_all with_behavior
customer_link_at = refl

customer_link_links : is_belongs_to customer_link.spec.type ≡ true
unfolding shop_graph build_stages build_resources link_resources link_fields link_field lookup put
    text_beq build_pages build_navigation resolve_all with_behavior
customer_link_links = refl

field-relationship_example :
    (e : Relationship) × (customer_link.relationship ≡ some e)
    × (lookup customer_link.spec.target shop_graph.by_resource_id ≡ some e.to)
field-relationship_example =
    field-relationship shop shop_graph 1 0 order_node customer_link shop_built order_at
      customer_link_at customer_link_links

belongs_to-has_many_example :
    (customer_node.belongs_to ≡ keep (leaves 0) (edges shop_graph))
    × (customer_node.has_many ≡ keep (arrives 0) (edges shop_graph))
belongs_to-has_many_example =
    belongs_to-has_many shop shop_graph 0 customer_node shop_built customer_at

parse_version-version_string_example :
    parse_version (version_string minimum_version) ≡ ok minimum_version
parse_version-version_string_example =
    parse_version-version_string minimum_version (omega arith) (omega arith) (omega arith)

abbrev next_version : Version
next_version = record { major = 0; minor = 2; patch = 0 }

at_least-IsAtLeast_example :
    (at_least next_version minimum_version ≡ true) ↔ IsAtLeast next_version minimum_version
at_least-IsAtLeast_example = at_least-IsAtLeast next_version minimum_version

resource-find_resource_example :
    (specs shop_graph.resources ≡ entries shop.resources)
    × (is_some (lookup customer_id shop_graph.by_resource_id)
        ≡ is_some (find_resource shop customer_id))
    × ((k : ℕ)
        → lookup customer_id shop_graph.by_resource_id ≡ some k
        → Option.map (λ (r : ResourceSpec). r.id) (get_elem? (specs shop_graph.resources) k)
          ≡ some customer_id)
resource-find_resource_example = resource-find_resource shop shop_graph customer_id shop_built
