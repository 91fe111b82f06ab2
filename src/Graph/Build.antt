-- ===== src/Graph/Build.antt =====
-- `Build` of internal/compiler/graph/graph.go and its stages. The pointer to a nil entry that the code
-- would follow is an error of its own here.
use gombit_forge.Prelude.{
  ℕ, ◌+◌, Bool, true, false, Option, none, some, List, [], ◌∷◌, ◌++◌, length, if◌then◌else◌,
  text_eq,
}
use gombit_forge.Prelude.Assoc.{Assoc, lookup, put}
use gombit_forge.Prelude.Result.{Result, ok, err, ◌>>=◌}
use gombit_forge.StableId.{StableId}
use gombit_forge.ProjectSpec.{
  ProjectSpec, Resource as ResourceSpec, Field as FieldSpec, Page as PageSpec, NavItem, NavTarget,
  page_target, external_target, other_target, is_belongs_to,
}
use gombit_forge.Validate.{Diagnostic}
use gombit_forge.Validate.Fields.{is_empty}
use gombit_forge.Validate.Whole.{validate}
use gombit_forge.Graph.{FieldRef, Relationship, Field, Behavior, Resource, Graph, modify}
use gombit_forge.Graph.Views.{resolve_behavior, new_page, with_view}

pub data BuildError : Type 0 where
  invalid_spec : List Diagnostic → BuildError
  unknown_target : StableId → StableId → StableId → BuildError
  nil_dereference : BuildError

abbrev no_behavior : Behavior
no_behavior = record {
  spec = none;
  list = [];
  searchable = [];
  sortable = [];
  filterable = [];
  aggregatable = [];
}

abbrev pub new_resource : ResourceSpec → Resource
new_resource r = record {
  spec = r;
  fields = [];
  belongs_to = [];
  has_many = [];
  behavior = no_behavior;
  by_field_id = [];
}

abbrev pub add_field : ℕ → FieldSpec → Resource → Resource
add_field owner f r = record r {
  fields = r.fields ++ (record { spec = f; owner = owner; relationship = none } ∷ []);
  by_field_id = put f.id (record { owner = owner; index = length r.fields }) r.by_field_id;
}

-- The loop over the fields of one resource, with the graph's map of fields.
unfoldable pub build_fields :
    ℕ
    → List (Option FieldSpec)
    → Resource
    → Assoc StableId FieldRef
    → Result BuildError (Resource × Assoc StableId FieldRef)
build_fields owner [] r by_id = ok (r, by_id)
build_fields owner (none ∷ rest) r by_id = err nil_dereference
build_fields owner (some f ∷ rest) r by_id =
    build_fields owner rest (add_field owner f r)
      (put f.id (record { owner = owner; index = length r.fields }) by_id)

abbrev pub add_resource : ResourceSpec → Graph → Resource × Assoc StableId FieldRef → Graph
add_resource r g built = record g {
  resources = g.resources ++ (built.0 ∷ []);
  by_resource_id = put r.id (length g.resources) g.by_resource_id;
  by_field_id = built.1;
}

-- `buildResources`
unfoldable pub build_resources : List (Option ResourceSpec) → Graph → Result BuildError Graph
unfolding build_fields
build_resources [] g = ok g
build_resources (none ∷ rest) g = err nil_dereference
build_resources (some r ∷ rest) g =
    build_fields (length g.resources) r.fields (new_resource r) g.by_field_id >>= λ built.
    build_resources rest (add_resource r g built)

abbrev pub with_relationship : Relationship → Field → Field
with_relationship e f = record f { relationship = some e }

abbrev pub add_belongs_to : Relationship → Resource → Resource
add_belongs_to e r = record r {
  fields = modify (with_relationship e) r.fields e.field.index;
  belongs_to = r.belongs_to ++ (e ∷ []);
}

abbrev pub add_has_many : Relationship → Resource → Resource
add_has_many e r = record r { has_many = r.has_many ++ (e ∷ []) }

-- The writes through `field`, `from` and `to`.
abbrev pub attach : Relationship → Graph → Graph
attach e g = record g {
  resources = modify (add_has_many e) (modify (add_belongs_to e) g.resources e.from) e.to;
}

abbrev pub link_to : Relationship → Option ℕ → BuildError → Graph → Result BuildError Graph
link_to e none error g = err error
link_to e (some to) error g = ok (attach (record e { to = to }) g)

-- The body of the loop of `linkRelationships`.
unfoldable pub link_field : Resource → ℕ → ℕ → Field → Graph → Result BuildError Graph
link_field r from index f g =
    if is_belongs_to f.spec.type
    then link_to (record { field = record { owner = from; index = index }; from = from; to = 0 })
        (lookup f.spec.target g.by_resource_id) (unknown_target f.spec.id r.spec.id f.spec.target) g
    else ok g

unfoldable pub link_fields : Resource → ℕ → ℕ → List Field → Graph → Result BuildError Graph
link_fields r from index [] g = ok g
link_fields r from index (f ∷ fs) g =
    link_field r from index f g >>= λ linked. link_fields r from (index + 1) fs linked

unfoldable pub link_resources : ℕ → List Resource → Graph → Result BuildError Graph
link_resources from [] g = ok g
link_resources from (r ∷ rs) g =
    link_fields r from 0 r.fields g >>= λ linked. link_resources (from + 1) rs linked

-- `linkRelationships`
abbrev pub link_relationships : Graph → Result BuildError Graph
link_relationships g = link_resources 0 g.resources g

abbrev pub add_page : PageSpec → Graph → Graph
add_page p g = record g {
  pages = g.pages ++ (with_view g p.type (new_page g p) ∷ []);
  by_page_id = put p.id (length g.pages) g.by_page_id;
}

-- `buildPages`
unfoldable pub build_pages : List (Option PageSpec) → Graph → Result BuildError Graph
build_pages [] g = ok g
build_pages (none ∷ rest) g = err nil_dereference
build_pages (some p ∷ rest) g = build_pages rest (add_page p g)

abbrev pub nav_page : Graph → NavItem → NavTarget → Option ℕ
nav_page g item page_target = lookup item.page g.by_page_id
nav_page g item external_target = none
nav_page g item (other_target t) = none

abbrev pub add_entry : NavItem → Graph → Graph
add_entry item g = record g {
  navigation = g.navigation ++ (record { spec = item; page = nav_page g item item.target } ∷ []);
}

-- `buildNavigation`
unfoldable pub build_navigation : List (Option NavItem) → Graph → Result BuildError Graph
build_navigation [] g = ok g
build_navigation (none ∷ rest) g = err nil_dereference
build_navigation (some item ∷ rest) g = build_navigation rest (add_entry item g)

abbrev pub new_graph : ProjectSpec → Graph
new_graph s = record {
  spec = s;
  resources = [];
  pages = [];
  navigation = [];
  by_resource_id = [];
  by_page_id = [];
  by_field_id = [];
}

-- The stages that follow the validation.
unfoldable pub build_stages : ProjectSpec → Result BuildError Graph
build_stages s = build_resources s.resources (new_graph s) >>= λ made.
    link_relationships made >>= λ linked.
    build_pages s.pages (resolve_behavior linked) >>= λ paged. build_navigation s.navigation paged

abbrev build_if : Bool → ProjectSpec → List Diagnostic → Result BuildError Graph
build_if true s diagnostics = build_stages s
build_if false s diagnostics = err (invalid_spec diagnostics)

-- `Build`
unfoldable pub build : Option ProjectSpec → Result BuildError Graph
build none = err (invalid_spec (validate none))
build (some s) = build_if (is_empty (validate (some s))) s (validate (some s))
