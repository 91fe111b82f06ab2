-- ===== src/Graph/Stages.antt =====
-- The stages of `Build` of internal/compiler/graph/graph.go on a valid spec, each by itself.
use gombit_forge.Prelude.{
  some-injective, ◌≡◌, refl, sym, ap, ◌∙◌, ℕ, zero, suc, Bool, true, false, Option, none, some,
  List, [], ◌∷◌, map, all, keep, is_some, text_eq, arith,
}
use mathlib.Core.Option
use gombit_forge.Prelude.Assoc.{Assoc, lookup}
use gombit_forge.Prelude.Result.{Result, ok, err}
use gombit_forge.StableId.{StableId}
use gombit_forge.ProjectSpec.{
  ProjectSpec, Resource as ResourceSpec, Field as FieldSpec, Page as PageSpec, NavItem, FieldType,
  belongs_to, find_resource,
}
use gombit_forge.Validate.Fields.{is_empty}
use gombit_forge.Validate.Accepts.Valid.{
  on_some, entries, is_valid_field, is_valid_resource, is_valid_page, is_valid_item,
  has_valid_target,
}
use gombit_forge.Graph.{Relationship, Resource, Graph, get_elem?}
use gombit_forge.Graph.Build.{add_page, build_pages, add_entry, build_navigation}
use gombit_forge.Graph.Views.{with_behavior, resolve_all}
use gombit_forge.Graph.Links.{
  shape, field_specs, is_linked, ends_of, more_ends, leaves, arrives, specs,
}
use gombit_forge.Graph.Resources.{present, is_whole, is_bare}

abbrev pub is_ok {ℓ κ} : {E : Type ℓ} {A : Type κ} → Result E A → Bool
is_ok (ok a) = true
is_ok (err e) = false

module _ (s : ProjectSpec) where
  present_fields :
      (fs : List (Option FieldSpec))
      → all (on_some (is_valid_field s)) fs ≡ true
      → present fs ≡ true
  present_fields [] h = refl
  present_fields (none ∷ fs) h = cc
  present_fields (some f ∷ fs) h = present_fields fs (ground arith)

  pub valid-is_whole :
      (rs : List (Option ResourceSpec))
      → all (on_some (is_valid_resource s)) rs ≡ true
      → all is_whole rs ≡ true
  valid-is_whole [] h = refl
  valid-is_whole (none ∷ rs) h = cc
  valid-is_whole (some r ∷ rs) h =
      ground (arith, present_fields r.fields (ground arith), valid-is_whole rs (ground arith))

  module _ (by_id : Assoc StableId ℕ)
      (known : (id : StableId)
        → is_some (find_resource s id) ≡ true
        → is_some (lookup id by_id) ≡ true) where
    type-is_linked :
        (f : FieldSpec) (t : FieldType)
        → has_valid_target s (record f { type = t }) ≡ true
        → is_linked by_id (record f { type = t }) ≡ true
    type-is_linked f belongs_to h = known f.target (ground arith)
    type-is_linked f _ h = refl

    fields-is_linked :
        (fs : List (Option FieldSpec))
        → all (on_some (is_valid_field s)) fs ≡ true
        → all (is_linked by_id) (entries fs) ≡ true
    fields-is_linked [] h = refl
    fields-is_linked (none ∷ fs) h = cc
    fields-is_linked (some f ∷ fs) h =
        ground (arith, type-is_linked f f.type (ground arith), fields-is_linked fs (ground arith))

    pub resources-is_linked :
        (rs : List (Option ResourceSpec))
        → all (on_some (is_valid_resource s)) rs ≡ true
        → all (all (is_linked by_id)) (map (λ (r : ResourceSpec). entries r.fields) (entries rs))
          ≡ true
    resources-is_linked [] h = refl
    resources-is_linked (none ∷ rs) h = cc
    resources-is_linked (some r ∷ rs) h =
        ground
          (arith, fields-is_linked r.fields (ground arith), resources-is_linked rs (ground arith))

-- A stage that leaves the resources alone.
pub record Keeps (g g' : Graph) : Type 0 where
  pub resources_kept : g'.resources ≡ g.resources
  pub ids_kept : g'.by_resource_id ≡ g.by_resource_id

pub build_pages-Keeps :
    (s : ProjectSpec) (ps : List (Option PageSpec)) (g : Graph)
    → all (on_some (is_valid_page s)) ps ≡ true
    → (paged : Graph) × (build_pages ps g ≡ ok paged) × Keeps g paged
unfolding build_pages
build_pages-Keeps s [] g h = (g, refl, record { resources_kept = refl; ids_kept = refl })
build_pages-Keeps s (none ∷ ps) g h = cc
build_pages-Keeps s (some p ∷ ps) g h =
    let rest = build_pages-Keeps s ps (add_page p g) (ground arith) in
    (rest.0, rest.1, record { resources_kept = rest.2.resources_kept; ids_kept = rest.2.ids_kept })

pub build_navigation-Keeps :
    (s : ProjectSpec) (items : List (Option NavItem)) (g : Graph)
    → all (on_some (is_valid_item s)) items ≡ true
    → (finished : Graph) × (build_navigation items g ≡ ok finished) × Keeps g finished
unfolding build_navigation
build_navigation-Keeps s [] g h = (g, refl, record { resources_kept = refl; ids_kept = refl })
build_navigation-Keeps s (none ∷ items) g h = cc
build_navigation-Keeps s (some item ∷ items) g h =
    let rest = build_navigation-Keeps s items (add_entry item g) (ground arith) in
    (rest.0, rest.1, record { resources_kept = rest.2.resources_kept; ids_kept = rest.2.ids_kept })

pub specs-resolve_all : (rs : List Resource) → specs (resolve_all rs) ≡ specs rs
unfolding resolve_all with_behavior
specs-resolve_all [] = refl
specs-resolve_all (r ∷ rs) = λ i. r.spec ∷ specs-resolve_all rs i

pub shape-resolve_all : (rs : List Resource) → shape (resolve_all rs) ≡ shape rs
unfolding resolve_all with_behavior
shape-resolve_all [] = refl
shape-resolve_all (r ∷ rs) = λ i. field_specs r ∷ shape-resolve_all rs i

pub ends-resolve_all :
    (rs : List Resource) (k : ℕ)
    → Option.map ends_of (get_elem? (resolve_all rs) k) ≡ Option.map ends_of (get_elem? rs k)
unfolding resolve_all with_behavior
ends-resolve_all [] k = refl
ends-resolve_all (r ∷ rs) zero = refl
ends-resolve_all (r ∷ rs) (suc k) = ends-resolve_all rs k

is_empty-nil {ℓ} : {A : Type ℓ} (xs : List A) → is_empty xs ≡ true → xs ≡ []
is_empty-nil [] h = refl
is_empty-nil (x ∷ xs) h = cc

pub bare-ends :
    (rs : List Resource) (k : ℕ) (both : List Relationship × List Relationship)
    → all is_bare rs ≡ true
    → Option.map ends_of (get_elem? rs k) ≡ some both
    → both ≡ ([], [])
bare-ends [] k both h e = cc
bare-ends (r ∷ rs) zero both h e =
    let out : r.belongs_to ≡ [] = is_empty-nil r.belongs_to (ground arith) in
    let back : r.has_many ≡ [] = is_empty-nil r.has_many (ground arith) in
    sym (some-injective (ends_of r) both e) ∙ (λ i. (out i, back i))
bare-ends (r ∷ rs) (suc k) both h e = bare-ends rs k both (ground arith) e

pub ends_from_bare :
    (k : ℕ) (es : List Relationship) (o : Option (List Relationship × List Relationship))
    (both : List Relationship × List Relationship)
    → ((p : List Relationship × List Relationship) → o ≡ some p → p ≡ ([], []))
    → some both ≡ Option.map (more_ends k es) o
    → both ≡ (keep (leaves k) es, keep (arrives k) es)
ends_from_bare k es none both bare e = cc
ends_from_bare k es (some p) both bare e =
    some-injective both (more_ends k es p) e ∙ ap (more_ends k es) (bare p refl)
