-- ===== src/Graph/Built.antt =====
-- What `Build` of internal/compiler/graph/graph.go makes of a spec.
use gombit_forge.Prelude.{
  ◌≡◌, refl, sym, ap, ◌∙◌, ℕ, zero, suc, true, ◌||◌, Option, none, some, List, [], ◌∷◌, all, keep,
  is_some, text_eq, arith, Bool-cases, inl, inr,
}
use mathlib.Core.Option
use gombit_forge.Prelude.Assoc.{lookup, lookup-nil}
use gombit_forge.Prelude.Result.{Result, ok, ◌>>=◌, ok-injective}
use gombit_forge.StableId.{StableId}
use gombit_forge.ProjectSpec.{ProjectSpec, Resource as ResourceSpec, is_belongs_to, find_resource}
use gombit_forge.Validate.Fields.{is_empty}
use gombit_forge.Validate.Whole.{validate}
use gombit_forge.Validate.Accepts.Spec.{validate-is_valid_spec}
use gombit_forge.Validate.Accepts.Valid.{entries, is_valid_spec}
use gombit_forge.Graph.{Relationship, Field, Resource, Graph, get_elem?}
use gombit_forge.Graph.Build.{
  BuildError, new_graph, build_resources, link_relationships, build_pages, build_navigation,
  build_stages, build,
}
use gombit_forge.Graph.Views.{with_behavior, resolve_all, resolve_behavior}
use gombit_forge.Graph.Links.{
  shape, is_linked, edges_from, edges, attach_all, link_resources-edges, shape-attach_all,
  attach_all-by_resource_id, ends, ends_of, leaves, arrives, ends-attach_all, specs,
  specs-attach_all,
}
use gombit_forge.Graph.Served.{field_in, field_at}
use gombit_forge.Graph.Linked.{is_resolved, leads-found, attached-is_resolved}
use gombit_forge.Graph.Resources.{Points, ResourcesMade, build_resources-ResourcesMade}
use gombit_forge.Graph.Stages.{
  valid-is_whole, resources-is_linked, Keeps, build_pages-Keeps, build_navigation-Keeps,
  specs-resolve_all, shape-resolve_all, ends-resolve_all, bare-ends, ends_from_bare, is_ok,
}

-- What a built graph holds of the spec.
record Built (s : ProjectSpec) (g : Graph) : Type 0 where
  specs_same : specs g.resources ≡ entries s.resources
  found : (id : StableId) → is_some (lookup id g.by_resource_id) ≡ is_some (find_resource s id)
  points : Points g.by_resource_id (specs g.resources)
  resolved : (k j : ℕ) → is_resolved g.by_resource_id (field_at g k j) ≡ true
  both_ends :
      (k : ℕ) (both : List Relationship × List Relationship)
      → ends k g ≡ some both
      → both ≡ (keep (leaves k) (edges g), keep (arrives k) (edges g))

Built-Keeps : (s : ProjectSpec) (g g' : Graph) → Keeps g g' → Built s g → Built s g'
Built-Keeps s g g' k b =
    let same : edges g' ≡ edges g = λ i. edges_from (k.ids_kept i) 0 (shape (k.resources_kept i)) in
    record {
      specs_same = ap specs k.resources_kept ∙ b.specs_same;
      found = λ id. ap (λ m. is_some (lookup id m)) k.ids_kept ∙ b.found id;
      points = rw (k.ids_kept, k.resources_kept) b.points;
      resolved = λ i j.
          (λ t. is_resolved (k.ids_kept t) (field_in (get_elem? (k.resources_kept t) i) j))
          ∙ b.resolved i j;
      both_ends = λ j both h. rw same (
          b.both_ends j both
            (ap (λ rs. Option.map ends_of (get_elem? rs j)) (sym k.resources_kept) ∙ h));
    }

no_points :
    (id : StableId) (k : ℕ)
    → ◌≡◌ {A = Option ℕ} none (some k)
    → ◌≡◌ {A = Option StableId} none (some id)
no_points id k h = cc

linked-Built :
    (s : ProjectSpec) (made : Graph)
    → all (all (is_linked made.by_resource_id)) (shape made.resources) ≡ true
    → ResourcesMade (new_graph s) s.resources made
    → Built s (attach_all (edges made) made)
linked-Built s made linked m =
    let es = edges made in
    let g = attach_all es made in
    let same = attach_all-by_resource_id es made in
    let same_shape : edges g ≡ es = λ i. edges_from (same i) 0 (shape-attach_all es made i) in
    record {
      specs_same = specs-attach_all es made ∙ m.specs_added;
      found = λ id.
          ap (λ m. is_some (lookup id m)) same
          ∙ m.found id
          ∙ ap (λ (o : Option ℕ). is_some o || is_some (find_resource s id)) (lookup-nil id);
      points =
          rw (same, specs-attach_all es made)
            (m.points_kept (λ id k h. no_points id k (sym (lookup-nil id) ∙ h)));
      resolved = λ k j.
          ap (λ m. is_resolved m (field_at g k j)) same ∙ attached-is_resolved made linked k j;
      both_ends = λ k both h. rw same_shape (
          ends_from_bare k es (ends k made) both
            (λ p e. bare-ends made.resources k p (m.bare_kept refl) e)
            (sym h ∙ ends-attach_all k es made));
    }

field_at-resolve_behavior :
    (g : Graph) (k j : ℕ) → field_at (resolve_behavior g) k j ≡ field_at g k j
unfolding resolve_all with_behavior
field_at-resolve_behavior g k j = in_all g.resources k
  where
    in_all :
        (rs : List Resource) (k : ℕ)
        → field_in (get_elem? (resolve_all rs) k) j ≡ field_in (get_elem? rs k) j
    in_all [] k = refl
    in_all (r ∷ rs) zero = refl
    in_all (r ∷ rs) (suc k) = in_all rs k

resolved-Built : (s : ProjectSpec) (g : Graph) → Built s g → Built s (resolve_behavior g)
resolved-Built s g b =
    let same_shape : edges (resolve_behavior g) ≡ edges g =
      λ i. edges_from g.by_resource_id 0 (shape-resolve_all g.resources i) in
    record {
      specs_same = specs-resolve_all g.resources ∙ b.specs_same;
      found = b.found;
      points = rw (specs-resolve_all g.resources) b.points;
      resolved = λ k j.
          ap (is_resolved g.by_resource_id) (field_at-resolve_behavior g k j) ∙ b.resolved k j;
      both_ends =
          λ k both h. rw same_shape (b.both_ends k both (sym (ends-resolve_all g.resources k) ∙ h));
    }

>>=-ok {ℓ κ μ} :
    {E : Type ℓ} {A : Type κ} {B : Type μ} (r : Result E A) (rest : A → Result E B) (a : A) (b : B)
    → r ≡ ok a
    → rest a ≡ ok b
    → (r >>= rest) ≡ ok b
>>=-ok r rest a b h e = ap (λ res. res >>= rest) h ∙ e

made-is_linked :
    (s : ProjectSpec) (made : Graph)
    → is_valid_spec s ≡ true
    → ResourcesMade (new_graph s) s.resources made
    → all (all (is_linked made.by_resource_id)) (shape made.resources) ≡ true
made-is_linked s made valid m =
    let known : (id : StableId)
        → is_some (find_resource s id) ≡ true
        → is_some (lookup id made.by_resource_id) ≡ true =
      λ id h. ground (arith, m.found id) in
    rw m.shape_added (resources-is_linked s made.by_resource_id known s.resources (ground arith))

abbrev Finished : ProjectSpec → Result BuildError Graph → Type 0
Finished s r = (g : Graph) × (r ≡ ok g) × Built s g

finish-Built :
    (s : ProjectSpec) (g : Graph)
    → is_valid_spec s ≡ true
    → Built s g
    → Finished s (build_pages s.pages g >>= λ paged. build_navigation s.navigation paged)
finish-Built s g valid b =
    let paged = build_pages-Keeps s s.pages g (ground arith) in
    let done = build_navigation-Keeps s s.navigation paged.0 (ground arith) in
    (
      done.0,
      >>=-ok (build_pages s.pages g) (build_navigation s.navigation) paged.0 done.0 paged.1 done.1,
      Built-Keeps s paged.0 done.0 done.2 (Built-Keeps s g paged.0 paged.2 b),
    )

-- The stages after the validation, once the relationships are linked.
abbrev later_stages : ProjectSpec → Graph → Result BuildError Graph
later_stages s linked =
    build_pages s.pages (resolve_behavior linked) >>= λ paged. build_navigation s.navigation paged

link-Built :
    (s : ProjectSpec) (made : Graph)
    → is_valid_spec s ≡ true
    → ResourcesMade (new_graph s) s.resources made
    → Finished s (link_relationships made >>= later_stages s)
link-Built s made valid m =
    let linked : Graph = attach_all (edges made) made in
    let all_linked = made-is_linked s made valid m in
    let b = resolved-Built s linked (linked-Built s made all_linked m) in
    let done = finish-Built s (resolve_behavior linked) valid b in
    (
      done.0,
      >>=-ok (link_relationships made) (later_stages s) linked done.0
          (link_resources-edges made.by_resource_id 0 made.resources made refl all_linked) done.1,
      done.2,
    )

build_stages-Built : (s : ProjectSpec) → is_valid_spec s ≡ true → Finished s (build_stages s)
unfolding build_stages
build_stages-Built s valid =
    let made =
      build_resources-ResourcesMade s.resources (new_graph s)
        (valid-is_whole s s.resources (ground arith)) in
    let done = link-Built s made.0 valid made.2 in
    (
      done.0,
      >>=-ok (build_resources s.resources (new_graph s))
          (λ g. link_relationships g >>= later_stages s) made.0 done.0 made.1 done.1,
      done.2,
    )

pub build-valid :
    (s : ProjectSpec) → is_empty (validate (some s)) ≡ true → build (some s) ≡ build_stages s
unfolding build
build-valid s h = rw h refl

-- `Build` fails on a spec exactly when `Validate` reports something: behind the validation no entry is
-- nil and no target of a relationship is missing.
pub build-validate : (s : ProjectSpec) → is_ok (build (some s)) ≡ is_empty (validate (some s))
unfolding build
build-validate s = elim (Bool-cases (is_empty (validate (some s)))) [
  | inl h ↦
      let made = build_stages-Built s (sym (validate-is_valid_spec s) ∙ h) in
      ap is_ok (build-valid s h ∙ made.1) ∙ sym h
  | inr h ↦ rw h refl
]

build-Built : (s : ProjectSpec) (g : Graph) → build (some s) ≡ ok g → Built s g
build-Built s g h =
    let valid : is_empty (validate (some s)) ≡ true = sym (build-validate s) ∙ ap is_ok h in
    let made = build_stages-Built s (sym (validate-is_valid_spec s) ∙ valid) in
    let same : made.0 ≡ g = ok-injective made.0 g (sym (build-valid s valid ∙ made.1) ∙ h) in
    rw (← same) made.2

-- In a built graph a resource lists as `BelongsTo` the relationships that leave it, and as `HasMany`
-- those that arrive at it, out of the relationships that the fields of the graph declare, both in
-- authored order.
pub belongs_to-has_many :
    (s : ProjectSpec) (g : Graph) (k : ℕ) (r : Resource)
    → build (some s) ≡ ok g
    → get_elem? g.resources k ≡ some r
    → (r.belongs_to ≡ keep (leaves k) (edges g)) × (r.has_many ≡ keep (arrives k) (edges g))
belongs_to-has_many s g k r h at_k =
    let both = (build-Built s g h).both_ends k (ends_of r) (ap (Option.map ends_of) at_k) in
    (ap (λ p. p.0) both, ap (λ p. p.1) both)

-- In a built graph every belongs_to field has its relationship, which leads to the resource that the
-- map of resources has for the target of the field.
pub field-relationship :
    (s : ProjectSpec) (g : Graph) (k j : ℕ) (r : Resource) (f : Field)
    → build (some s) ≡ ok g
    → get_elem? g.resources k ≡ some r
    → get_elem? r.fields j ≡ some f
    → is_belongs_to f.spec.type ≡ true
    → (e : Relationship) × (f.relationship ≡ some e)
      × (lookup f.spec.target g.by_resource_id ≡ some e.to)
field-relationship s g k j r f h at_k at_j links =
    let here : field_at g k j ≡ some f = ap (λ o. field_in o j) at_k ∙ at_j in
    let resolved =
      ap (is_resolved g.by_resource_id) (sym here) ∙ (build-Built s g h).resolved k j in
    leads-found g.by_resource_id f.spec.target f.relationship (ground arith)

-- A built graph holds the resources of the spec in authored order. Its map of resources has an ID
-- exactly when the spec has a resource of that ID, and leads to a resource with the ID.
pub resource-find_resource :
    (s : ProjectSpec) (g : Graph) (id : StableId)
    → build (some s) ≡ ok g
    → (specs g.resources ≡ entries s.resources)
      × (is_some (lookup id g.by_resource_id) ≡ is_some (find_resource s id))
      × ((k : ℕ)
          → lookup id g.by_resource_id ≡ some k
          → Option.map (λ (r : ResourceSpec). r.id) (get_elem? (specs g.resources) k) ≡ some id)
resource-find_resource s g id h =
    let b = build-Built s g h in (b.specs_same, b.found id, b.points id)
