-- ===== src/Graph/Resources.antt =====
-- What `buildResources` of internal/compiler/graph/graph.go makes of the resources of a spec.
use gombit_forge.Prelude.{
  append_nil, append_assoc, value_or, ◌≡◌, refl, sym, ap, ◌∙◌, ℕ, zero, suc, Bool, true, ◌&&◌, ◌||◌,
  Option, none, some, List, [], ◌∷◌, ◌++◌, map, all, length, is_some, ◌==◌, text_eq, text_beq_iff,
  arith, Bool-cases, inl, inr,
}
use mathlib.Core.Option
use gombit_forge.Prelude.Assoc.{Assoc, lookup, put, lookup-put}
use gombit_forge.Prelude.Result.{ok, ◌>>=◌}
use gombit_forge.StableId.{StableId}
use gombit_forge.ProjectSpec.{Resource as ResourceSpec, Field as FieldSpec, find_resource_in}
use gombit_forge.Validate.Fields.{is_empty}
use gombit_forge.Validate.Accepts.Valid.{on_some, entries}
use gombit_forge.Graph.{FieldRef, Field, Resource, Graph, get_elem?}
use gombit_forge.Graph.Build.{add_field, add_resource, new_resource, build_fields, build_resources}
use gombit_forge.Graph.Links.{shape, field_specs, ends_of, specs}

-- No entry is nil.
abbrev pub present {ℓ} : {A : Type ℓ} → List (Option A) → Bool
present os = all (λ o. is_some o) os

-- What the loop over the fields makes of one resource.
record FieldsMade (r : Resource) (fs : List (Option FieldSpec)) (made : Resource) : Type 0 where
  spec_kept : made.spec ≡ r.spec
  ends_kept : ends_of made ≡ ends_of r
  fields_added : field_specs made ≡ field_specs r ++ entries fs

map-append {ℓ κ} :
    {A : Type ℓ} {B : Type κ} (f : A → B) (xs ys : List A) → map f (xs ++ ys) ≡ map f xs ++ map f ys
map-append f [] ys = refl
map-append f (x ∷ xs) ys = λ i. f x ∷ map-append f xs ys i

build_fields-FieldsMade :
    (owner : ℕ) (fs : List (Option FieldSpec)) (r : Resource) (by_id : Assoc StableId FieldRef)
    → present fs ≡ true
    → (made : Resource × Assoc StableId FieldRef) × (build_fields owner fs r by_id ≡ ok made)
      × FieldsMade r fs made.0
unfolding build_fields
build_fields-FieldsMade owner [] r by_id h = (
  (r, by_id),
  refl,
  record { spec_kept = refl; ends_kept = refl; fields_added = sym (append_nil (field_specs r)) },
)
build_fields-FieldsMade owner (none ∷ fs) r by_id h = cc
build_fields-FieldsMade owner (some f ∷ fs) r by_id h =
    let here : FieldRef = record { owner = owner; index = length r.fields } in
    let rest = build_fields-FieldsMade owner fs (add_field owner f r) (put f.id here by_id) h in
    (
      rest.0,
      rest.1,
      record {
        spec_kept = rest.2.spec_kept;
        ends_kept = rest.2.ends_kept;
        fields_added =
            rest.2.fields_added
            ∙ ap (λ xs. xs ++ entries fs)
                (map-append (λ (f : Field). f.spec) r.fields
                  (record { spec = f; owner = owner; relationship = none } ∷ []))
            ∙ append_assoc (field_specs r) (f ∷ []) (entries fs);
      },
    )

abbrev pub is_bare : Resource → Bool
is_bare r = is_empty r.belongs_to && is_empty r.has_many

-- What the map of resources points to carries the ID.
abbrev pub Points : Assoc StableId ℕ → List ResourceSpec → Type 0
Points by_id rs =
    (id : StableId) (k : ℕ)
    → lookup id by_id ≡ some k
    → Option.map (λ (r : ResourceSpec). r.id) (get_elem? rs k) ≡ some id

pub record ResourcesMade (g : Graph) (rs : List (Option ResourceSpec)) (made : Graph) : Type 0 where
  pub specs_added : specs made.resources ≡ specs g.resources ++ entries rs
  pub shape_added :
      shape made.resources
      ≡ shape g.resources ++ map (λ (r : ResourceSpec). entries r.fields) (entries rs)
  pub bare_kept : all is_bare g.resources ≡ true → all is_bare made.resources ≡ true
  pub found :
      (id : StableId)
      → is_some (lookup id made.by_resource_id)
        ≡ (is_some (lookup id g.by_resource_id) || is_some (find_resource_in rs id))
  pub points_kept :
      Points g.by_resource_id (specs g.resources)
      → Points made.by_resource_id (specs made.resources)

-- No resource is nil, and no field of one.
abbrev pub is_whole : Option ResourceSpec → Bool
is_whole = on_some (λ (r : ResourceSpec). present r.fields)

get_elem?-old {ℓ κ} :
    {A : Type ℓ} {B : Type κ} (f : A → B) (xs : List A) (x : A) (k : ℕ) (b : B)
    → Option.map f (get_elem? xs k) ≡ some b
    → Option.map f (get_elem? (xs ++ (x ∷ [])) k) ≡ some b
get_elem?-old f [] x k b h = cc
get_elem?-old f (y ∷ xs) x zero b h = h
get_elem?-old f (y ∷ xs) x (suc k) b h = get_elem?-old f xs x k b h

get_elem?-new {ℓ} :
    {A : Type ℓ} (xs : List A) (a : A) → get_elem? (xs ++ (a ∷ [])) (length xs) ≡ some a
get_elem?-new [] a = refl
get_elem?-new (x ∷ xs) a = get_elem?-new xs a

pub length-map_lem {ℓ κ} :
    {A : Type ℓ} {B : Type κ} (f : A → B) (xs : List A) → length (map f xs) ≡ length xs
length-map_lem f [] = refl
length-map_lem f (x ∷ xs) = ap suc (length-map_lem f xs)

map-added {ℓ κ} :
    {A : Type ℓ} {B : Type κ} (f : A → B) (xs : List A) (x : A) (b : B) (ys : List B)
    → f x ≡ b
    → map f (xs ++ (x ∷ [])) ++ ys ≡ map f xs ++ (b ∷ ys)
map-added f [] x b ys h = λ i. h i ∷ ys
map-added f (y ∷ xs) x b ys h = λ i. f y ∷ map-added f xs x b ys h i

put-Points :
    (by_id : Assoc StableId ℕ) (rs : List ResourceSpec) (r : ResourceSpec)
    → Points by_id rs
    → Points (put r.id (length rs) by_id) (rs ++ (r ∷ []))
put-Points by_id rs r old id k h = elim (Bool-cases (r.id == id)) [
  | inr b ↦
      let there : lookup id by_id ≡ some k = ground (arith, lookup-put id r.id (length rs) by_id) in
      get_elem?-old (λ (a : ResourceSpec). a.id) rs r k id (old id k there)
  | inl b ↦
      let same : r.id ≡ id = (text_beq_iff r.id id).0 b in
      let last : ◌≡◌ {A = Option ℕ} (some (length rs)) (some k) =
        ground (arith, lookup-put id r.id (length rs) by_id) in
      ap (λ o. Option.map (λ (a : ResourceSpec). a.id) (get_elem? (rs ++ (r ∷ [])) (value_or k o)))
        (sym last)
      ∙ ap (Option.map (λ (a : ResourceSpec). a.id)) (get_elem?-new rs r)
      ∙ ap some same
]

add_resource-Points :
    (by_id : Assoc StableId ℕ) (rs : List Resource) (m : Resource) (r : ResourceSpec)
    → m.spec ≡ r
    → Points by_id (specs rs)
    → Points (put r.id (length rs) by_id) (specs (rs ++ (m ∷ [])))
add_resource-Points by_id rs m r e old =
    let added : specs (rs ++ (m ∷ [])) ≡ specs rs ++ (r ∷ []) =
      sym (append_nil (specs (rs ++ (m ∷ []))))
      ∙ map-added (λ (a : Resource). a.spec) rs m r [] e in
    let size : length (specs rs) ≡ length rs = length-map_lem (λ (a : Resource). a.spec) rs in
    rw (added, ← size) (put-Points by_id (specs rs) r old)

all-bare-added :
    (rs : List Resource) (m : Resource)
    → ends_of m ≡ ([], [])
    → all is_bare rs ≡ true
    → all is_bare (rs ++ (m ∷ [])) ≡ true
all-bare-added [] m e h = λ i. is_empty (e i).0 && is_empty (e i).1 && true
all-bare-added (r ∷ rs) m e h = ground (arith, all-bare-added rs m e (ground arith))

pub build_resources-ResourcesMade :
    (rs : List (Option ResourceSpec)) (g : Graph)
    → all is_whole rs ≡ true
    → (made : Graph) × (build_resources rs g ≡ ok made) × ResourcesMade g rs made
unfolding build_resources find_resource_in
build_resources-ResourcesMade [] g h = (
  g,
  refl,
  record {
    specs_added = sym (append_nil (specs g.resources));
    shape_added = sym (append_nil (shape g.resources));
    bare_kept = λ b. b;
    found = λ id. ground arith;
    points_kept = λ p. p;
  },
)
build_resources-ResourcesMade (none ∷ rs) g h = cc
build_resources-ResourcesMade (some r ∷ rs) g h =
    let one =
      build_fields-FieldsMade (length g.resources) r.fields (new_resource r) g.by_field_id
        (ground arith) in
    let rest = build_resources-ResourcesMade rs (add_resource r g one.0) (ground arith) in
    let facts = one.2 in
    (
      rest.0,
      ap (λ res. res >>= λ built. build_resources rs (add_resource r g built)) one.1 ∙ rest.1,
      record {
        specs_added =
            rest.2.specs_added
            ∙ map-added (λ (a : Resource). a.spec) g.resources one.0.0 r (entries rs)
                facts.spec_kept;
        shape_added =
            rest.2.shape_added
            ∙ map-added field_specs g.resources one.0.0 (entries r.fields)
                (map (λ (r : ResourceSpec). entries r.fields) (entries rs)) facts.fields_added;
        bare_kept = λ b. rest.2.bare_kept (all-bare-added g.resources one.0.0 facts.ends_kept b);
        found = λ id.
            ground
              (arith, rest.2.found id, lookup-put id r.id (length g.resources) g.by_resource_id);
        points_kept = λ p.
            rest.2.points_kept
              (add_resource-Points g.by_resource_id g.resources one.0.0 r facts.spec_kept p);
      },
    )
