-- ===== src/Graph/Linked.antt =====
-- The relationship that a built graph holds for a field.
use gombit_forge.Prelude.{
  some-injective, ◌≡◌, refl, sym, ap, ◌∙◌, ℕ, zero, suc, Bool, true, false, not, ◌||◌, Option, none,
  some, List, [], ◌∷◌, map, all, is_some, if◌then◌else◌, text_eq, nat_beq, arith, Bool-cases,
  Option-cases, inl, inr,
}
use mathlib.Core.Option
use gombit_forge.Prelude.Assoc.{Assoc, lookup}
use gombit_forge.StableId.{StableId}
use gombit_forge.ProjectSpec.{Field as FieldSpec, is_belongs_to}
use gombit_forge.Graph.{Relationship, Field, Resource, Graph, get_elem?}
use gombit_forge.Graph.Build.{attach, with_relationship}
use gombit_forge.Graph.Links.{edges, attach_all, shape, is_linked}
use gombit_forge.Graph.Served.{
  field_in, field_at, spec_in, is_at, has_fitting, attach-field_at, attach_all-fitting,
  edges_from-Serves,
}

-- The relationship leads to the resource that the map has for the ID.
abbrev pub leads_to : Assoc StableId ℕ → StableId → Relationship → Bool
leads_to by_id target e = elim (lookup target by_id) [ none ↦ false | some to ↦ nat_beq e.to to ]

abbrev pub leads : Assoc StableId ℕ → StableId → Option Relationship → Bool
leads by_id target none = false
leads by_id target (some e) = leads_to by_id target e

-- A belongs_to field has a relationship, and it leads to the resource that the field names.
abbrev pub is_resolved : Assoc StableId ℕ → Option Field → Bool
is_resolved by_id none = true
is_resolved by_id (some f) =
    not (is_belongs_to f.spec.type) || leads by_id f.spec.target f.relationship

field_spec : Option Field → Option FieldSpec
field_spec = Option.map (λ (f : Field). f.spec)

attach_all-field_spec :
    (es : List Relationship) (g : Graph) (k j : ℕ)
    → field_spec (field_at (attach_all es g) k j) ≡ field_spec (field_at g k j)
unfolding field_spec
attach_all-field_spec [] g k j = refl
attach_all-field_spec (e ∷ es) g k j =
    attach_all-field_spec es (attach e g) k j
    ∙ ap field_spec (attach-field_at e g k j)
    ∙ kept (is_at k j e) (field_at g k j)
  where
    kept :
        (b : Bool) (o : Option Field)
        → field_spec (if b then Option.map (with_relationship e) o else o) ≡ field_spec o
    kept true none = refl
    kept true (some f) = refl
    kept false o = refl

get_elem?-map {ℓ κ} :
    {A : Type ℓ} {B : Type κ} (f : A → B) (xs : List A) (k : ℕ)
    → get_elem? (map f xs) k ≡ Option.map f (get_elem? xs k)
get_elem?-map f [] k = refl
get_elem?-map f (x ∷ xs) zero = refl
get_elem?-map f (x ∷ xs) (suc k) = get_elem?-map f xs k

all-get_elem? {ℓ} :
    {A : Type ℓ} (p : A → Bool) (xs : List A) (k : ℕ) (a : A)
    → all p xs ≡ true
    → get_elem? xs k ≡ some a
    → p a ≡ true
all-get_elem? p [] k a h at_k = cc
all-get_elem? p (x ∷ xs) zero a h at_k = ap p (sym (some-injective x a at_k)) ∙ ground arith
all-get_elem? p (x ∷ xs) (suc k) a h at_k = all-get_elem? p xs k a (ground arith) at_k

all-spec_in :
    (p : FieldSpec → Bool) (rs : List (List FieldSpec)) (k j : ℕ) (f : FieldSpec)
    → all (all p) rs ≡ true
    → spec_in (get_elem? rs k) j ≡ some f
    → p f ≡ true
all-spec_in p [] k j f h at_j = cc
all-spec_in p (fs ∷ rs) zero j f h at_j = all-get_elem? p fs j f (ground arith) at_j
all-spec_in p (fs ∷ rs) (suc k) j f h at_j = all-spec_in p rs k j f (ground arith) at_j

spec_in-shape :
    (rs : List Resource) (k j : ℕ)
    → spec_in (get_elem? (shape rs) k) j ≡ field_spec (field_in (get_elem? rs k) j)
unfolding field_spec
spec_in-shape [] k j = refl
spec_in-shape (r ∷ rs) zero j = get_elem?-map (λ (f : Field). f.spec) r.fields j
spec_in-shape (r ∷ rs) (suc k) j = spec_in-shape rs k j

is_resolved_if :
    (by_id : Assoc StableId ℕ) (k j : ℕ) (o : Option Field)
    → ((f : FieldSpec)
        → field_spec o ≡ some f
        → is_belongs_to f.type ≡ true
        → has_fitting k j (leads_to by_id f.target) o ≡ true)
    → is_resolved by_id o ≡ true
unfolding field_spec
is_resolved_if by_id k j none h = refl
is_resolved_if by_id k j (some f) h = elim (Bool-cases (is_belongs_to f.spec.type)) [
  | inl b ↦ rw b (h f.spec refl b)
  | inr b ↦ rw b refl
]

some-field_spec : (o : Option Field) (f : FieldSpec) → field_spec o ≡ some f → is_some o ≡ true
unfolding field_spec
some-field_spec none f h = cc
some-field_spec (some g) f h = refl

leads_to-found :
    (by_id : Assoc StableId ℕ) (target : StableId) (to : ℕ) (e : Relationship)
    → lookup target by_id ≡ some to
    → e.to ≡ to
    → leads_to by_id target e ≡ true
leads_to-found by_id target to e there h = rw (leads_to, there) (ground arith)

module _ (made : Graph)
    (linked : all (all (is_linked made.by_resource_id)) (shape made.resources) ≡ true) where
  found_target :
      (f : FieldSpec)
      → is_linked made.by_resource_id f ≡ true
      → is_belongs_to f.type ≡ true
      → (to : ℕ) × (lookup f.target made.by_resource_id ≡ some to)
  found_target f h links = elim (Option-cases (lookup f.target made.by_resource_id)) [
    | inl found ↦ found
    | inr missing ↦ absurd (ground (arith, ap is_some missing))
  ]

  attached-has_fitting :
      (k j : ℕ) (f : FieldSpec)
      → field_spec (field_at made k j) ≡ some f
      → is_belongs_to f.type ≡ true
      → has_fitting k j
          (leads_to made.by_resource_id f.target)
          (field_at (attach_all (edges made) made) k j)
        ≡ true
  attached-has_fitting k j f at_j links =
      let by_id = made.by_resource_id in
      let fits = leads_to by_id f.target in
      let in_shape = spec_in-shape made.resources k j ∙ at_j in
      let target =
        found_target f (all-spec_in (is_linked by_id) (shape made.resources) k j f linked in_shape)
          links in
      let served =
        edges_from-Serves k j fits by_id f links target.0 target.1
          (λ e h. leads_to-found by_id f.target target.0 e target.1 h) 0 k (shape made.resources)
          (omega arith) in_shape in
      attach_all-fitting k j fits (edges made) made (some-field_spec (field_at made k j) f at_j)
        served.0 (ground (arith, served.1))

  pub attached-is_resolved :
      (k j : ℕ)
      → is_resolved made.by_resource_id (field_at (attach_all (edges made) made) k j) ≡ true
  attached-is_resolved k j =
      is_resolved_if made.by_resource_id k j (field_at (attach_all (edges made) made) k j)
        (λ f at_j links.
          attached-has_fitting k j f (sym (attach_all-field_spec (edges made) made k j) ∙ at_j)
            links)

same_to : (a b : ℕ) → nat_beq a b ≡ true → ◌≡◌ {A = Option ℕ} (some b) (some a)
same_to a b h = ap some (ground arith)

pub leads-found :
    (by_id : Assoc StableId ℕ) (target : StableId) (o : Option Relationship)
    → leads by_id target o ≡ true
    → (e : Relationship) × (o ≡ some e) × (lookup target by_id ≡ some e.to)
leads-found by_id target none h = cc
leads-found by_id target (some e) h = (
  e,
  refl,
  elim (Option-cases (lookup target by_id)) [
    | inl (to, there) ↦ there ∙ same_to e.to to (sym (leads_at to there) ∙ h)
    | inr missing ↦ absurd (ground (arith, leads_nowhere missing))
  ],
)
  where
    leads_at : (to : ℕ) → lookup target by_id ≡ some to → leads_to by_id target e ≡ nat_beq e.to to
    leads_at to there = rw (leads_to, there) refl

    leads_nowhere : lookup target by_id ≡ none → leads_to by_id target e ≡ false
    leads_nowhere missing = rw (leads_to, missing) refl
