-- ===== src/Graph/Links.antt =====
-- `linkRelationships` of internal/compiler/graph/graph.go as a list of relationships that is attached.
use gombit_forge.Prelude.{
  append_nil, append_assoc, ◌≡◌, refl, sym, ap, ◌∙◌, ℕ, zero, suc, ◌+◌, Bool, true, false, not,
  ◌||◌, Option, none, some, List, [], ◌∷◌, ◌++◌, map, all, keep, is_some, Bool-cases, inl, inr,
  text_eq, if◌then◌else◌, nat_beq, arith,
}
use mathlib.Core.Option
use gombit_forge.Prelude.Assoc.{Assoc, lookup}
use gombit_forge.Prelude.Result.{ok, ◌>>=◌}
use gombit_forge.StableId.{StableId}
use gombit_forge.ProjectSpec.{Resource as ResourceSpec, Field as FieldSpec, is_belongs_to}
use gombit_forge.Graph.{Relationship, Field, Resource, Graph, get_elem?, modify}
use gombit_forge.Graph.Build.{
  BuildError, add_belongs_to, add_has_many, attach, with_relationship, link_to, link_field,
  link_fields, link_resources, unknown_target,
}

abbrev pub field_specs : Resource → List FieldSpec
field_specs r = map (λ (f : Field). f.spec) r.fields

abbrev pub shape : List Resource → List (List FieldSpec)
shape rs = map field_specs rs

module _ (by_id : Assoc StableId ℕ) where
  abbrev pub edge_to : ℕ → ℕ → Option ℕ → List Relationship
  edge_to from index none = []
  edge_to from index (some to) =
      record { field = record { owner = from; index = index }; from = from; to = to } ∷ []

  -- The relationship that a field declares, if it does.
  abbrev pub edge : ℕ → ℕ → FieldSpec → List Relationship
  edge from index f =
      if is_belongs_to f.type then edge_to from index (lookup f.target by_id) else []

  abbrev pub field_edges : ℕ → ℕ → List FieldSpec → List Relationship
  field_edges from index [] = []
  field_edges from index (f ∷ fs) = edge from index f ++ field_edges from (index + 1) fs

  -- The relationships that the fields declare, in authored order.
  abbrev pub edges_from : ℕ → List (List FieldSpec) → List Relationship
  edges_from from [] = []
  edges_from from (fs ∷ rest) = field_edges from 0 fs ++ edges_from (from + 1) rest

  -- The target of the field is there.
  abbrev pub is_linked : FieldSpec → Bool
  is_linked f = not (is_belongs_to f.type) || is_some (lookup f.target by_id)

abbrev pub edges : Graph → List Relationship
edges g = edges_from g.by_resource_id 0 (shape g.resources)

abbrev pub attach_all : List Relationship → Graph → Graph
attach_all [] g = g
attach_all (e ∷ es) g = attach_all es (attach e g)

attach_all-append :
    (es fs : List Relationship) (g : Graph)
    → attach_all (es ++ fs) g ≡ attach_all fs (attach_all es g)
attach_all-append [] fs g = refl
attach_all-append (e ∷ es) fs g = attach_all-append es fs (attach e g)

pub attach_all-by_resource_id :
    (es : List Relationship) (g : Graph) → (attach_all es g).by_resource_id ≡ g.by_resource_id
attach_all-by_resource_id [] g = refl
attach_all-by_resource_id (e ∷ es) g = attach_all-by_resource_id es (attach e g)

module _ (by_id : Assoc StableId ℕ) where
  link_to-edge :
      (from index : ℕ) (target : Option ℕ) (error : BuildError) (g : Graph)
      → is_some target ≡ true
      → link_to
          (record { field = record { owner = from; index = index }; from = from; to = 0 })
          target
          error
          g
        ≡ ok (attach_all (edge_to by_id from index target) g)
  link_to-edge from index none error g h = cc
  link_to-edge from index (some to) error g h = refl

  link_field-edge :
      (r : Resource) (from index : ℕ) (f : Field) (g : Graph)
      → g.by_resource_id ≡ by_id
      → is_linked by_id f.spec ≡ true
      → link_field r from index f g ≡ ok (attach_all (edge by_id from index f.spec) g)
  unfolding link_field
  link_field-edge r from index f g e h = elim (Bool-cases (is_belongs_to f.spec.type)) [
    | inr b ↦ rw b refl
    | inl b ↦
        let found : is_some (lookup f.spec.target by_id) ≡ true = ground arith in
        let error = unknown_target f.spec.id r.spec.id f.spec.target in
        simp (b, e, link_to-edge from index (lookup f.spec.target by_id) error g found)
  ]

  link_fields-edges :
      (r : Resource) (from index : ℕ) (fs : List Field) (g : Graph)
      → g.by_resource_id ≡ by_id
      → all (is_linked by_id) (map (λ (f : Field). f.spec) fs) ≡ true
      → link_fields r from index fs g
        ≡ ok (attach_all (field_edges by_id from index (map (λ (f : Field). f.spec) fs)) g)
  unfolding link_fields
  link_fields-edges r from index [] g e h = refl
  link_fields-edges r from index (f ∷ fs) g e h =
      let first = edge by_id from index f.spec in
      let same = attach_all-by_resource_id first g ∙ e in
      ap (λ res. res >>= λ linked. link_fields r from (index + 1) fs linked)
        (link_field-edge r from index f g e (ground arith))
      ∙ link_fields-edges r from (index + 1) fs (attach_all first g) same (ground arith)
      ∙ ap ok (
          sym (
            attach_all-append first
              (field_edges by_id from (index + 1) (map (λ (f : Field). f.spec) fs)) g))

  pub link_resources-edges :
      (from : ℕ) (rs : List Resource) (g : Graph)
      → g.by_resource_id ≡ by_id
      → all (all (is_linked by_id)) (shape rs) ≡ true
      → link_resources from rs g ≡ ok (attach_all (edges_from by_id from (shape rs)) g)
  unfolding link_resources
  link_resources-edges from [] g e h = refl
  link_resources-edges from (r ∷ rs) g e h =
      let first = field_edges by_id from 0 (field_specs r) in
      let same = attach_all-by_resource_id first g ∙ e in
      ap (λ res. res >>= λ linked. link_resources (from + 1) rs linked)
        (link_fields-edges r from 0 r.fields g e (ground arith))
      ∙ link_resources-edges (from + 1) rs (attach_all first g) same (ground arith)
      ∙ ap ok (sym (attach_all-append first (edges_from by_id (from + 1) (shape rs)) g))

pub get_elem?-modify {ℓ} :
    {A : Type ℓ} (f : A → A) (xs : List A) (i k : ℕ)
    → get_elem? (modify f xs i) k
      ≡ (if nat_beq i k then Option.map f (get_elem? xs k) else get_elem? xs k)
get_elem?-modify f [] i k = ground arith
get_elem?-modify f (x ∷ xs) zero zero = ground arith
get_elem?-modify f (x ∷ xs) zero (suc k) = ground arith
get_elem?-modify f (x ∷ xs) (suc i) zero = ground arith
get_elem?-modify f (x ∷ xs) (suc i) (suc k) = ground (arith, get_elem?-modify f xs i k)

map-modify {ℓ κ} :
    {A : Type ℓ} {B : Type κ} (p : A → B) (f : A → A)
    → ((a : A) → p (f a) ≡ p a)
    → (xs : List A) (k : ℕ) → map p (modify f xs k) ≡ map p xs
map-modify p f same [] k = refl
map-modify p f same (x ∷ xs) zero = λ i. same x i ∷ map p xs
map-modify p f same (x ∷ xs) (suc k) = λ i. p x ∷ map-modify p f same xs k i

shape-attach : (e : Relationship) (g : Graph) → shape (attach e g).resources ≡ shape g.resources
shape-attach e g =
    map-modify field_specs (add_has_many e) (λ r. refl)
      (modify (add_belongs_to e) g.resources e.from) e.to
    ∙ map-modify field_specs (add_belongs_to e)
        (λ r.
          map-modify (λ (f : Field). f.spec) (with_relationship e) (λ f. refl) r.fields
            e.field.index)
        g.resources e.from

pub shape-attach_all :
    (es : List Relationship) (g : Graph) → shape (attach_all es g).resources ≡ shape g.resources
shape-attach_all [] g = refl
shape-attach_all (e ∷ es) g = shape-attach_all es (attach e g) ∙ shape-attach e g

-- The relationships that a resource lists, at its end and at the other.
abbrev pub ends_of : Resource → List Relationship × List Relationship
ends_of r = (r.belongs_to, r.has_many)

abbrev pub leaves : ℕ → Relationship → Bool
leaves k e = nat_beq e.from k

abbrev pub arrives : ℕ → Relationship → Bool
arrives k e = nat_beq e.to k

abbrev pub more_ends :
    ℕ
    → List Relationship
    → List Relationship × List Relationship
    → List Relationship × List Relationship
more_ends k es (out, back) = (out ++ keep (leaves k) es, back ++ keep (arrives k) es)

abbrev pub ends : ℕ → Graph → Option (List Relationship × List Relationship)
ends k g = Option.map ends_of (get_elem? g.resources k)

keep-cons {ℓ} :
    {A : Type ℓ} (p : A → Bool) (x : A) (xs : List A)
    → keep p (x ∷ xs) ≡ keep p (x ∷ []) ++ keep p xs
keep-cons p x xs = elim (Bool-cases (p x)) [ inl b ↦ rw b refl | inr b ↦ rw b refl ]

ends-attach :
    (k : ℕ) (e : Relationship) (g : Graph)
    → ends k (attach e g) ≡ Option.map (more_ends k (e ∷ [])) (ends k g)
ends-attach k e g =
    ap (Option.map ends_of)
      (get_elem?-modify (add_has_many e) (modify (add_belongs_to e) g.resources e.from) e.to k)
    ∙ written (get_elem? (modify (add_belongs_to e) g.resources e.from) k) (get_elem? g.resources k)
        (get_elem?-modify (add_belongs_to e) g.resources e.from k)
  where
    at_one :
        (b c : Bool) (o : Option Resource)
        → Option.map ends_of (
            if c
            then Option.map (add_has_many e) (if b then Option.map (add_belongs_to e) o else o)
            else (if b then Option.map (add_belongs_to e) o else o))
          ≡ Option.map
              (λ (p : List Relationship × List Relationship).
                (p.0 ++ (if b then e ∷ [] else []), p.1 ++ (if c then e ∷ [] else [])))
              (Option.map ends_of o)
    at_one b c none = ground arith
    at_one true true (some r) = refl
    at_one true false (some r) = λ i. some (r.belongs_to ++ (e ∷ []), sym (append_nil r.has_many) i)
    at_one false true (some r) = λ i. some (sym (append_nil r.belongs_to) i, r.has_many ++ (e ∷ []))
    at_one false false (some r) =
        λ i. some (sym (append_nil r.belongs_to) i, sym (append_nil r.has_many) i)

    written :
        (after before : Option Resource)
        → after ≡ (if nat_beq e.from k then Option.map (add_belongs_to e) before else before)
        → Option.map ends_of (if nat_beq e.to k then Option.map (add_has_many e) after else after)
          ≡ Option.map (more_ends k (e ∷ [])) (Option.map ends_of before)
    written after before h = rw h (at_one (nat_beq e.from k) (nat_beq e.to k) before)

more_ends-cons :
    (k : ℕ) (e : Relationship) (es : List Relationship)
    (o : Option (List Relationship × List Relationship))
    → Option.map (more_ends k es) (Option.map (more_ends k (e ∷ [])) o)
      ≡ Option.map (more_ends k (e ∷ es)) o
more_ends-cons k e es none = refl
more_ends-cons k e es (some (out, back)) = ap some (λ i. (
  (append_assoc out (keep (leaves k) (e ∷ [])) (keep (leaves k) es)
        ∙ ap (λ t. out ++ t) (sym (keep-cons (leaves k) e es)))
      i,
  (append_assoc back (keep (arrives k) (e ∷ [])) (keep (arrives k) es)
        ∙ ap (λ t. back ++ t) (sym (keep-cons (arrives k) e es)))
      i,
))

more_ends-nil :
    (k : ℕ) (o : Option (List Relationship × List Relationship)) → Option.map (more_ends k []) o ≡ o
more_ends-nil k none = refl
more_ends-nil k (some (out, back)) = λ i. some (append_nil out i, append_nil back i)

pub ends-attach_all :
    (k : ℕ) (es : List Relationship) (g : Graph)
    → ends k (attach_all es g) ≡ Option.map (more_ends k es) (ends k g)
ends-attach_all k [] g = sym (more_ends-nil k (ends k g))
ends-attach_all k (e ∷ es) g =
    ends-attach_all k es (attach e g)
    ∙ ap (Option.map (more_ends k es)) (ends-attach k e g)
    ∙ more_ends-cons k e es (ends k g)

abbrev pub specs : List Resource → List ResourceSpec
specs rs = map (λ (r : Resource). r.spec) rs

pub specs-attach_all :
    (es : List Relationship) (g : Graph) → specs (attach_all es g).resources ≡ specs g.resources
specs-attach_all [] g = refl
specs-attach_all (e ∷ es) g =
    specs-attach_all es (attach e g)
    ∙ map-modify (λ (r : Resource). r.spec) (add_has_many e) (λ r. refl)
        (modify (add_belongs_to e) g.resources e.from) e.to
    ∙ map-modify (λ (r : Resource). r.spec) (add_belongs_to e) (λ r. refl) g.resources e.from
