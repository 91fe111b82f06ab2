-- ===== src/Graph/Served.antt =====
-- What attaching the declared relationships does to one field.
use gombit_forge.Prelude.{
  some-injective, ◌≡◌, refl, ap, ◌∙◌, ℕ, zero, suc, ◌+◌, Bool, true, false, not, ◌&&◌, ◌||◌, Option,
  none, some, List, [], ◌∷◌, ◌++◌, all, any, any-append, all-append, is_some, if◌then◌else◌,
  text_eq, nat_beq, ltb, ◌<◌, arith, Bool-cases, inl, inr,
}
use mathlib.Core.Option
use gombit_forge.Prelude.Assoc.{Assoc, lookup}
use gombit_forge.StableId.{StableId}
use gombit_forge.ProjectSpec.{Field as FieldSpec, is_belongs_to}
use gombit_forge.Graph.{Relationship, Field, Resource, Graph, get_elem?, modify}
use gombit_forge.Graph.Build.{add_belongs_to, add_has_many, attach, with_relationship}
use gombit_forge.Graph.Links.{get_elem?-modify, edge, edge_to, field_edges, edges_from, attach_all}

abbrev pub field_in : Option Resource → ℕ → Option Field
field_in none j = none
field_in (some r) j = get_elem? r.fields j

abbrev pub field_at : Graph → ℕ → ℕ → Option Field
field_at g k j = field_in (get_elem? g.resources k) j

abbrev pub spec_in : Option (List FieldSpec) → ℕ → Option FieldSpec
spec_in none j = none
spec_in (some fs) j = get_elem? fs j

-- The relationship is that of the field at these positions.
abbrev pub is_at : ℕ → ℕ → Relationship → Bool
is_at k j e = nat_beq e.from k && nat_beq e.field.index j

pub attach-field_at :
    (e : Relationship) (g : Graph) (k j : ℕ)
    → field_at (attach e g) k j
      ≡ (if is_at k j e then Option.map (with_relationship e) (field_at g k j) else field_at g k j)
attach-field_at e g k j =
    ap (λ o. field_in o j)
      (get_elem?-modify (add_has_many e) (modify (add_belongs_to e) g.resources e.from) e.to k)
    ∙ back (nat_beq e.to k) (get_elem? (modify (add_belongs_to e) g.resources e.from) k)
    ∙ ap (λ o. field_in o j) (get_elem?-modify (add_belongs_to e) g.resources e.from k)
    ∙ out (nat_beq e.from k) (get_elem? g.resources k)
  where
    back :
        (b : Bool) (o : Option Resource)
        → field_in (if b then Option.map (add_has_many e) o else o) j ≡ field_in o j
    back true none = refl
    back true (some r) = refl
    back false o = refl

    out :
        (b : Bool) (o : Option Resource)
        → field_in (if b then Option.map (add_belongs_to e) o else o) j ≡ (
            if b && nat_beq e.field.index j
            then Option.map (with_relationship e) (field_in o j)
            else field_in o j)
    out true none = ground arith
    out true (some r) = get_elem?-modify (with_relationship e) r.fields e.field.index j
    out false o = refl

module _ (k j : ℕ) (fits : Relationship → Bool) where
  -- The field has a relationship that fits.
  abbrev pub has_fitting : Option Field → Bool
  has_fitting none = false
  has_fitting (some f) = elim f.relationship [ none ↦ false | some e ↦ fits e ]

  attached :
      (e : Relationship) (b : Bool) (o after : Option Field)
      → after ≡ (if b then Option.map (with_relationship e) o else o)
      → is_some o ≡ true
      → (is_some after ≡ true) × (has_fitting after ≡ (if b then fits e else has_fitting o))
  attached e b none after h there = cc
  attached e true (some f) after h there = (ap is_some h, ap has_fitting h)
  attached e false (some f) after h there = (ap is_some h, ap has_fitting h)

  pub attach_all-fitting :
      (es : List Relationship) (g : Graph)
      → is_some (field_at g k j) ≡ true
      → all (λ e. not (is_at k j e) || fits e) es ≡ true
      → (has_fitting (field_at g k j) || any (is_at k j) es) ≡ true
      → has_fitting (field_at (attach_all es g) k j) ≡ true
  attach_all-fitting [] g there h start = ground arith
  attach_all-fitting (e ∷ es) g there h start =
      let step =
        attached e (is_at k j e) (field_at g k j) (field_at (attach e g) k j)
          (attach-field_at e g k j) there in
      attach_all-fitting es (attach e g) step.0 (ground arith) (ground (arith, step.1))

  abbrev pub quiet : List Relationship → Bool
  quiet es = all (λ e. not (is_at k j e)) es

  abbrev pub fitting : List Relationship → Bool
  fitting es = all (λ e. not (is_at k j e) || fits e) es

  quiet-fitting : (es : List Relationship) → quiet es ≡ true → fitting es ≡ true
  quiet-fitting [] h = refl
  quiet-fitting (e ∷ es) h = ground (arith, quiet-fitting es (ground arith))

  fitting-append : (es ds : List Relationship) → fitting (es ++ ds) ≡ (fitting es && fitting ds)
  fitting-append es ds = all-append (λ e. not (is_at k j e) || fits e) es ds

  quiet-append : (es ds : List Relationship) → quiet (es ++ ds) ≡ (quiet es && quiet ds)
  quiet-append es ds = all-append (λ e. not (is_at k j e)) es ds

  -- The field is served: what is for it fits, and something is.
  abbrev pub Serves : List Relationship → Type 0
  Serves es = (fitting es ≡ true) × (any (is_at k j) es ≡ true)

  Serves-before : (es ds : List Relationship) → Serves es → quiet ds ≡ true → Serves (es ++ ds)
  Serves-before es ds (fit, found) q = (
    ground (arith, fitting-append es ds, quiet-fitting ds q),
    ground (arith, any-append (is_at k j) es ds),
  )

  Serves-after : (es ds : List Relationship) → quiet es ≡ true → Serves ds → Serves (es ++ ds)
  Serves-after es ds q (fit, found) = (
    ground (arith, fitting-append es ds, quiet-fitting es q),
    ground (arith, any-append (is_at k j) es ds),
  )

  module _ (by_id : Assoc StableId ℕ) where
    edge_to-quiet :
        (from index : ℕ) (target : Option ℕ)
        → (nat_beq from k && nat_beq index j) ≡ false
        → quiet (edge_to by_id from index target) ≡ true
    edge_to-quiet from index none h = refl
    edge_to-quiet from index (some to) h = rw h refl

    edge-quiet :
        (from index : ℕ) (f : FieldSpec)
        → (nat_beq from k && nat_beq index j) ≡ false
        → quiet (edge by_id from index f) ≡ true
    edge-quiet from index f h = elim (Bool-cases (is_belongs_to f.type)) [
      | inl b ↦ rw b (edge_to-quiet from index (lookup f.target by_id) h)
      | inr b ↦ rw b refl
    ]

    -- The fields behind the position, and those of another resource, declare nothing for it.
    field_edges-quiet :
        (from index : ℕ) (fs : List FieldSpec)
        → (nat_beq from k && not (ltb j index)) ≡ false
        → quiet (field_edges by_id from index fs) ≡ true
    field_edges-quiet from index [] h = refl
    field_edges-quiet from index (f ∷ fs) h = ground (
      arith,
      quiet-append (edge by_id from index f) (field_edges by_id from (index + 1) fs),
      edge-quiet from index f (ground arith),
      field_edges-quiet from (index + 1) fs (ground arith),
    )

    edges_from-quiet :
        (from : ℕ) (rs : List (List FieldSpec)) → k < from → quiet (edges_from by_id from rs) ≡ true
    edges_from-quiet from [] h = refl
    edges_from-quiet from (fs ∷ rs) h = ground (
      arith,
      quiet-append (field_edges by_id from 0 fs) (edges_from by_id (from + 1) rs),
      field_edges-quiet from 0 fs (ground arith),
      edges_from-quiet (from + 1) rs (omega arith),
    )

    module _ (f : FieldSpec) (links : is_belongs_to f.type ≡ true) (to : ℕ)
        (there : lookup f.target by_id ≡ some to)
        (right : (e : Relationship) → e.to ≡ to → fits e ≡ true) where
      edge-Serves : (from index : ℕ) → from ≡ k → index ≡ j → Serves (edge by_id from index f)
      edge-Serves from index a b =
          rw (links, there)
            (let e : Relationship = record {
              field = record { owner = from; index = index };
              from = from;
              to = to;
            } in
              ground (arith, right e refl))

      field_edges-Serves :
          (from index j' : ℕ) (fs : List FieldSpec)
          → from ≡ k
          → index + j' ≡ j
          → get_elem? fs j' ≡ some f
          → Serves (field_edges by_id from index fs)
      field_edges-Serves from index j' [] a b h = cc
      field_edges-Serves from index zero (d ∷ fs) a b h =
          let same : d ≡ f = some-injective d f h in
          let first : Serves (edge by_id from index d) =
            rw same (edge-Serves from index a (omega arith)) in
          Serves-before (edge by_id from index d) (field_edges by_id from (index + 1) fs) first
            (field_edges-quiet from (index + 1) fs (ground arith))
      field_edges-Serves from index (suc j') (d ∷ fs) a b h =
          Serves-after (edge by_id from index d) (field_edges by_id from (index + 1) fs)
            (edge-quiet from index d (ground arith))
            (field_edges-Serves from (index + 1) j' fs a (omega arith) h)

      pub edges_from-Serves :
          (from k' : ℕ) (rs : List (List FieldSpec))
          → from + k' ≡ k
          → spec_in (get_elem? rs k') j ≡ some f
          → Serves (edges_from by_id from rs)
      edges_from-Serves from k' [] a h = cc
      edges_from-Serves from zero (fs ∷ rs) a h =
          Serves-before (field_edges by_id from 0 fs) (edges_from by_id (from + 1) rs)
            (field_edges-Serves from 0 j fs (omega arith) (omega arith) h)
            (edges_from-quiet (from + 1) rs (omega arith))
      edges_from-Serves from (suc k') (fs ∷ rs) a h =
          Serves-after (field_edges by_id from 0 fs) (edges_from by_id (from + 1) rs)
            (field_edges-quiet from 0 fs (ground arith))
            (edges_from-Serves (from + 1) k' rs (omega arith) h)
