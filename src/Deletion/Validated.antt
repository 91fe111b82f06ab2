-- ===== src/Deletion/Validated.antt =====
-- A candidate that passes validation blocks no deletion.
use gombit_forge.Prelude.{
  ◌≡◌, refl, sym, ap, ◌∙◌, Bool, true, false, not, ◌&&◌, ◌||◌, Option, none, some, List, [], ◌∷◌,
  any, all, is_some, ◌==◌, text_eq, text_beq_iff, Text, arith, Bool-cases, inl, inr,
}
use gombit_forge.StableId.{StableId}
use gombit_forge.ProjectSpec.{
  ProjectSpec, Resource, Field, FieldType, Page, PageType, DashboardConfig, DashboardCard,
  AggregateCard, belongs_to, resource_table, resource_form, resource_detail, dashboard_page,
  other_page, find_resource, find_resource_in,
}
use gombit_forge.Deletion.{has_id, blocked_deletions, analyze_deletions}
use gombit_forge.Deletion.Blockers.{
  field_refers, resource_refers, dashboard_refers, page_refers, refers, may_go, is_nonempty,
  blocked_deletions-analyze_deletions,
}
use gombit_forge.Validate.Fields.{is_empty}
use gombit_forge.Validate.Whole.{validate}
use gombit_forge.Validate.Accepts.Spec.{validate-is_valid_spec}
use gombit_forge.Validate.Accepts.Valid.{
  on_some, if_some, has_valid_target, is_valid_field, is_valid_resource, is_valid_count,
  is_valid_recent, is_valid_aggregate, is_valid_order, is_valid_reduction, is_fitting,
  is_valid_resource_page, is_valid_dashboard, is_valid_of_type, is_valid_page, is_valid_spec,
}

find_resource_in-has_id :
    (rs : List (Option Resource)) (id : StableId) → is_some (find_resource_in rs id) ≡ has_id id rs
unfolding find_resource_in
find_resource_in-has_id [] id = refl
find_resource_in-has_id (none ∷ rs) id = find_resource_in-has_id rs id
find_resource_in-has_id (some r ∷ rs) id = ground (arith, find_resource_in-has_id rs id)

and_left : (a b : Bool) → (a && b) ≡ true → a ≡ true
and_left a b h = ground arith

and_right : (a b : Bool) → (a && b) ≡ true → b ≡ true
and_right a b h = ground arith

module _ (s : ProjectSpec) (id : StableId) (gone : is_some (find_resource s id) ≡ false) where
  -- What is found is not `id`.
  found_other :
      (target : StableId) → is_some (find_resource s target) ≡ true → (target == id) ≡ false
  found_other target h = elim (Bool-cases (target == id)) [
    | inr e ↦ e
    | inl e ↦
        let same : target ≡ id = (text_beq_iff target id).0 e in
        let there : is_some (find_resource s id) ≡ true =
          ap (λ t. is_some (find_resource s t)) (sym same) ∙ h in
        cc
  ]

  field_by_type :
      (f : Field) (t : FieldType)
      → has_valid_target s (record f { type = t }) ≡ true
      → field_refers id (some (record f { type = t })) ≡ false
  field_by_type f belongs_to h = found_other f.target (ground arith)
  field_by_type f _ h = refl

  fields_refer :
      (fs : List (Option Field))
      → all (on_some (is_valid_field s)) fs ≡ true
      → any (field_refers id) fs ≡ false
  fields_refer [] h = refl
  fields_refer (none ∷ fs) h = cc
  fields_refer (some f ∷ fs) h =
      ground (arith, field_by_type f f.type (ground arith), fields_refer fs (ground arith))

  resources_refer :
      (rs : List (Option Resource))
      → all (on_some (is_valid_resource s)) rs ≡ true
      → any (resource_refers id) rs ≡ false
  resources_refer [] h = refl
  resources_refer (none ∷ rs) h = cc
  resources_refer (some r ∷ rs) h =
      ground (arith, fields_refer r.fields (ground arith), resources_refer rs (ground arith))

  -- A resource that is found is not `id`, and so nothing valid refers to `id`.
  on_found :
      (p : Resource → Bool) (target : StableId)
      → on_some p (find_resource s target) ≡ true
      → (target == id) ≡ false
  on_found p target h = found_other target (is_some_of (find_resource s target) h)
    where
      is_some_of : (o : Option Resource) → on_some p o ≡ true → is_some o ≡ true
      is_some_of none h = cc
      is_some_of (some r) h = refl

  counts_refer :
      (cards : List DashboardCard)
      → all (is_valid_count s) cards ≡ true
      → any (λ (c : DashboardCard). c.resource == id) cards ≡ false
  counts_refer [] h = refl
  counts_refer (c ∷ cs) h =
      ground (arith, found_other c.resource (ground arith), counts_refer cs (ground arith))

  recents_refer :
      (cards : List DashboardCard)
      → all (is_valid_recent s) cards ≡ true
      → any (λ (c : DashboardCard). c.resource == id) cards ≡ false
  recents_refer [] h = refl
  recents_refer (c ∷ cs) h =
      let first : on_some (is_valid_order c) (find_resource s c.resource) ≡ true = ground arith in
      ground (arith, on_found (is_valid_order c) c.resource first, recents_refer cs (ground arith))

  aggregates_refer :
      (cards : List AggregateCard)
      → all (is_valid_aggregate s) cards ≡ true
      → any (λ (c : AggregateCard). c.resource == id) cards ≡ false
  aggregates_refer [] h = refl
  aggregates_refer (c ∷ cs) h =
      let first : on_some (is_valid_reduction c) (find_resource s c.resource) ≡ true =
        ground arith in
      ground (
        arith,
        on_found (is_valid_reduction c) c.resource first,
        aggregates_refer cs (ground arith),
      )

  dashboard_refer :
      (d : Option DashboardConfig)
      → if_some (is_valid_dashboard s) d ≡ true
      → on_some (dashboard_refers id) d ≡ false
  dashboard_refer none h = refl
  dashboard_refer (some d) h = ground (
    arith,
    counts_refer d.count_cards (ground arith),
    recents_refer d.recent_lists (ground arith),
    aggregates_refer d.aggregate_cards (ground arith),
  )

  module _ (named : (id == []) ≡ false) where
    no_dashboard :
        (d : Option DashboardConfig) → is_some d ≡ false → on_some (dashboard_refers id) d ≡ false
    no_dashboard none h = refl
    no_dashboard (some d) h = cc

    empty_other : (target : StableId) → (target == []) ≡ true → (target == id) ≡ false
    empty_other target h = elim (Bool-cases (target == id)) [
      | inr e ↦ e
      | inl e ↦
          let same : target ≡ id = (text_beq_iff target id).0 e in
          let nothing : (id == []) ≡ true = ap (λ t. t == []) (sym same) ∙ h in cc
    ]

    -- A page of a resource that is found, without a dashboard.
    resource_page_refers :
        (p : Page)
        → is_valid_resource_page s p ≡ true
        → is_some p.dashboard ≡ false
        → page_refers id (some p) ≡ false
    resource_page_refers p h none_there =
        let there : on_some (is_fitting p) (find_resource s p.resource) ≡ true = ground arith in
        ground
          (arith, on_found (is_fitting p) p.resource there, no_dashboard p.dashboard none_there)

    page_by_type :
        (p : Page) (t : PageType)
        → is_valid_of_type s (record p { type = t }) t ≡ true
        → page_refers id (some p) ≡ false
    page_by_type p dashboard_page h =
        ground
          (arith, empty_other p.resource (ground arith), dashboard_refer p.dashboard (ground arith))
    page_by_type p resource_table h = resource_page_refers p (ground arith) (ground arith)
    page_by_type p resource_form h = resource_page_refers p (ground arith) (ground arith)
    page_by_type p resource_detail h = resource_page_refers p (ground arith) (ground arith)
    page_by_type p (other_page t) h = cc

    pages_refer :
        (ps : List (Option Page))
        → all (on_some (is_valid_page s)) ps ≡ true
        → any (page_refers id) ps ≡ false
    pages_refer [] h = refl
    pages_refer (none ∷ ps) h = cc
    pages_refer (some p ∷ ps) h =
        ground (arith, page_by_type p p.type (ground arith), pages_refer ps (ground arith))

-- The resources have IDs.
abbrev pub are_named : List (Option Resource) → Bool
are_named = all (λ (r : Option Resource). on_some (λ (a : Resource). not (a.id == [])) r)

module _ (candidate : ProjectSpec) (valid : is_valid_spec candidate ≡ true) where
  surviving_or_free :
      (r : Resource)
      → (r.id == []) ≡ false
      → (is_some (find_resource candidate r.id) || not (refers r.id candidate)) ≡ true
  surviving_or_free r named = elim (Bool-cases (is_some (find_resource candidate r.id))) [
    | inl e ↦ ground arith
    | inr e ↦
        let in_resources = resources_refer candidate r.id e candidate.resources (ground arith) in
        let in_pages = pages_refer candidate r.id e named candidate.pages (ground arith) in
        ground arith
  ]

  valid-may_go :
      (rs : List (Option Resource)) → are_named rs ≡ true → all (may_go candidate) rs ≡ true
  valid-may_go [] h = refl
  valid-may_go (none ∷ rs) h = cc
  valid-may_go (some r ∷ rs) h =
      let free = surviving_or_free r (ground arith) in
      let kept = find_resource_in-has_id candidate.resources r.id in
      ground (arith, valid-may_go rs (ground arith))

nothing_left {ℓ} : {A : Type ℓ} → (xs : List A) → is_nonempty xs ≡ false → xs ≡ []
nothing_left [] e = refl
nothing_left (x ∷ xs) e = cc

-- A candidate that passes validation blocks no deletion, when every resource of the current spec has
-- an ID.
pub blocked_deletions-validate :
    (quote : Text → Text) (current candidate : ProjectSpec)
    → is_empty (validate (some candidate)) ≡ true
    → are_named current.resources ≡ true
    → blocked_deletions (analyze_deletions quote (some current) (some candidate)) ≡ []
blocked_deletions-validate quote current candidate h named =
    let valid : is_valid_spec candidate ≡ true = sym (validate-is_valid_spec candidate) ∙ h in
    let free = valid-may_go candidate valid current.resources named in
    let count = blocked_deletions-analyze_deletions quote current candidate in
    nothing_left (blocked_deletions (analyze_deletions quote (some current) (some candidate)))
      (count ∙ ap not free)
