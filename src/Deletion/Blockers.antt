-- ===== src/Deletion/Blockers.antt =====
-- When a deletion is blocked, told by what the candidate refers to.
use gombit_forge.Prelude.{
  ◌≡◌, refl, ◌∙◌, Bool, true, false, not, ◌&&◌, ◌||◌, Option, none, some, List, [], ◌∷◌, ◌++◌, any,
  all, length, ltb, ◌==◌, text_eq, Text, arith,
}
use gombit_forge.StableId.{StableId}
use gombit_forge.ProjectSpec.{
  ProjectSpec, Resource, Field, Page, DashboardConfig, DashboardCard, AggregateCard, is_belongs_to,
}
use gombit_forge.Deletion.{
  is_blocked, field_blockers, relationship_blockers, card_blockers, aggregate_blockers,
  dashboard_blockers, page_blockers, blockers_for, is_surviving, deleted_resource, deletions_in,
  analyze_deletions, blocked_deletions,
}

-- A test at the value of an optional one.
abbrev on_some {ℓ} : {A : Type ℓ} → (A → Bool) → Option A → Bool
on_some p none = false
on_some p (some a) = p a

abbrev pub field_refers : StableId → Option Field → Bool
field_refers id = on_some (λ f. is_belongs_to f.type && (f.target == id))

abbrev pub resource_refers : StableId → Option Resource → Bool
resource_refers id = on_some (λ r. any (field_refers id) r.fields)

abbrev pub dashboard_refers : StableId → DashboardConfig → Bool
dashboard_refers id d =
    any (λ (c : DashboardCard). c.resource == id) d.count_cards
    || any (λ (c : DashboardCard). c.resource == id) d.recent_lists
    || any (λ (c : AggregateCard). c.resource == id) d.aggregate_cards

abbrev pub page_refers : StableId → Option Page → Bool
page_refers id = on_some (λ p. (p.resource == id) || on_some (dashboard_refers id) p.dashboard)

-- A relationship, a page or a dashboard card of the spec refers to the resource.
abbrev pub refers : StableId → ProjectSpec → Bool
refers id s = any (resource_refers id) s.resources || any (page_refers id) s.pages

abbrev pub is_nonempty {ℓ} : {A : Type ℓ} → List A → Bool
is_nonempty [] = false
is_nonempty (x ∷ xs) = true

is_nonempty-append {ℓ} :
    {A : Type ℓ} (xs ys : List A) → is_nonempty (xs ++ ys) ≡ (is_nonempty xs || is_nonempty ys)
is_nonempty-append [] ys = refl
is_nonempty-append (x ∷ xs) ys = refl

any-append_lem {ℓ} :
    {A : Type ℓ} (p : A → Bool) (xs ys : List A) → any p (xs ++ ys) ≡ (any p xs || any p ys)
any-append_lem p [] ys = refl
any-append_lem p (x ∷ xs) ys = ground (arith, any-append_lem p xs ys)

module _ (quote : Text → Text) (deleted : Resource) where
  field_blockers-is_nonempty :
      (r : Resource) (fs : List (Option Field))
      → is_nonempty (field_blockers quote deleted r fs) ≡ any (field_refers deleted.id) fs
  unfolding field_blockers
  field_blockers-is_nonempty r [] = refl
  field_blockers-is_nonempty r (none ∷ fs) = field_blockers-is_nonempty r fs
  field_blockers-is_nonempty r (some f ∷ fs) = ground (arith, field_blockers-is_nonempty r fs)

  relationship_blockers-is_nonempty :
      (rs : List (Option Resource))
      → is_nonempty (relationship_blockers quote deleted rs) ≡ any (resource_refers deleted.id) rs
  unfolding relationship_blockers
  relationship_blockers-is_nonempty [] = refl
  relationship_blockers-is_nonempty (none ∷ rs) = relationship_blockers-is_nonempty rs
  relationship_blockers-is_nonempty (some r ∷ rs) =
      is_nonempty-append (field_blockers quote deleted r r.fields)
        (relationship_blockers quote deleted rs)
      ∙ (λ i. field_blockers-is_nonempty r r.fields i || relationship_blockers-is_nonempty rs i)

  card_blockers-is_nonempty :
      (p : Page) (cs : List DashboardCard)
      → is_nonempty (card_blockers quote deleted p cs)
        ≡ any (λ (c : DashboardCard). c.resource == deleted.id) cs
  unfolding card_blockers
  card_blockers-is_nonempty p [] = refl
  card_blockers-is_nonempty p (c ∷ cs) = ground (arith, card_blockers-is_nonempty p cs)

  aggregate_blockers-is_nonempty :
      (p : Page) (cs : List AggregateCard)
      → is_nonempty (aggregate_blockers quote deleted p cs)
        ≡ any (λ (c : AggregateCard). c.resource == deleted.id) cs
  unfolding aggregate_blockers
  aggregate_blockers-is_nonempty p [] = refl
  aggregate_blockers-is_nonempty p (c ∷ cs) = ground (arith, aggregate_blockers-is_nonempty p cs)

  dashboard_blockers-is_nonempty :
      (p : Page) (d : Option DashboardConfig)
      → is_nonempty (dashboard_blockers quote deleted p d) ≡ on_some (dashboard_refers deleted.id) d
  unfolding dashboard_blockers
  dashboard_blockers-is_nonempty p none = refl
  dashboard_blockers-is_nonempty p (some d) = ground (
    arith,
    is_nonempty-append (card_blockers quote deleted p (d.count_cards ++ d.recent_lists))
        (aggregate_blockers quote deleted p d.aggregate_cards),
    card_blockers-is_nonempty p (d.count_cards ++ d.recent_lists),
    any-append_lem (λ (c : DashboardCard). c.resource == deleted.id) d.count_cards d.recent_lists,
    aggregate_blockers-is_nonempty p d.aggregate_cards,
  )

  page_blockers-is_nonempty :
      (ps : List (Option Page))
      → is_nonempty (page_blockers quote deleted ps) ≡ any (page_refers deleted.id) ps
  unfolding page_blockers
  page_blockers-is_nonempty [] = refl
  page_blockers-is_nonempty (none ∷ ps) = page_blockers-is_nonempty ps
  page_blockers-is_nonempty (some p ∷ ps) = ground (
    arith,
    is_nonempty-append (dashboard_blockers quote deleted p p.dashboard)
        (page_blockers quote deleted ps),
    dashboard_blockers-is_nonempty p p.dashboard,
    page_blockers-is_nonempty ps,
  )

is_blocked-is_nonempty {ℓ} : {A : Type ℓ} (xs : List A) → ltb 0 (length xs) ≡ is_nonempty xs
is_blocked-is_nonempty [] = refl
is_blocked-is_nonempty (x ∷ xs) = ground arith

-- A deletion is blocked exactly when a relationship, a page or a dashboard card of the candidate
-- refers to the resource.
pub is_blocked-refers :
    (quote : Text → Text) (candidate : ProjectSpec) (r : Resource)
    → is_blocked (deleted_resource quote (some candidate) r) ≡ refers r.id candidate
unfolding blockers_for
is_blocked-refers quote candidate r =
    is_blocked-is_nonempty (blockers_for quote r (some candidate))
    ∙ is_nonempty-append (relationship_blockers quote r candidate.resources)
        (page_blockers quote r candidate.pages)
    ∙ (λ i.
        relationship_blockers-is_nonempty quote r candidate.resources i
        || page_blockers-is_nonempty quote r candidate.pages i)

-- A resource of the current spec that may go: the candidate keeps it, or nothing of the candidate
-- refers to it.
abbrev pub may_go : ProjectSpec → Option Resource → Bool
may_go candidate none = true
may_go candidate (some r) = is_surviving (some candidate) r.id || not (refers r.id candidate)

deletions_in-unblocked :
    (quote : Text → Text) (candidate : ProjectSpec) (rs : List (Option Resource))
    → is_nonempty (blocked_deletions (deletions_in quote (some candidate) rs))
      ≡ not (all (may_go candidate) rs)
unfolding blocked_deletions deletions_in
deletions_in-unblocked quote candidate [] = refl
deletions_in-unblocked quote candidate (none ∷ rs) = deletions_in-unblocked quote candidate rs
deletions_in-unblocked quote candidate (some r ∷ rs) =
    ground (arith, is_blocked-refers quote candidate r, deletions_in-unblocked quote candidate rs)

-- The analysis reports a blocked deletion exactly when some resource of the current spec is neither
-- kept by the candidate nor free of references in it.
pub blocked_deletions-analyze_deletions :
    (quote : Text → Text) (current candidate : ProjectSpec)
    → is_nonempty (blocked_deletions (analyze_deletions quote (some current) (some candidate)))
      ≡ not (all (may_go candidate) current.resources)
unfolding analyze_deletions
blocked_deletions-analyze_deletions quote current candidate =
    deletions_in-unblocked quote candidate current.resources
