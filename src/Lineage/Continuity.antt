-- ===== src/Lineage/Continuity.antt =====
-- When identity is continuous, and what a change of names leaves.
use gombit_forge.Prelude.{
  ◌||◌, ◌++◌, ◌↔◌, none, some, Bool, true, false, is_some, ◌==◌, ◌≡◌, refl, sym, ap, ◌∙◌, not, ◌&&◌,
  Option, List, [], ◌∷◌, arith, any, contains, length, ltb, text_eq, ==_refl, text_beq_iff,
}
use gombit_forge.StableId.{StableId}
use gombit_forge.ProjectSpec.{ProjectSpec, Resource, Field, find_field, find_field_in}
use gombit_forge.Lineage.{
  IdentityRef, field_refs, resource_refs, is_discontinuous, schema_identities, ids, missing_from,
  check_lineage,
}

-- The resource has the ID, or a field of it.
abbrev pub has_identity_in : StableId → Option Resource → Bool
has_identity_in id none = false
has_identity_in id (some r) = r.id == id || is_some (find_field r id)

-- A resource or a field of the spec has the ID.
abbrev pub has_identity : StableId → Option ProjectSpec → Bool
has_identity id none = false
has_identity id (some s) = any (has_identity_in id) s.resources

-- The IDs of a spec's resources and fields, in authored order.
abbrev pub schema_ids : Option ProjectSpec → List StableId
schema_ids s = ids (schema_identities s)

contains-ids_append :
    (id : StableId) (xs ys : List IdentityRef)
    → contains id (ids (xs ++ ys)) ≡ (contains id (ids xs) || contains id (ids ys))
contains-ids_append id [] ys = refl
contains-ids_append id (x ∷ xs) ys = ground (arith, contains-ids_append id xs ys)

contains-field_refs :
    (id : StableId) (fs : List (Option Field))
    → contains id (ids (field_refs fs)) ≡ is_some (find_field_in fs id)
unfolding field_refs find_field_in
contains-field_refs id [] = refl
contains-field_refs id (none ∷ fs) = contains-field_refs id fs
contains-field_refs id (some f ∷ fs) = ground (arith, contains-field_refs id fs)

contains-resource_refs :
    (id : StableId) (rs : List (Option Resource))
    → contains id (ids (resource_refs rs)) ≡ any (has_identity_in id) rs
unfolding resource_refs
contains-resource_refs id [] = refl
contains-resource_refs id (none ∷ rs) = contains-resource_refs id rs
contains-resource_refs id (some r ∷ rs) = ground (
  arith,
  contains-ids_append id (field_refs r.fields) (resource_refs rs),
  contains-field_refs id r.fields,
  contains-resource_refs id rs,
)

-- The references are those of the identities that the spec has.
contains-schema_identities :
    (id : StableId) (s : Option ProjectSpec)
    → contains id (ids (schema_identities s)) ≡ has_identity id s
unfolding schema_identities
contains-schema_identities id none = refl
contains-schema_identities id (some s) = contains-resource_refs id s.resources

contains-missing_from :
    (others refs : List IdentityRef) (id : StableId)
    → contains id (ids (missing_from others refs))
      ≡ (contains id (ids refs) && not (contains id (ids others)))
unfolding missing_from
contains-missing_from others [] id = refl
contains-missing_from others (ref ∷ refs) id =
    ground (arith, text_beq_iff ref.id id, contains-missing_from others refs id)

contains_self : (xs : List StableId) (id : StableId) → contains id (id ∷ xs) ≡ true
contains_self xs id = rw (==_refl id)

-- Some ID is in the first spec and not in the second.
abbrev pub Loses : Option ProjectSpec → Option ProjectSpec → Type 0
Loses s s' = (id : StableId) × (has_identity id s ≡ true) × (has_identity id s' ≡ false)

module _ (prior current : Option ProjectSpec) where
  lost-has_identity :
      (id : StableId)
      → contains id (ids (missing_from (schema_identities current) (schema_identities prior)))
        ≡ (has_identity id prior && not (has_identity id current))
  lost-has_identity id = ground (
    arith,
    contains-missing_from (schema_identities current) (schema_identities prior) id,
    contains-schema_identities id prior,
    contains-schema_identities id current,
  )

  nonempty-Loses :
      ltb 0 (length (missing_from (schema_identities current) (schema_identities prior))) ≡ true
      ↔ Loses prior current
  nonempty-Loses = (forward _ lost-has_identity, backward _ lost-has_identity)
    where
      forward :
          (gone : List IdentityRef)
          → ((id : StableId)
              → contains id (ids gone) ≡ (has_identity id prior && not (has_identity id current)))
          → ltb 0 (length gone) ≡ true
          → Loses prior current
      forward [] e h = absurd (ground arith)
      forward (ref ∷ refs) e h =
          let here : (has_identity ref.id prior && not (has_identity ref.id current)) ≡ true =
            sym (e ref.id) ∙ contains_self (ids refs) ref.id in
          (ref.id, ground arith, ground arith)

      backward :
          (gone : List IdentityRef)
          → ((id : StableId)
              → contains id (ids gone) ≡ (has_identity id prior && not (has_identity id current)))
          → Loses prior current
          → ltb 0 (length gone) ≡ true
      backward [] e (id, had, has) = absurd (ground (arith, e id))
      backward (ref ∷ refs) e l = ground arith

-- An ID is reported as removed exactly when a resource or a field of the prior spec has it and none
-- of the current one has, and as added exactly when one of the current spec has it and none of the
-- prior one; and the lineage is discontinuous exactly when an ID is gone and another is new.
pub check_lineage-reports :
    (prior current : Option ProjectSpec)
    → ((id : StableId)
        → (contains id (ids (check_lineage prior current).removed)
            ≡ (has_identity id prior && not (has_identity id current)))
          × (contains id (ids (check_lineage prior current).added)
              ≡ (has_identity id current && not (has_identity id prior))))
      × ((is_discontinuous (check_lineage prior current) ≡ true)
          ↔ (Loses prior current × Loses current prior))
unfolding check_lineage is_discontinuous
check_lineage-reports prior current = (
  λ id. (lost-has_identity prior current id, lost-has_identity current prior id),
  both (nonempty-Loses prior current) (nonempty-Loses current prior),
)
  where
    both :
        {a b : Bool} {P Q : Type 0} → (a ≡ true ↔ P) → (b ≡ true ↔ Q) → ((a && b) ≡ true ↔ (P × Q))
    both p q =
        (λ h. (p.0 (ground arith), q.0 (ground arith)), λ pq. ground (arith, p.1 pq.0, q.1 pq.1))

missing_from-nil :
    (others refs : List IdentityRef)
    → ((id : StableId) → contains id (ids refs) ≡ true → contains id (ids others) ≡ true)
    → missing_from others refs ≡ []
unfolding missing_from
missing_from-nil others [] h = refl
missing_from-nil others (ref ∷ refs) h =
    let rest : missing_from others refs ≡ [] =
      missing_from-nil others refs (λ id found. h id (ground arith)) in
    rw (h ref.id (contains_self (ids refs) ref.id)) rest

-- A change that keeps the IDs, such as a relabel or a rename of a column or of a symbol, is
-- reported neither as a removal nor as an addition.
pub check_lineage-same_ids :
    (prior current : Option ProjectSpec)
    → schema_ids prior ≡ schema_ids current
    → check_lineage prior current ≡ record { removed = []; added = [] }
unfolding check_lineage
check_lineage-same_ids prior current same =
    let gone =
      missing_from-nil (schema_identities current) (schema_identities prior)
        (λ id found. ap (contains id) (sym same) ∙ found) in
    let new =
      missing_from-nil (schema_identities prior) (schema_identities current)
        (λ id found. ap (contains id) same ∙ found) in
    λ i. record { removed = gone i; added = new i }
