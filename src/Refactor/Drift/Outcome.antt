-- ===== src/Refactor/Drift/Outcome.antt =====
-- What `NormalizeIdentifiers` returns, and the lineage from the spec that it is given.
use mathlib.Core.Path.{subst}
use gombit_forge.Prelude.{
  ℕ, Bool, ◌≡◌, refl, sym, ap, ◌∙◌, Option, none, some, List, [], ◌∷◌, ◌++◌, map,
}
use gombit_forge.Prelude.Result.{ok, ◌>>=◌, ok-injective, >>=-eq-ok}
use gombit_forge.StableId.{kind_field, kind_resource}
use gombit_forge.Ledger.{Ledger}
use gombit_forge.Ledger.History.{Reach, here}
use gombit_forge.ProjectSpec.{ProjectSpec, Resource, Field}
use gombit_forge.ProjectSpec.Codec.{JsonCodec, IsFaithful, clone, clone-ok}
use gombit_forge.Lineage.{field_refs, resource_refs, schema_identities, check_lineage, ids}
use gombit_forge.Lineage.Continuity.{check_lineage-same_ids}
use gombit_forge.Refactor.{cloned}
use gombit_forge.Refactor.Outcome.{cloned-ok}
use gombit_forge.Refactor.Drift.{normalize_resources, normalize_copy, normalize_identifiers}
use gombit_forge.Refactor.Drift.Identity.{
  forget_field, forget_resource, forget, normalize_resources-ResourcesKept,
}

field_refs-forget : (fs : List (Option Field)) → field_refs (map forget_field fs) ≡ field_refs fs
unfolding field_refs
field_refs-forget [] = refl
field_refs-forget (none ∷ fs) = field_refs-forget fs
field_refs-forget (some f ∷ fs) =
    ap
      (λ refs.
        record { id = f.id; kind = kind_field; label = f.label; storage = f.storage_name } ∷ refs)
      (field_refs-forget fs)

resource_refs-forget :
    (rs : List (Option Resource)) → resource_refs (map forget_resource rs) ≡ resource_refs rs
unfolding resource_refs
resource_refs-forget [] = refl
resource_refs-forget (none ∷ rs) = resource_refs-forget rs
resource_refs-forget (some r ∷ rs) = λ i.
    record { id = r.id; kind = kind_resource; label = r.label; storage = r.storage_name }
    ∷ (field_refs-forget r.fields i ++ resource_refs-forget rs i)

schema_identities-forget :
    (s : ProjectSpec) → schema_identities (some (forget s)) ≡ schema_identities (some s)
unfolding schema_identities
schema_identities-forget s = resource_refs-forget s.resources

-- Specs that differ in code symbols alone have a lineage with no change.
check_lineage-forget :
    (s s' : ProjectSpec)
    → forget s' ≡ forget s
    → check_lineage (some s) (some s') ≡ record { removed = []; added = [] }
check_lineage-forget s s' same = check_lineage-same_ids (some s) (some s') (
    ap ids (
      sym (schema_identities-forget s)
      ∙ ap (λ x. schema_identities (some x)) (sym same)
      ∙ schema_identities-forget s'))

module _ (is_letter : ℕ → Bool) (codec : JsonCodec) where
  normalize_identifiers-copy :
      (s s' : ProjectSpec) (ledger ledger' : Ledger)
      → IsFaithful codec s
      → normalize_identifiers is_letter codec s ledger ≡ ok (s', ledger')
      → normalize_copy is_letter ledger s ≡ (s', ledger')
  unfolding normalize_identifiers
  normalize_identifiers-copy s s' ledger ledger' faithful h =
      let (copy, copied, h') =
        >>=-eq-ok (cloned (clone codec s)) (λ copy. ok (normalize_copy is_letter ledger copy)) h in
      let same = (clone-ok codec s copy faithful (cloned-ok (clone codec s) copy copied)).0 in
      ap (normalize_copy is_letter ledger) (sym same) ∙ ok-injective _ _ h'

  normalize_identifiers-again :
      (s s' : ProjectSpec) (l l' : Ledger)
      → normalize_copy is_letter l s ≡ (s', l')
      → normalize_copy is_letter l' s' ≡ (s', l')
  normalize_identifiers-again s s' l l' e =
      subst (λ (p : ProjectSpec × Ledger). normalize_copy is_letter p.1 p.0 ≡ p) e
        (ap (λ (p : Ledger × List (Option Resource)). (record s { resources = p.1 }, p.0))
          ((normalize_resources-ResourcesKept is_letter l s.resources).again
            (normalize_resources is_letter l s.resources).0 here))

  normalize_identifiers-copied :
      (s : ProjectSpec) (l : Ledger)
      → clone codec s ≡ ok s
      → normalize_identifiers is_letter codec s l ≡ ok (normalize_copy is_letter l s)
  unfolding normalize_identifiers cloned
  normalize_identifiers-copied s l copied =
      ap (λ r. cloned r >>= λ copy. ok (normalize_copy is_letter l copy)) copied

  -- A successful `NormalizeIdentifiers` leaves all of the spec but its code symbols as it was,
  -- reports no removed or added identity to the lineage check, and moves the ledger by its own
  -- operations.
  pub normalize_identifiers_outcome :
      (s s' : ProjectSpec) (ledger ledger' : Ledger)
      → IsFaithful codec s
      → normalize_identifiers is_letter codec s ledger ≡ ok (s', ledger')
      → (forget s' ≡ forget s)
        × (check_lineage (some s) (some s') ≡ record { removed = []; added = [] })
        × Reach ledger ledger'
  normalize_identifiers_outcome s s' ledger ledger' faithful h =
      let e = normalize_identifiers-copy s s' ledger ledger' faithful h in
      let kept = normalize_resources-ResourcesKept is_letter ledger s.resources in
      let same : forget s' ≡ forget s =
        ap (λ (p : ProjectSpec × Ledger). forget p.0) (sym e)
        ∙ ap (λ rs. record s { resources = rs }) kept.same in
      (
        same,
        check_lineage-forget s s' same,
        subst (λ (p : ProjectSpec × Ledger). Reach ledger p.1) e kept.reached,
      )

  -- Normalizing the result of `NormalizeIdentifiers` once more, if it can be cloned, changes neither
  -- the spec nor the ledger.
  pub normalize_identifiers_twice :
      (s s' : ProjectSpec) (ledger ledger' : Ledger)
      → IsFaithful codec s
      → normalize_identifiers is_letter codec s ledger ≡ ok (s', ledger')
      → clone codec s' ≡ ok s'
      → normalize_identifiers is_letter codec s' ledger' ≡ ok (s', ledger')
  normalize_identifiers_twice s s' ledger ledger' faithful h copied =
      normalize_identifiers-copied s' ledger' copied
      ∙ ap ok (
          normalize_identifiers-again s s' ledger ledger'
            (normalize_identifiers-copy s s' ledger ledger' faithful h))
