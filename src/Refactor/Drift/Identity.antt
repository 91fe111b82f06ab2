-- ===== src/Refactor/Drift/Identity.antt =====
-- `NormalizeIdentifiers` changes code symbols alone, and doing it again changes nothing.
use mathlib.Core.Path.{subst}
use gombit_forge.Prelude.{ℕ, ◌≡◌, refl, ap, ◌∙◌, Bool, Option, none, some, List, [], ◌∷◌, map, Text}
use gombit_forge.Names.{is_reserved_code_name}
use gombit_forge.Ledger.{Ledger, Namespace, namespace_resource, field_namespace}
use gombit_forge.Ledger.History.{Reach, here, Reach-trans}
use gombit_forge.ProjectSpec.{ProjectSpec, Resource, Field}
use gombit_forge.Refactor.Drift.{
  normalized_symbol, refreeze_to, normalize_fields, normalize_resources,
}
use gombit_forge.Refactor.Drift.Target.{
  normalized_symbol-normalized_symbol, refreeze_to-Reach, refreeze_to-same,
}

abbrev pub forget_field : Option Field → Option Field
forget_field none = none
forget_field (some f) = some (record f { code_name = [] })

abbrev pub forget_resource : Option Resource → Option Resource
forget_resource none = none
forget_resource (some r) = some (record r { code_name = []; fields = map forget_field r.fields })

-- The spec without its code symbols.
abbrev pub forget : ProjectSpec → ProjectSpec
forget s = record s { resources = map forget_resource s.resources }

module _ (is_letter : ℕ → Bool) where
  abbrev fields_with :
      Namespace → Ledger → Field → List (Option Field) → Text → Ledger × List (Option Field)
  fields_with ns l f rest t =
      let (l', rest') =
        normalize_fields is_letter ns (refreeze_to is_letter l ns f.code_name t f.id) rest in
      (l', some (record f { code_name = t }) ∷ rest')

  normalize_fields-cons :
      (ns : Namespace) (l : Ledger) (f : Field) (rest : List (Option Field))
      → normalize_fields is_letter ns l (some f ∷ rest)
        ≡ fields_with ns l f rest
            (normalized_symbol is_letter l ns f.label f.id (some is_reserved_code_name) f.code_name)
  unfolding normalize_fields
  normalize_fields-cons ns l f rest = refl

  abbrev None : Namespace → Ledger → List (Option Field) → Ledger × List (Option Field)
  None ns l rest = let (l', rest') = normalize_fields is_letter ns l rest in (l', none ∷ rest')

  normalize_fields-skip :
      (ns : Namespace) (l : Ledger) (rest : List (Option Field))
      → normalize_fields is_letter ns l (none ∷ rest) ≡ None ns l rest
  unfolding normalize_fields
  normalize_fields-skip ns l rest = refl

  fields_again :
      (ns : Namespace) (l l' : Ledger) (f : Field) (t : Text) (rest : List (Option Field))
      → Reach l l'
      → normalized_symbol is_letter l ns f.label f.id (some is_reserved_code_name) f.code_name ≡ t
      → normalize_fields is_letter ns l' rest ≡ (l', rest)
      → normalize_fields is_letter ns l' (some (record f { code_name = t }) ∷ rest)
        ≡ (l', some (record f { code_name = t }) ∷ rest)
  fields_again ns l l' f t rest r target again =
      let f' : Field = record f { code_name = t } in
      let settled : normalized_symbol is_letter l' ns f.label f.id (some is_reserved_code_name) t
          ≡ t =
        subst
          (λ x. normalized_symbol is_letter l' ns f.label f.id (some is_reserved_code_name) x ≡ x)
          target
          (normalized_symbol-normalized_symbol is_letter l l' ns f.label f.id
            (some is_reserved_code_name) f.code_name r) in
      normalize_fields-cons ns l' f' rest
      ∙ ap (fields_with ns l' f' rest) settled
      ∙ ap (λ m. let (l₁, rest') = normalize_fields is_letter ns m rest in (l₁, some f' ∷ rest'))
          (refreeze_to-same is_letter l' ns t f.id)
      ∙ ap (λ (p : Ledger × List (Option Field)). (p.0, some f' ∷ p.1)) again

  -- What the loop over the fields does, from the ledger `l`.
  record FieldsKept (ns : Namespace) (l : Ledger) (fs : List (Option Field))
      (result : Ledger × List (Option Field)) : Type 0 where
    pub reached : Reach l result.0
    pub same : map forget_field result.1 ≡ map forget_field fs
    pub again :
        (l' : Ledger)
        → Reach result.0 l'
        → normalize_fields is_letter ns l' result.1 ≡ (l', result.1)

  normalize_fields-FieldsKept :
      (ns : Namespace) (l : Ledger) (fs : List (Option Field))
      → FieldsKept ns l fs (normalize_fields is_letter ns l fs)
  normalize_fields-FieldsKept ns l [] =
      unfold normalize_fields in record { reached = here; same = refl; again = λ l' r. refl }
  normalize_fields-FieldsKept ns l (none ∷ rest) =
      let ih = normalize_fields-FieldsKept ns l rest in
      rw (normalize_fields-skip ns l rest) (record {
        reached = ih.reached;
        same = ap (λ t. none ∷ t) ih.same;
        again = λ l' r.
            normalize_fields-skip ns l' _
            ∙ ap (λ (p : Ledger × List (Option Field)). (p.0, none ∷ p.1)) (ih.again l' r);
      })
  normalize_fields-FieldsKept ns l (some f ∷ rest) =
      let t : Text =
        normalized_symbol is_letter l ns f.label f.id (some is_reserved_code_name) f.code_name in
      let ih =
        normalize_fields-FieldsKept ns (refreeze_to is_letter l ns f.code_name t f.id) rest in
      let reached =
        Reach-trans
          (refreeze_to-Reach is_letter l ns f.label f.id (some is_reserved_code_name) f.code_name)
          ih.reached in
      rw (normalize_fields-cons ns l f rest) (record {
        reached = reached;
        same = ap (λ xs. some (record f { code_name = [] }) ∷ xs) ih.same;
        again = λ l' r. fields_again ns l l' f t _ (Reach-trans reached r) refl (ih.again l' r);
      })

  abbrev resources_with :
      Ledger → Resource → List (Option Resource) → Text → Ledger × List (Option Resource)
  resources_with l r rest t =
      let l₁ = refreeze_to is_letter l namespace_resource r.code_name t r.id in
      let (l₂, fields) = normalize_fields is_letter (field_namespace r.id) l₁ r.fields in
      let (l₃, rest') = normalize_resources is_letter l₂ rest in
      (l₃, some (record r { code_name = t; fields = fields }) ∷ rest')

  normalize_resources-cons :
      (l : Ledger) (r : Resource) (rest : List (Option Resource))
      → normalize_resources is_letter l (some r ∷ rest)
        ≡ resources_with l r rest
            (normalized_symbol is_letter l namespace_resource r.label r.id none r.code_name)
  unfolding normalize_resources
  normalize_resources-cons l r rest = refl

  normalize_resources-skip :
      (l : Ledger) (rest : List (Option Resource))
      → normalize_resources is_letter l (none ∷ rest)
        ≡ (let (l', rest') = normalize_resources is_letter l rest in (l', none ∷ rest'))
  unfolding normalize_resources
  normalize_resources-skip l rest = refl

  resources_again :
      (l l' : Ledger) (r : Resource) (t : Text) (fields : List (Option Field))
      (rest : List (Option Resource))
      → Reach l l'
      → normalized_symbol is_letter l namespace_resource r.label r.id none r.code_name ≡ t
      → normalize_fields is_letter (field_namespace r.id) l' fields ≡ (l', fields)
      → normalize_resources is_letter l' rest ≡ (l', rest)
      → normalize_resources is_letter l' (some (record r { code_name = t; fields = fields }) ∷ rest)
        ≡ (l', some (record r { code_name = t; fields = fields }) ∷ rest)
  resources_again l l' r t fields rest reach target again_fields again =
      let r' : Resource = record r { code_name = t; fields = fields } in
      let settled : normalized_symbol is_letter l' namespace_resource r.label r.id none t ≡ t =
        subst (λ x. normalized_symbol is_letter l' namespace_resource r.label r.id none x ≡ x)
          target
          (normalized_symbol-normalized_symbol is_letter l l' namespace_resource r.label r.id none
            r.code_name reach) in
      normalize_resources-cons l' r' rest
      ∙ ap (resources_with l' r' rest) settled
      ∙ ap
          (λ m.
            let (l₂, fields') = normalize_fields is_letter (field_namespace r.id) m fields in
            let (l₃, rest') = normalize_resources is_letter l₂ rest in
            (l₃, some (record r { code_name = t; fields = fields' }) ∷ rest'))
          (refreeze_to-same is_letter l' namespace_resource t r.id)
      ∙ ap
          (λ (p : Ledger × List (Option Field)).
            let (l₃, rest') = normalize_resources is_letter p.0 rest in
            (l₃, some (record r { code_name = t; fields = p.1 }) ∷ rest'))
          again_fields
      ∙ ap (λ (p : Ledger × List (Option Resource)). (p.0, some r' ∷ p.1)) again

  -- What the loop over the resources does, from the ledger `l`.
  pub record ResourcesKept (l : Ledger) (rs : List (Option Resource))
      (result : Ledger × List (Option Resource)) : Type 0 where
    pub reached : Reach l result.0
    pub same : map forget_resource result.1 ≡ map forget_resource rs
    pub again :
        (l' : Ledger)
        → Reach result.0 l'
        → normalize_resources is_letter l' result.1 ≡ (l', result.1)

  pub normalize_resources-ResourcesKept :
      (l : Ledger) (rs : List (Option Resource))
      → ResourcesKept l rs (normalize_resources is_letter l rs)
  normalize_resources-ResourcesKept l [] =
      unfold normalize_resources in record { reached = here; same = refl; again = λ l' r. refl }
  normalize_resources-ResourcesKept l (none ∷ rest) =
      let ih = normalize_resources-ResourcesKept l rest in
      rw (normalize_resources-skip l rest) (record {
        reached = ih.reached;
        same = ap (λ t. none ∷ t) ih.same;
        again = λ l' r.
            normalize_resources-skip l' _
            ∙ ap (λ (p : Ledger × List (Option Resource)). (p.0, none ∷ p.1)) (ih.again l' r);
      })
  normalize_resources-ResourcesKept l (some r ∷ rest) =
      let t : Text =
        normalized_symbol is_letter l namespace_resource r.label r.id none r.code_name in
      let l₁ = refreeze_to is_letter l namespace_resource r.code_name t r.id in
      let fk = normalize_fields-FieldsKept (field_namespace r.id) l₁ r.fields in
      let l₂ = (normalize_fields is_letter (field_namespace r.id) l₁ r.fields).0 in
      let ih = normalize_resources-ResourcesKept l₂ rest in
      let reached =
        Reach-trans (refreeze_to-Reach is_letter l namespace_resource r.label r.id none r.code_name)
          (Reach-trans fk.reached ih.reached) in
      rw (normalize_resources-cons l r rest) (record {
        reached = reached;
        same = λ i. some (record r { code_name = []; fields = fk.same i }) ∷ ih.same i;
        again = λ l' q.
            resources_again l l' r t _ _ (Reach-trans reached q) refl
              (fk.again l' (Reach-trans ih.reached q)) (ih.again l' q);
      })
