-- ===== src/Refactor/Rename.antt =====
-- What `setCodeName` does to the lists of resources and fields.
use mathlib.Core.Option
use gombit_forge.Prelude.{
  ◌≡◌, refl, sym, ap, ◌∙◌, true, Option, none, some, List, [], ◌∷◌, arith, Option-cases, inl, inr,
  text_eq, Text, is_some,
}
use gombit_forge.Prelude.Result.{ok, ok-injective}
use gombit_forge.Names.{is_reserved_code_name}
use gombit_forge.StableId.{StableId}
use gombit_forge.Ledger.{field_namespace}
use gombit_forge.ProjectSpec.{Resource, Field, find_resource_in, find_field, find_field_in}
use gombit_forge.Refactor.{
  SymbolLocation, or_next, locate_field, set_field_code_in, set_resource_code, set_field_code,
  has_field,
}

field_current :
    (id : StableId) (r : Resource) (rs : List (Option Resource)) (f : Field) (loc : SymbolLocation)
    → find_field r id ≡ some f
    → locate_field (some r ∷ rs) id ≡ ok loc
    → f.code_name ≡ loc.current
unfolding locate_field
field_current id r rs f loc found h =
    ap (λ (x : SymbolLocation). x.current)
      (ok-injective _ loc
        (sym (ap (λ o. or_next (field_namespace r.id) o (locate_field rs id)) found) ∙ h))

field_later :
    (id : StableId) (r : Resource) (rs : List (Option Resource)) (loc : SymbolLocation)
    → find_field r id ≡ none
    → locate_field (some r ∷ rs) id ≡ ok loc
    → locate_field rs id ≡ ok loc
unfolding locate_field
field_later id r rs loc missing h =
    sym (ap (λ o. or_next (field_namespace r.id) o (locate_field rs id)) missing) ∙ h

module _ (id : StableId) (new : Text) where
  pub find_resource-set_resource_code :
      (rs : List (Option Resource))
      → is_some (find_resource_in (set_resource_code rs id new) id)
        ≡ is_some (find_resource_in rs id)
  unfolding find_resource_in set_resource_code
  find_resource-set_resource_code [] = refl
  find_resource-set_resource_code (none ∷ rs) = find_resource-set_resource_code rs
  find_resource-set_resource_code (some r ∷ rs) = ground (arith, find_resource-set_resource_code rs)

  pub set_resource_code_back :
      (rs : List (Option Resource)) (r : Resource)
      → find_resource_in rs id ≡ some r
      → set_resource_code (set_resource_code rs id new) id r.code_name ≡ rs
  unfolding find_resource_in set_resource_code
  set_resource_code_back [] r h = refl
  set_resource_code_back (none ∷ rs) r h = ap (λ t. none ∷ t) (set_resource_code_back rs r h)
  set_resource_code_back (some x ∷ rs) r h = ground (arith, set_resource_code_back rs r)

  find_field-set_field_code_in :
      (fs : List (Option Field))
      → is_some (find_field_in (set_field_code_in fs id new) id) ≡ is_some (find_field_in fs id)
  unfolding find_field_in set_field_code_in
  find_field-set_field_code_in [] = refl
  find_field-set_field_code_in (none ∷ fs) = find_field-set_field_code_in fs
  find_field-set_field_code_in (some f ∷ fs) = ground (arith, find_field-set_field_code_in fs)

  set_field_code_in_back :
      (fs : List (Option Field)) (f : Field)
      → find_field_in fs id ≡ some f
      → set_field_code_in (set_field_code_in fs id new) id f.code_name ≡ fs
  unfolding find_field_in set_field_code_in
  set_field_code_in_back [] f h = refl
  set_field_code_in_back (none ∷ fs) f h = ap (λ t. none ∷ t) (set_field_code_in_back fs f h)
  set_field_code_in_back (some x ∷ fs) f h = ground (arith, set_field_code_in_back fs f)

  pub find_resource-set_field_code :
      (rs : List (Option Resource))
      → is_some (find_resource_in (set_field_code rs id new) id) ≡ is_some (find_resource_in rs id)
  unfolding find_resource_in set_field_code
  find_resource-set_field_code [] = refl
  find_resource-set_field_code (none ∷ rs) = find_resource-set_field_code rs
  find_resource-set_field_code (some r ∷ rs) = ground (arith, find_resource-set_field_code rs)

  pub has_field-set_field_code :
      (rs : List (Option Resource)) → has_field (set_field_code rs id new) id ≡ has_field rs id
  unfolding has_field set_field_code
  has_field-set_field_code [] = refl
  has_field-set_field_code (none ∷ rs) = has_field-set_field_code rs
  has_field-set_field_code (some r ∷ rs) =
      ground (arith, find_field-set_field_code_in r.fields, has_field-set_field_code rs)

  pub set_field_code_back :
      (rs : List (Option Resource)) (loc : SymbolLocation)
      → locate_field rs id ≡ ok loc
      → set_field_code (set_field_code rs id new) id loc.current ≡ rs
  unfolding locate_field set_field_code
  set_field_code_back [] loc h = refl
  set_field_code_back (none ∷ rs) loc h = ap (λ t. none ∷ t) (set_field_code_back rs loc h)
  set_field_code_back (some r ∷ rs) loc h = elim (Option-cases (find_field r id)) [
    | inl (f, found) ↦
        let same : f.code_name ≡ loc.current = field_current id r rs f loc found h in
        ground (
          arith,
          found,
          same,
          set_field_code_in_back r.fields f found,
          find_field-set_field_code_in r.fields,
        )
    | inr missing ↦
        ground (arith, missing, set_field_code_back rs loc (field_later id r rs loc missing h))
  ]

-- What the finders find once a symbol is set: the entity, with the symbol.
module _ (id : StableId) (new : Text) where
  pub found-set_resource_code :
      (rs : List (Option Resource))
      → find_resource_in (set_resource_code rs id new) id
        ≡ Option.map (λ (r : Resource). record r { code_name = new }) (find_resource_in rs id)
  unfolding find_resource_in set_resource_code
  found-set_resource_code [] = refl
  found-set_resource_code (none ∷ rs) = found-set_resource_code rs
  found-set_resource_code (some r ∷ rs) = ground (arith, found-set_resource_code rs)

  found-set_field_code_in :
      (fs : List (Option Field))
      → find_field_in (set_field_code_in fs id new) id
        ≡ Option.map (λ (f : Field). record f { code_name = new }) (find_field_in fs id)
  unfolding find_field_in set_field_code_in
  found-set_field_code_in [] = refl
  found-set_field_code_in (none ∷ fs) = found-set_field_code_in fs
  found-set_field_code_in (some f ∷ fs) = ground (arith, found-set_field_code_in fs)

  abbrev pub renamed_location : SymbolLocation → SymbolLocation
  renamed_location loc = record loc { current = new }

  locate_field-here :
      (r : Resource) (rs : List (Option Resource)) (f : Field) (loc : SymbolLocation)
      → find_field r id ≡ some f
      → locate_field (some r ∷ rs) id ≡ ok loc
      → locate_field (set_field_code (some r ∷ rs) id new) id ≡ ok (renamed_location loc)
  unfolding locate_field set_field_code
  locate_field-here r rs f loc found h =
      let there : is_some (find_field r id) ≡ true = ap is_some found in
      let named =
        found-set_field_code_in r.fields
        ∙ ap (Option.map (λ (f : Field). record f { code_name = new })) found in
      let same : record {
        namespace = field_namespace r.id;
        current = f.code_name;
        reserved = some is_reserved_code_name;
      }
          ≡ loc =
        ok-injective _ loc
          (sym (ap (λ o. or_next (field_namespace r.id) o (locate_field rs id)) found) ∙ h) in
      rw (there, named) (ap (λ l. ok (renamed_location l)) same)

  pub locate_field-set_field_code :
      (rs : List (Option Resource)) (loc : SymbolLocation)
      → locate_field rs id ≡ ok loc
      → locate_field (set_field_code rs id new) id ≡ ok (renamed_location loc)
  unfolding locate_field set_field_code
  locate_field-set_field_code [] loc h = cc
  locate_field-set_field_code (none ∷ rs) loc h = locate_field-set_field_code rs loc h
  locate_field-set_field_code (some r ∷ rs) loc h = elim (Option-cases (find_field r id)) [
    | inl (f, found) ↦ locate_field-here r rs f loc found h
    | inr missing ↦
        let later = locate_field-set_field_code rs loc (field_later id r rs loc missing h) in
        rw missing (rw missing later)
  ]

pub has_field-located :
    (id : StableId) (rs : List (Option Resource)) (loc : SymbolLocation)
    → locate_field rs id ≡ ok loc
    → has_field rs id ≡ true
unfolding locate_field has_field
has_field-located id [] loc h = cc
has_field-located id (none ∷ rs) loc h = has_field-located id rs loc h
has_field-located id (some r ∷ rs) loc h = elim (Option-cases (find_field r id)) [
  | inl (f, found) ↦ rw found refl
  | inr missing ↦ rw missing (has_field-located id rs loc (field_later id r rs loc missing h))
]
