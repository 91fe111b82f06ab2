-- ===== src/Refactor/Located.antt =====
-- `setCodeName` and `locateSymbol` of internal/spec/refactor.go on the spec before and after.
use mathlib.Core.Option
use gombit_forge.Prelude.{
  ◌≡◌, sym, ap, ◌∙◌, true, false, none, some, Bool-cases, Option-cases, inl, inr, ◌==◌, text_eq,
  text_beq_iff, Text, is_some,
}
use gombit_forge.Prelude.Result.{ok, err, ok-injective}
use gombit_forge.StableId.{StableId, kind_of, kind_resource, kind_field}
use gombit_forge.ProjectSpec.{ProjectSpec, Resource, find_resource}
use gombit_forge.Refactor.{
  SymbolLocation, no_symbol, locate_field, located, locate_symbol, set_resource_code,
  set_field_code, has_field, set_code_name,
}
use gombit_forge.Refactor.Rename.{
  find_resource-set_resource_code, set_resource_code_back, find_resource-set_field_code,
  has_field-set_field_code, has_field-located, set_field_code_back, found-set_resource_code,
  locate_field-set_field_code,
}

set_code_name-resource :
    (s : ProjectSpec) (id : StableId) (new : Text)
    → is_some (find_resource s id) ≡ true
    → set_code_name s id new ≡ ok (record s { resources = set_resource_code s.resources id new })
unfolding set_code_name
set_code_name-resource s id new h = rw h

set_code_name-field :
    (s : ProjectSpec) (id : StableId) (new : Text)
    → is_some (find_resource s id) ≡ false
    → has_field s.resources id ≡ true
    → set_code_name s id new ≡ ok (record s { resources = set_field_code s.resources id new })
unfolding set_code_name
set_code_name-field s id new h k = rw h (rw k)

-- The ID is not that of a resource, if it has the kind of a field.
abbrev pub KindsDiffer : ProjectSpec → StableId → Type 0
KindsDiffer s id = kind_of id ≡ kind_field → is_some (find_resource s id) ≡ false

located-current :
    (loc : SymbolLocation) (r : Resource) → located (some r) ≡ ok loc → loc.current ≡ r.code_name
unfolding located
located-current loc r h = ap (λ (x : SymbolLocation). x.current) (sym (ok-injective _ loc h))

located-none : (loc : SymbolLocation) → located none ≡ ok loc → ⊥
unfolding located
located-none loc h = cc

module _ (s : ProjectSpec) (id : StableId) (new : Text) (loc : SymbolLocation) where
  locate_symbol-resource :
      (kind_of id == kind_resource) ≡ true
      → locate_symbol s id ≡ ok loc
      → located (find_resource s id) ≡ ok loc
  unfolding locate_symbol
  locate_symbol-resource k h = rw k at h

  locate_symbol-field :
      (kind_of id == kind_resource) ≡ false
      → locate_symbol s id ≡ ok loc
      → ((kind_of id == kind_field) ≡ true) × (locate_field s.resources id ≡ ok loc)
  unfolding locate_symbol
  locate_symbol-field k h = elim (Bool-cases (kind_of id == kind_field)) [
    | inl field ↦ (field, rw field at (rw k at h))
    | inr other ↦ let e : err no_symbol ≡ ok loc = rw other at (rw k at h) in cc
  ]

  -- The spec with the symbol set: setting the old one again restores it, and the entity is located
  -- with the new one.
  abbrev pub Renamed : Type 0
  Renamed =
      (s' : ProjectSpec) × (set_code_name s id new ≡ ok s')
      × (set_code_name s' id loc.current ≡ ok s)
      × (locate_symbol s' id ≡ ok (record loc { current = new }))

  at_resource :
      (s' : ProjectSpec) (loc' : SymbolLocation)
      → (kind_of id == kind_resource) ≡ true
      → located (find_resource s' id) ≡ ok loc'
      → locate_symbol s' id ≡ ok loc'
  unfolding locate_symbol
  at_resource s' loc' k h = rw k h

  at_field :
      (s' : ProjectSpec) (loc' : SymbolLocation)
      → (kind_of id == kind_resource) ≡ false
      → (kind_of id == kind_field) ≡ true
      → locate_field s'.resources id ≡ ok loc'
      → locate_symbol s' id ≡ ok loc'
  unfolding locate_symbol
  at_field s' loc' other k h = rw other (rw k h)

  located-renamed :
      (r : Resource)
      → located (some r) ≡ ok loc
      → located (some (record r { code_name = new })) ≡ ok (record loc { current = new })
  unfolding located
  located-renamed r h =
      ap (λ (l : SymbolLocation). ok (record l { current = new })) (ok-injective _ loc h)

  located-back :
      (r : Resource)
      → (kind_of id == kind_resource) ≡ true
      → find_resource s id ≡ some r
      → located (some r) ≡ ok loc
      → Renamed
  located-back r kind found at_r =
      let s' : ProjectSpec = record s { resources = set_resource_code s.resources id new } in
      let there : is_some (find_resource s id) ≡ true = ap is_some found in
      let current = located-current loc r at_r in
      let named : find_resource s' id ≡ some (record r { code_name = new }) =
        found-set_resource_code id new s.resources
        ∙ ap (Option.map (λ (x : Resource). record x { code_name = new })) found in
      (
        s',
        set_code_name-resource s id new there,
        set_code_name-resource s' id loc.current
              (find_resource-set_resource_code id new s.resources ∙ there)
            ∙ rw current (
                ap (λ rs. ok (record s { resources = rs }))
                  (set_resource_code_back id new s.resources r found)),
        at_resource s' (record loc { current = new }) kind
            (ap located named ∙ located-renamed r at_r),
      )

  field-back :
      is_some (find_resource s id) ≡ false
      → (kind_of id == kind_resource) ≡ false
      → (kind_of id == kind_field) ≡ true
      → locate_field s.resources id ≡ ok loc
      → Renamed
  field-back absent other kind found =
      let s' : ProjectSpec = record s { resources = set_field_code s.resources id new } in
      let has : has_field s.resources id ≡ true = has_field-located id s.resources loc found in
      (
        s',
        set_code_name-field s id new absent has,
        set_code_name-field s' id loc.current
              (find_resource-set_field_code id new s.resources ∙ absent)
              (has_field-set_field_code id new s.resources ∙ has)
            ∙ ap (λ rs. ok (record s { resources = rs }))
                (set_field_code_back id new s.resources loc found),
        at_field s' (record loc { current = new }) other kind
            (locate_field-set_field_code id new s.resources loc found),
      )

  pub set_code_name_back : locate_symbol s id ≡ ok loc → KindsDiffer s id → Renamed
  set_code_name_back h differ = elim (Bool-cases (kind_of id == kind_resource)) [
    | inl resource ↦
        let e : located (find_resource s id) ≡ ok loc = locate_symbol-resource resource h in
        elim (Option-cases (find_resource s id)) [
          | inl (r, found) ↦ located-back r resource found (ap located (sym found) ∙ e)
          | inr missing ↦ absurd (located-none loc (ap located (sym missing) ∙ e))
        ]
    | inr other ↦
        let (field, e) = locate_symbol-field other h in
        field-back (differ ((text_beq_iff (kind_of id) kind_field).0 field)) other field e
  ]
