-- ===== src/Refactor/Drift.antt =====
-- `NormalizeIdentifiers` of internal/spec/refactor.go: the batch form of a refactor.
pub mod Identity
pub mod Target
pub mod Outcome
use gombit_forge.Prelude.{
  ℕ, zero, suc, ◌+◌, Bool, true, false, Option, none, some, List, [], ◌∷◌, if◌then◌else◌, ◌==◌,
  text_eq, Text,
}
use gombit_forge.Prelude.Result.{Result, ok, err, ◌>>=◌}
use gombit_forge.Names.{is_reserved_code_name}
use gombit_forge.Normalize.{normalize}
use gombit_forge.StableId.{StableId, kind_of}
use gombit_forge.Ledger.{Ledger, Namespace, namespace_resource, field_namespace}
use gombit_forge.Mint.{kind_fallback, or_text, candidate, is_blocked, max_mint_attempts}
use gombit_forge.ProjectSpec.{ProjectSpec, Resource, Field}
use gombit_forge.ProjectSpec.Codec.{JsonCodec, clone}
use gombit_forge.Refactor.{RefactorError, refreeze, cloned}

-- The loop of `normalizedSymbol` with `rounds` left.
unfoldable pub target_loop : Ledger → Namespace → Option (Text → Bool) → Text → Text → ℕ → ℕ → Text
target_loop l ns reserved base current zero n = current
target_loop l ns reserved base current (suc rounds) n = elim (candidate base n == current) [
  | true ↦ current
  | false ↦ elim (is_blocked l ns reserved (candidate base n)) [
    | true ↦ target_loop l ns reserved base current rounds (n + 1)
    | false ↦ candidate base n
  ]
]

module _ (is_letter : ℕ → Bool) where
  unfoldable pub normalized_symbol :
      Ledger → Namespace → Text → StableId → Option (Text → Bool) → Text → Text
  normalized_symbol l ns label entity reserved current =
      let base = or_text (kind_fallback (kind_of entity)) (normalize is_letter label) in
      if base == [] then current else target_loop l ns reserved base current max_mint_attempts 1

  -- The ledger after `if target != code_name { refreeze }`.
  unfoldable pub refreeze_to : Ledger → Namespace → Text → Text → StableId → Ledger
  refreeze_to l ns current target entity =
      if target == current then l else refreeze l ns current target entity

  -- The loop over the fields of one resource.
  unfoldable pub normalize_fields :
      Namespace → Ledger → List (Option Field) → Ledger × List (Option Field)
  normalize_fields ns l [] = (l, [])
  normalize_fields ns l (none ∷ rest) =
      let (l', rest') = normalize_fields ns l rest in (l', none ∷ rest')
  normalize_fields ns l (some f ∷ rest) =
      let target = normalized_symbol l ns f.label f.id (some is_reserved_code_name) f.code_name in
      let (l', rest') = normalize_fields ns (refreeze_to l ns f.code_name target f.id) rest in
      (l', some (record f { code_name = target }) ∷ rest')

  -- The loop over the resources.
  unfoldable pub normalize_resources :
      Ledger → List (Option Resource) → Ledger × List (Option Resource)
  unfolding normalize_fields
  normalize_resources l [] = (l, [])
  normalize_resources l (none ∷ rest) =
      let (l', rest') = normalize_resources l rest in (l', none ∷ rest')
  normalize_resources l (some r ∷ rest) =
      let target = normalized_symbol l namespace_resource r.label r.id none r.code_name in
      let l₁ = refreeze_to l namespace_resource r.code_name target r.id in
      let (l₂, fields) = normalize_fields (field_namespace r.id) l₁ r.fields in
      let (l₃, rest') = normalize_resources l₂ rest in
      (l₃, some (record r { code_name = target; fields = fields }) ∷ rest')

  abbrev pub normalize_copy : Ledger → ProjectSpec → ProjectSpec × Ledger
  normalize_copy l copy =
      let (l', resources) = normalize_resources l copy.resources in
      (record copy { resources = resources }, l')

  unfoldable pub normalize_identifiers :
      JsonCodec → ProjectSpec → Ledger → Result RefactorError (ProjectSpec × Ledger)
  unfolding normalize_resources
  normalize_identifiers codec s ledger =
      cloned (clone codec s) >>= λ copy. ok (normalize_copy ledger copy)
