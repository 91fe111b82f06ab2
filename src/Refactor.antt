-- ===== src/Refactor.antt =====
-- internal/spec/refactor.go: explicit changes of frozen source symbols. The spec and the ledger are
-- there (the source refuses nil ones).
pub mod Freeze
pub mod Rename
pub mod Located
pub mod Outcome
pub mod Drift
use gombit_forge.Prelude.{
  ℕ, zero, suc, ◌+◌, Bool, true, false, not, ◌&&◌, ◌||◌, Option, none, some, List, [], ◌∷◌,
  if◌then◌else◌, is_some, ◌==◌, text_eq, Text,
}
use gombit_forge.Prelude.Result.{Result, ok, err, ◌>>=◌}
use gombit_forge.Names.{is_exported_go_ident, is_reserved_code_name}
use gombit_forge.Normalize.{normalize}
use gombit_forge.StableId.{StableId, kind_of, kind_resource, kind_field}
use gombit_forge.Ledger.{
  Ledger, LedgerError, Namespace, namespace_resource, field_namespace, is_free, is_live, tombstone,
  record_symbol,
}
use gombit_forge.Mint.{
  kind_fallback, or_text, candidate, is_blocked, is_reserved, max_mint_attempts,
}
use gombit_forge.ProjectSpec.{
  ProjectSpec, Resource, Field, find_resource, find_resource_in, find_field, find_field_in,
}
use gombit_forge.ProjectSpec.Codec.{JsonCodec, CodecError, clone}

pub data RefactorError : Type 0 where
  no_resource no_field no_symbol : RefactorError
  no_op not_exported reserved_symbol not_available : RefactorError
  not_cloned : CodecError → RefactorError
  no_entity : RefactorError

pub record SymbolLocation : Type 0 where
  pub namespace : Namespace
  pub current : Text
  pub reserved : Option (Text → Bool)

abbrev or_next :
    Namespace
    → Option Field
    → Result RefactorError SymbolLocation
    → Result RefactorError SymbolLocation
or_next ns none next = next
or_next ns (some f) next =
    ok (record { namespace = ns; current = f.code_name; reserved = some is_reserved_code_name })

-- The loop over the resources for a field.
pub locate_field : List (Option Resource) → StableId → Result RefactorError SymbolLocation
locate_field [] id = err no_field
locate_field (none ∷ rest) id = locate_field rest id
locate_field (some r ∷ rest) id =
    or_next (field_namespace r.id) (find_field r id) (locate_field rest id)

unfoldable pub located : Option Resource → Result RefactorError SymbolLocation
located none = err no_resource
located (some r) =
    ok (record { namespace = namespace_resource; current = r.code_name; reserved = none })

unfoldable pub locate_symbol : ProjectSpec → StableId → Result RefactorError SymbolLocation
unfolding locate_field located
locate_symbol s id =
    if kind_of id == kind_resource
    then located (find_resource s id)
    else if kind_of id == kind_field
    then locate_field s.resources id
    else err no_symbol

unfoldable pub validate_new_symbol :
    SymbolLocation → Text → Ledger → Result RefactorError (Unit {0})
validate_new_symbol loc new ledger =
    if new == loc.current
    then err no_op
    else if not (is_exported_go_ident new)
    then err not_exported
    else if is_reserved loc.reserved new
    then err reserved_symbol
    else if not (is_free ledger loc.namespace new)
    then err not_available
    else ok tt

-- The first field with the ID gets the symbol.
pub set_field_code_in : List (Option Field) → StableId → Text → List (Option Field)
set_field_code_in [] id symbol = []
set_field_code_in (none ∷ rest) id symbol = none ∷ set_field_code_in rest id symbol
set_field_code_in (some f ∷ rest) id symbol =
    if f.id == id
    then some (record f { code_name = symbol }) ∷ rest
    else some f ∷ set_field_code_in rest id symbol

-- The first resource with the ID gets the symbol.
unfoldable pub set_resource_code : List (Option Resource) → StableId → Text → List (Option Resource)
set_resource_code [] id symbol = []
set_resource_code (none ∷ rest) id symbol = none ∷ set_resource_code rest id symbol
set_resource_code (some r ∷ rest) id symbol =
    if r.id == id
    then some (record r { code_name = symbol }) ∷ rest
    else some r ∷ set_resource_code rest id symbol

-- The first resource that has the field changes it.
pub set_field_code : List (Option Resource) → StableId → Text → List (Option Resource)
unfolding set_field_code_in
set_field_code [] id symbol = []
set_field_code (none ∷ rest) id symbol = none ∷ set_field_code rest id symbol
set_field_code (some r ∷ rest) id symbol =
    if is_some (find_field r id)
    then some (record r { fields = set_field_code_in r.fields id symbol }) ∷ rest
    else some r ∷ set_field_code rest id symbol

unfoldable pub has_field : List (Option Resource) → StableId → Bool
has_field [] id = false
has_field (none ∷ rest) id = has_field rest id
has_field (some r ∷ rest) id = is_some (find_field r id) || has_field rest id

unfoldable pub set_code_name : ProjectSpec → StableId → Text → Result RefactorError ProjectSpec
unfolding set_resource_code set_field_code has_field
set_code_name s id symbol =
    if is_some (find_resource s id)
    then ok (record s { resources = set_resource_code s.resources id symbol })
    else if has_field s.resources id
    then ok (record s { resources = set_field_code s.resources id symbol })
    else err no_entity

-- The ledger after a call whose error is dropped.
abbrev pub or_same : Ledger → Result LedgerError Ledger → Ledger
or_same l (ok l') = l'
or_same l (err e) = l

unfoldable pub retire_old : Ledger → Namespace → Text → Ledger
retire_old l ns old =
    if not (old == []) && is_live l ns old then or_same l (tombstone l ns old) else l

unfoldable pub refreeze : Ledger → Namespace → Text → Text → StableId → Ledger
unfolding retire_old
refreeze l ns old new entity =
    let l' = retire_old l ns old in or_same l' (record_symbol l' ns new entity)

unfoldable pub cloned : Result CodecError ProjectSpec → Result RefactorError ProjectSpec
cloned (ok s) = ok s
cloned (err e) = err (not_cloned e)

unfoldable pub refactor_code_name :
    JsonCodec → ProjectSpec → Ledger → StableId → Text → Result RefactorError (ProjectSpec × Ledger)
unfolding cloned
refactor_code_name codec s ledger id new = do
  loc ← locate_symbol s id
  _ ← validate_new_symbol loc new ledger
  copy ← cloned (clone codec s)
  renamed ← set_code_name copy id new
  ok (renamed, refreeze ledger loc.namespace loc.current new id)
