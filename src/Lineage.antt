-- ===== src/Lineage.antt =====
-- internal/spec/lineage.go: does the identity of resources and fields go on from a prior spec?
pub mod Continuity
use gombit_forge.Prelude.{
  ℕ, Bool, true, false, not, ◌&&◌, Option, none, some, List, [], ◌∷◌, ◌++◌, map, keep, contains,
  length, ltb, ◌==◌, text_eq, Text,
}
use gombit_forge.StableId.{StableId, Kind, kind_resource, kind_field}
use gombit_forge.ProjectSpec.{ProjectSpec, Resource, Field}

pub record IdentityRef : Type 0 where
  pub id : StableId
  pub kind : Kind
  pub label : Text
  pub storage : Text

pub record Lineage : Type 0 where
  pub removed : List IdentityRef
  pub added : List IdentityRef

unfoldable pub is_discontinuous : Lineage → Bool
is_discontinuous l = ltb 0 (length l.removed) && ltb 0 (length l.added)

-- The loop over the fields of a resource.
unfoldable pub field_refs : List (Option Field) → List IdentityRef
field_refs [] = []
field_refs (none ∷ rest) = field_refs rest
field_refs (some f ∷ rest) =
    record { id = f.id; kind = kind_field; label = f.label; storage = f.storage_name }
    ∷ field_refs rest

unfoldable pub resource_refs : List (Option Resource) → List IdentityRef
unfolding field_refs
resource_refs [] = []
resource_refs (none ∷ rest) = resource_refs rest
resource_refs (some r ∷ rest) =
    record { id = r.id; kind = kind_resource; label = r.label; storage = r.storage_name }
    ∷ (field_refs r.fields ++ resource_refs rest)

-- `schemaIdentities`; a nil spec has none.
unfoldable pub schema_identities : Option ProjectSpec → List IdentityRef
unfolding resource_refs
schema_identities none = []
schema_identities (some s) = resource_refs s.resources

abbrev pub ids : List IdentityRef → List StableId
ids [] = []
ids (ref ∷ refs) = ref.id ∷ ids refs

-- The references whose ID is not in `idSet(others)`.
missing_from : List IdentityRef → List IdentityRef → List IdentityRef
missing_from others = keep (λ ref. not (contains ref.id (ids others)))

unfoldable pub check_lineage : Option ProjectSpec → Option ProjectSpec → Lineage
unfolding missing_from
check_lineage prior current =
    let prior_refs = schema_identities prior in
    let current_refs = schema_identities current in
    record {
      removed = missing_from current_refs prior_refs;
      added = missing_from prior_refs current_refs;
    }
