-- ===== src/Graph.antt =====
-- The data of internal/compiler/graph/graph.go: the domain graph that the generators walk. A pointer to
-- a resource, or to a page, is its position in the graph; a pointer to a field is the position of its
-- resource and its own among the fields of that.
pub mod Views
pub mod Build
pub mod Links
pub mod Served
pub mod Linked
pub mod Resources
pub mod Stages
pub mod Built
use gombit_forge.Prelude.{
  ℕ, zero, suc, ◌+◌, Bool, true, false, ◌&&◌, Option, none, some, List, [], ◌∷◌, Text, nat_beq,
}
use gombit_forge.Prelude.Assoc.{Assoc}
use gombit_forge.StableId.{StableId}
use gombit_forge.ProjectSpec.{
  ProjectSpec, Resource as ResourceSpec, Field as FieldSpec, ResourceBehavior, Page as PageSpec,
  DashboardCard, AggregateCard as AggregateCardSpec, NavItem,
}

pub record FieldRef : Type 0 where
  pub owner : ℕ
  pub index : ℕ

pub record Relationship : Type 0 where
  pub field : FieldRef
  pub from : ℕ
  pub to : ℕ

pub record Field : Type 0 where
  pub spec : FieldSpec
  pub owner : ℕ
  pub relationship : Option Relationship

pub record Behavior : Type 0 where
  pub spec : Option ResourceBehavior
  pub list : List FieldRef
  pub searchable : List FieldRef
  pub sortable : List FieldRef
  pub filterable : List FieldRef
  pub aggregatable : List FieldRef

pub record Resource : Type 0 where
  pub spec : ResourceSpec
  pub fields : List Field
  pub belongs_to : List Relationship
  pub has_many : List Relationship
  pub behavior : Behavior
  pub by_field_id : Assoc StableId FieldRef

pub record Card : Type 0 where
  pub spec : DashboardCard
  pub resource : Option ℕ
  pub order_by : Option FieldRef

pub record AggregateCard : Type 0 where
  pub spec : AggregateCardSpec
  pub resource : Option ℕ
  pub field : Option FieldRef

pub record Page : Type 0 where
  pub spec : PageSpec
  pub resource : Option ℕ
  pub columns : List FieldRef
  pub filters : List FieldRef
  pub form_fields : List FieldRef
  pub count_cards : List Card
  pub recent_lists : List Card
  pub aggregate_cards : List AggregateCard

pub record NavEntry : Type 0 where
  pub spec : NavItem
  pub page : Option ℕ

pub record Graph : Type 0 where
  pub spec : ProjectSpec
  pub resources : List Resource
  pub pages : List Page
  pub navigation : List NavEntry
  pub by_resource_id : Assoc StableId ℕ
  pub by_page_id : Assoc StableId ℕ
  pub by_field_id : Assoc StableId FieldRef

-- What a pointer leads to, if the graph has it.
abbrev pub get_elem? {ℓ} : {A : Type ℓ} → List A → ℕ → Option A
get_elem? [] k = none
get_elem? (x ∷ xs) zero = some x
get_elem? (x ∷ xs) (suc k) = get_elem? xs k

-- A write through a pointer.
abbrev pub modify {ℓ} : {A : Type ℓ} → (A → A) → List A → ℕ → List A
modify f [] k = []
modify f (x ∷ xs) zero = f x ∷ xs
modify f (x ∷ xs) (suc k) = x ∷ modify f xs k
