-- ===== src/ProjectSpec.antt =====
-- internal/spec/spec.go: the declarative description of an application. A pointer is an `Option`,
-- nil being `none`; a nil slice and an empty one are one list. A text outside an enumeration is its
-- last constructor.
pub mod Codec
use gombit_forge.Prelude.{
  ℕ, Bool, true, false, not, ◌&&◌, Option, none, some, List, [], ◌∷◌, if◌then◌else◌, ◌==◌, text_eq,
  Text,
}
use gombit_forge.Prelude.Int.{ℤ, pos}
use gombit_forge.StableId.{StableId}

abbrev pub spec_version_number : ℤ
spec_version_number = pos 1

pub data FieldType : Type 0 where
  string text integer decimal boolean datetime date enum belongs_to : FieldType
  other_type : Text → FieldType

abbrev pub field_types : List FieldType
field_types = string ∷ text ∷ integer ∷ decimal ∷ boolean ∷ datetime ∷ date ∷ enum ∷ belongs_to ∷ []

abbrev pub is_valid_type : FieldType → Bool
is_valid_type (other_type _) = false
is_valid_type _ = true

abbrev pub is_belongs_to : FieldType → Bool
is_belongs_to belongs_to = true
is_belongs_to _ = false

abbrev pub is_scalar : FieldType → Bool
is_scalar t = is_valid_type t && not (is_belongs_to t)

pub data DatabaseDriver : Type 0 where
  postgres sqlite mysql : DatabaseDriver
  other_driver : Text → DatabaseDriver

pub data AuthMode : Type 0 where
  cookie jwt : AuthMode
  other_mode : Text → AuthMode

pub data PageType : Type 0 where
  resource_table resource_form resource_detail dashboard_page : PageType
  other_page : Text → PageType

pub data HookEvent : Type 0 where
  before_create after_create before_update after_update before_delete after_delete : HookEvent
  other_event : Text → HookEvent

abbrev pub is_valid_event : HookEvent → Bool
is_valid_event (other_event _) = false
is_valid_event _ = true

pub data AggregateOp : Type 0 where
  sum avg min_of max_of : AggregateOp
  other_op : Text → AggregateOp

abbrev pub is_valid_op : AggregateOp → Bool
is_valid_op (other_op _) = false
is_valid_op _ = true

pub data NavTarget : Type 0 where
  page_target external_target : NavTarget
  other_target : Text → NavTarget

pub record EnumValue : Type 0 where
  pub value : Text
  pub label : Text

pub record Field : Type 0 where
  pub id : StableId
  pub label : Text
  pub type : FieldType
  pub code_name : Text
  pub storage_name : Text
  pub required : Bool
  pub unique : Bool
  pub index : Bool
  pub default : Option Text
  pub enum_values : List EnumValue
  pub target : StableId
  pub inverse_label : Text

pub record Hook : Type 0 where
  pub id : StableId
  pub event : HookEvent

pub record ResourceBehavior : Type 0 where
  pub create_enabled : Bool
  pub update_enabled : Bool
  pub delete_enabled : Bool
  pub admin_visible : Bool
  pub list_fields : List StableId
  pub searchable_fields : List StableId
  pub sortable_fields : List StableId
  pub filterable_fields : List StableId
  pub aggregatable_fields : List StableId

pub record Resource : Type 0 where
  pub id : StableId
  pub label : Text
  pub label_plural : Text
  pub code_name : Text
  pub storage_name : Text
  pub fields : List (Option Field)
  pub behavior : ResourceBehavior
  pub hooks : List (Option Hook)

pub record TableConfig : Type 0 where
  pub title : Text
  pub columns : List StableId
  pub search : Bool
  pub filters : List StableId
  pub page_size : ℤ

pub record FormConfig : Type 0 where
  pub layout : Text
  pub fields : List StableId

pub record AggregateCard : Type 0 where
  pub label : Text
  pub resource : StableId
  pub field : StableId
  pub op : AggregateOp

pub record DashboardCard : Type 0 where
  pub label : Text
  pub resource : StableId
  pub limit : ℤ
  pub order_by : StableId

pub record DashboardConfig : Type 0 where
  pub count_cards : List DashboardCard
  pub recent_lists : List DashboardCard
  pub aggregate_cards : List AggregateCard

pub record Page : Type 0 where
  pub id : StableId
  pub slug : Text
  pub label : Text
  pub type : PageType
  pub resource : StableId
  pub table : Option TableConfig
  pub form : Option FormConfig
  pub dashboard : Option DashboardConfig

pub record NavItem : Type 0 where
  pub id : StableId
  pub label : Text
  pub target : NavTarget
  pub page : StableId
  pub url : Text

pub record Branding : Type 0 where
  pub app_name : Text
  pub logo_ref : Text
  pub accent_color : Text
  pub appearance : Text

pub record Project : Type 0 where
  pub id : StableId
  pub name : Text
  pub slug : Text
  pub label : Text

pub record ProjectSpec : Type 0 where
  pub spec_version : ℤ
  pub project : Project
  pub database : DatabaseDriver
  pub auth : AuthMode
  pub resources : List (Option Resource)
  pub pages : List (Option Page)
  pub navigation : List (Option NavItem)
  pub branding : Option Branding

-- The loop of `FindResource`, and so of `FindPage` and `FindField` below.
unfoldable pub find_resource_in : List (Option Resource) → StableId → Option Resource
find_resource_in [] id = none
find_resource_in (none ∷ rest) id = find_resource_in rest id
find_resource_in (some r ∷ rest) id = if r.id == id then some r else find_resource_in rest id

abbrev pub find_resource : ProjectSpec → StableId → Option Resource
find_resource s id = find_resource_in s.resources id

unfoldable pub find_page_in : List (Option Page) → StableId → Option Page
find_page_in [] id = none
find_page_in (none ∷ rest) id = find_page_in rest id
find_page_in (some p ∷ rest) id = if p.id == id then some p else find_page_in rest id

abbrev pub find_page : ProjectSpec → StableId → Option Page
find_page s id = find_page_in s.pages id

unfoldable pub find_field_in : List (Option Field) → StableId → Option Field
find_field_in [] id = none
find_field_in (none ∷ rest) id = find_field_in rest id
find_field_in (some f ∷ rest) id = if f.id == id then some f else find_field_in rest id

abbrev pub find_field : Resource → StableId → Option Field
find_field r id = find_field_in r.fields id

abbrev pub hook_events : List HookEvent
hook_events =
    before_create ∷ after_create ∷ before_update ∷ after_update ∷ before_delete ∷ after_delete ∷ []
