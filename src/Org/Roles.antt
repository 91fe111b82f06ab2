-- ===== src/Org/Roles.antt =====
-- controlplane/internal/org/roles.go: the capability matrix and the rank of roles. A text outside an
-- enumeration is its last constructor.
pub mod Escalation
use gombit_forge.Prelude.{ℕ, Bool, true, false, not, ◌&&◌, ◌||◌, leb, if◌then◌else◌, Text}

pub data Role : Type 0 where
  role_owner role_admin role_member : Role
  other_role : Text → Role

-- `Role.Valid`
abbrev pub is_valid_role : Role → Bool
is_valid_role (other_role _) = false
is_valid_role _ = true

pub data Capability : Type 0 where
  cap_members_view cap_members_invite cap_project_view cap_project_create cap_project_edit :
      Capability
  other_capability : Text → Capability

abbrev pub admin_capabilities : Capability → Bool
admin_capabilities (other_capability _) = false
admin_capabilities _ = true

abbrev pub member_capabilities : Capability → Bool
member_capabilities cap_members_view = true
member_capabilities cap_project_view = true
member_capabilities cap_project_create = true
member_capabilities cap_project_edit = true
member_capabilities _ = false

-- The map `capabilities`, and the lookup in it that `Can` is.
unfoldable pub can : Role → Capability → Bool
can role_owner capability = admin_capabilities capability
can role_admin capability = admin_capabilities capability
can role_member capability = member_capabilities capability
can (other_role _) capability = false

abbrev pub rank : Role → ℕ
rank role_owner = 3
rank role_admin = 2
rank role_member = 1
rank (other_role _) = 0

unfoldable pub can_grant : Role → Role → Bool
can_grant granter target =
    if not (is_valid_role granter) || not (is_valid_role target)
    then false
    else leb (rank target) (rank granter)
