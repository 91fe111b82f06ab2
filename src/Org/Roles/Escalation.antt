-- ===== src/Org/Roles/Escalation.antt =====
-- No chain of grants gives a role or a capability that its first granter does not have.
use gombit_forge.Prelude.{◌≡◌, refl, Bool, true, ◌&&◌, List, [], ◌∷◌, arith}
use gombit_forge.Org.Roles.{
  Role, role_owner, role_admin, role_member, other_role, Capability, cap_members_view,
  cap_members_invite, cap_project_view, cap_project_create, cap_project_edit, other_capability, can,
  can_grant,
}

-- Each role grants the next one.
abbrev pub is_grant_chain : Role → List Role → Bool
is_grant_chain first [] = true
is_grant_chain first (role ∷ rest) = can_grant first role && is_grant_chain role rest

abbrev pub last_of : Role → List Role → Role
last_of first [] = first
last_of first (role ∷ rest) = last_of role rest

pub can-can_grant :
    (granter target : Role) (capability : Capability)
    → can_grant granter target ≡ true
    → can target capability ≡ true
    → can granter capability ≡ true
unfolding can can_grant
can-can_grant role_owner role_owner c g h = h
can-can_grant role_owner role_admin c g h = h
can-can_grant role_owner role_member cap_members_invite g h = refl
can-can_grant role_owner role_member cap_members_view g h = refl
can-can_grant role_owner role_member cap_project_view g h = refl
can-can_grant role_owner role_member cap_project_create g h = refl
can-can_grant role_owner role_member cap_project_edit g h = refl
can-can_grant role_owner role_member (other_capability t) g h = h
can-can_grant role_owner (other_role t) c g h = cc
can-can_grant role_admin role_owner c g h = h
can-can_grant role_admin role_admin c g h = h
can-can_grant role_admin role_member cap_members_invite g h = refl
can-can_grant role_admin role_member cap_members_view g h = refl
can-can_grant role_admin role_member cap_project_view g h = refl
can-can_grant role_admin role_member cap_project_create g h = refl
can-can_grant role_admin role_member cap_project_edit g h = refl
can-can_grant role_admin role_member (other_capability t) g h = h
can-can_grant role_admin (other_role t) c g h = cc
can-can_grant role_member role_owner c g h = cc
can-can_grant role_member role_admin c g h = cc
can-can_grant role_member role_member c g h = h
can-can_grant role_member (other_role t) c g h = cc
can-can_grant (other_role t) target c g h = cc

pub can_grant_trans :
    (a b c : Role) → can_grant a b ≡ true → can_grant b c ≡ true → can_grant a c ≡ true
unfolding can_grant
can_grant_trans a b c g h = ground arith

-- Along a chain of grants of any length, the role that the chain ends in has no capability that the
-- first granter lacks.
pub can-is_grant_chain :
    (first : Role) (chain : List Role) (capability : Capability)
    → is_grant_chain first chain ≡ true
    → can (last_of first chain) capability ≡ true
    → can first capability ≡ true
can-is_grant_chain first [] capability chained h = h
can-is_grant_chain first (role ∷ rest) capability chained h =
    can-can_grant first role capability (ground arith)
      (can-is_grant_chain role rest capability (ground arith) h)
