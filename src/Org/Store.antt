-- ===== src/Org/Store.antt =====
-- controlplane/internal/org/{service,models}.go: the tables and the calls on them. Parameters are
-- `strings.ToLower`, the hash of a token and Gombit's users table. `fault` tells that the database
-- fails the call, which then changes nothing. Times are in nanoseconds; the names that the code wraps
-- around an unexpected error, and the times of creation, are left out.
pub mod Grants
pub mod Rows
pub mod Accepted
pub mod Inherited
use gombit_forge.Prelude.{
  ℕ, suc, ◌+◌, ◌*◌, Bool, true, false, not, ◌&&◌, ◌||◌, Option, none, some, List, [], ◌∷◌, ◌++◌,
  any, keep, is_some, ltb, if◌then◌else◌, nat_beq, ◌==◌, text_eq, Text, map,
}
use gombit_forge.Prelude.Result.{Result, ok, err, ◌>>=◌}
use gombit_forge.Prelude.Space.{trim_space}
use gombit_forge.Org.Roles.{
  Role, role_owner, is_valid_role, Capability, cap_members_invite, can, can_grant,
}

pub data OrgError : Type 0 where
  forbidden not_member invitation_invalid already_member invalid_role role_exceeds_granter :
      OrgError
  invitation_pending storage : OrgError

pub record Organization : Type 0 where
  pub id : ℕ
  pub name : Text
  pub slug : Text

pub record Member : Type 0 where
  pub organization_id : ℕ
  pub user_id : ℕ
  pub role : Role

pub record Invitation : Type 0 where
  pub organization_id : ℕ
  pub email : Text
  pub role : Role
  pub token_hash : Text
  pub invited_by : ℕ
  pub expires_at : ℕ
  pub accepted_at : Option ℕ

pub record AuditEvent : Type 0 where
  pub organization_id : ℕ
  pub actor_user_id : ℕ
  pub target_id : Text

pub record Tables : Type 0 where
  pub next_org : ℕ
  pub organizations : List Organization
  pub members : List Member
  pub invitations : List Invitation
  pub audit : List AuditEvent

abbrev pub default_invitation_ttl : ℕ
default_invitation_ttl = 7 * 24 * 3600 * 1000000000

abbrev pub is_membership : ℕ → ℕ → Member → Bool
is_membership org user m = nat_beq m.organization_id org && nat_beq m.user_id user

unfoldable pub role_in : List Member → ℕ → ℕ → Option Role
role_in [] org user = none
role_in (m ∷ rest) org user =
    if is_membership org user m then some m.role else role_in rest org user

pub member_role : Bool → Tables → ℕ → ℕ → Result OrgError (Option Role)
unfolding role_in
member_role fault t org user = if fault then err storage else ok (role_in t.members org user)

-- Both rows or none; the slug is unique.
pub create_organization : Bool → Text → Text → ℕ → Tables → Result OrgError Organization × Tables
create_organization fault name slug creator t =
    if fault || any (λ (o : Organization). o.slug == slug) t.organizations
    then (err storage, t)
    else let o : Organization = record { id = t.next_org; name = name; slug = slug } in
      (
        ok o,
        record t {
          next_org = suc t.next_org;
          organizations = t.organizations ++ o ∷ [];
          members =
              t.members
              ++ record { organization_id = o.id; user_id = creator; role = role_owner } ∷ [];
        },
      )

abbrev pub permitted : Capability → Option Role → Result OrgError Role
permitted capability none = err not_member
permitted capability (some role) = if can role capability then ok role else err forbidden

-- The inner `authorize`, that `Authorize` and `AuthorizeGrant` share.
pub authorize : Bool → Tables → ℕ → ℕ → Capability → Result OrgError Role
unfolding member_role
authorize fault t org user capability = member_role fault t org user >>= permitted capability

unfoldable pub authorize_grant : Bool → Tables → ℕ → ℕ → Capability → Role → Result OrgError Role
unfolding authorize
authorize_grant fault t org user capability target =
    authorize fault t org user capability >>= λ role.
    if can_grant role target then ok role else err role_exceeds_granter

-- A row that the partial index on (organization, email) covers.
abbrev pub is_pending : ℕ → Text → Invitation → Bool
is_pending org email inv =
    nat_beq inv.organization_id org && (inv.email == email) && not (is_some inv.accepted_at)

pub pending_role : List Invitation → ℕ → Text → Option Role
pending_role [] org email = none
pending_role (inv ∷ rest) org email =
    if is_pending org email inv then some inv.role else pending_role rest org email

-- Superseding a pending invitation is bounded as making one is.
abbrev pub may_supersede : Role → Option Role → Bool
may_supersede inviter none = true
may_supersede inviter (some role) = can_grant inviter role

module _ (to_lower : Text → Text) (hash : Text → Text) (has_email : ℕ → Text → Bool) where
  abbrev pub normalize_email : Text → Text
  normalize_email email = to_lower (trim_space email)

  abbrev pub user_by_email_is_member : Tables → ℕ → Text → Bool
  user_by_email_is_member t org email =
      any
        (λ (m : Member).
          nat_beq m.organization_id org && has_email m.user_id (normalize_email email))
        t.members

  -- The transaction of `InviteMember`, for the address as normalized.
  pub invite_in :
      Bool → ℕ → ℕ → Text → Role → Role → ℕ → Text → Tables → Result OrgError Invitation × Tables
  unfolding pending_role
  invite_in fault org inviter email inviter_role role now token t =
      let inv : Invitation = record {
        organization_id = org;
        email = email;
        role = role;
        token_hash = hash token;
        invited_by = inviter;
        expires_at = now + default_invitation_ttl;
        accepted_at = none;
      } in
      let kept = keep (λ i. not (is_pending org email i)) t.invitations in
      if fault
      then (err storage, t)
      else if not (may_supersede inviter_role (pending_role t.invitations org email))
      then (err role_exceeds_granter, t)
      else if any (λ (i : Invitation). i.token_hash == hash token) kept
      then (err invitation_pending, t)
      else (
        ok inv,
        record t {
          invitations = kept ++ inv ∷ [];
          audit =
              t.audit
              ++ record { organization_id = org; actor_user_id = inviter; target_id = email } ∷ [];
        },
      )

  abbrev pub invite_as :
      Bool
      → ℕ
      → ℕ
      → Text
      → Role
      → ℕ
      → Text
      → Tables
      → Result OrgError Role
      → Result OrgError Invitation × Tables
  invite_as fault org inviter email role now token t (err e) = (err e, t)
  invite_as fault org inviter email role now token t (ok inviter_role) =
      if user_by_email_is_member t org email
      then (err already_member, t)
      else invite_in fault org inviter email inviter_role role now token t

  -- `token` is the fresh token, that is returned beside the invitation.
  pub invite_member :
      Bool → ℕ → ℕ → Text → Role → ℕ → Text → Tables → Result OrgError Invitation × Tables
  unfolding invite_in authorize_grant
  invite_member fault org inviter email role now token t =
      if not (is_valid_role role)
      then (err invalid_role, t)
      else invite_as fault org inviter (normalize_email email) role now token t
          (authorize_grant fault t org inviter cap_members_invite role)

  abbrev pub is_redeemable : Text → ℕ → Invitation → Bool
  is_redeemable token now inv =
      (inv.token_hash == hash token) && not (is_some inv.accepted_at) && ltb now inv.expires_at

  pub redeemable : List Invitation → Text → ℕ → Option Invitation
  redeemable [] token now = none
  redeemable (inv ∷ rest) token now =
      if is_redeemable token now inv then some inv else redeemable rest token now

  -- UPDATE of the row that the lookup found: the token's hash is unique.
  abbrev pub accepted_row : Invitation → ℕ → Invitation → Invitation
  accepted_row inv now i =
      if i.token_hash == inv.token_hash then record i { accepted_at = some now } else i

  abbrev pub accept_found :
      Text → ℕ → ℕ → Tables → Option Invitation → Result OrgError Member × Tables
  accept_found email user now t none = (err invitation_invalid, t)
  accept_found email user now t (some inv) =
      if not (normalize_email email == inv.email)
      then (err invitation_invalid, t)
      else if is_some (role_in t.members inv.organization_id user)
      then (err storage, t)
      else let member : Member = record {
        organization_id = inv.organization_id;
        user_id = user;
        role = inv.role;
      } in
        (
          ok member,
          record t {
            members = t.members ++ member ∷ [];
            invitations = map (accepted_row inv now) t.invitations;
          },
        )

  unfoldable pub accept_invitation :
      Bool → Text → Text → ℕ → ℕ → Tables → Result OrgError Member × Tables
  unfolding redeemable
  accept_invitation fault token email user now t =
      if fault
      then (err storage, t)
      else accept_found email user now t (redeemable t.invitations token now)
