-- ===== src/Examples/Orgs.antt =====
-- An organization with an owner and one pending invitation.
use gombit_forge.Prelude.{
  ℕ, ◌≡◌, refl, Bool, true, false, none, some, [], ◌∷◌, Text, text_beq, codes,
}
use gombit_forge.Prelude.Result.{ok}
use gombit_forge.Org.Roles.{role_owner, role_admin, role_member, cap_members_view, can, can_grant}
use gombit_forge.Org.Roles.Escalation.{can-is_grant_chain}
use gombit_forge.Org.Store.{Member, Invitation, Tables, role_in, invite_member, accept_invitation}
use gombit_forge.Org.Store.Grants.{IsBounded, here, next, invited, Reach-IsBounded}
use gombit_forge.Org.Store.Accepted.{Redeemed, accept_invitation-ok, made_member}

can-is_grant_chain_example : can role_owner cap_members_view ≡ true
unfolding can can_grant
can-is_grant_chain_example =
    can-is_grant_chain role_owner (role_admin ∷ role_member ∷ []) cap_members_view refl refl

abbrev keep_case : Text → Text
keep_case s = s

abbrev plain_hash : Text → Text
plain_hash s = s

abbrev no_email : ℕ → Text → Bool
no_email user email = false

abbrev invitation : Invitation
invitation = record {
  organization_id = 1;
  email = codes "b@x";
  role = role_admin;
  token_hash = codes "t";
  invited_by = 5;
  expires_at = 100;
  accepted_at = none;
}

abbrev tables : Tables
tables = record {
  next_org = 2;
  organizations = record { id = 1; name = codes "Shop"; slug = codes "shop" } ∷ [];
  members = record { organization_id = 1; user_id = 5; role = role_owner } ∷ [];
  invitations = invitation ∷ [];
  audit = [];
}

tables-IsBounded : IsBounded tables
unfolding role_in can can_grant
tables-IsBounded = refl

abbrev invited_again : Tables
invited_again =
    (invite_member keep_case plain_hash no_email false 1 5 (codes "c@x") role_member 50 (codes "u")
      tables).1

Reach-IsBounded_example : IsBounded invited_again
Reach-IsBounded_example =
    Reach-IsBounded keep_case plain_hash no_email tables invited_again
      (next here (invited false 1 5 (codes "c@x") role_member 50 (codes "u"))) tables-IsBounded

abbrev new_member : Member
new_member = made_member keep_case plain_hash no_email 6 invitation

abbrev joined : Tables
joined = record tables {
  members = record { organization_id = 1; user_id = 5; role = role_owner } ∷ new_member ∷ [];
  invitations = record invitation { accepted_at = some 50 } ∷ [];
}

redeemed :
    accept_invitation keep_case plain_hash no_email false (codes "t") (codes " b@x") 6 50 tables
    ≡ (ok new_member, joined)
unfolding accept_invitation text_beq role_in
redeemed = refl

accept_invitation-ok_example :
    Redeemed keep_case plain_hash no_email (codes "t") (codes " b@x") 6 50 tables joined new_member
accept_invitation-ok_example =
    accept_invitation-ok keep_case plain_hash no_email false (codes "t") (codes " b@x") 6 50 tables
      joined new_member tables-IsBounded redeemed
