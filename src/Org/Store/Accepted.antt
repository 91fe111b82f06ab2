-- ===== src/Org/Store/Accepted.antt =====
-- What a redeemed invitation was.
use mathlib.Core.Path.{subst}
use gombit_forge.Prelude.{
  ℕ, ◌≡◌, refl, sym, ap, Bool, true, false, not, Option, none, some, [], ◌∷◌, text_beq_iff,
  if◌then◌else◌, text_eq, Text, ◌++◌, ◌<◌, map, keep, is_some, ◌==◌,
}
use gombit_forge.Prelude.Result.{Result, ok, err, ok-injective}
use gombit_forge.Prelude.Space.{trim_space}
use gombit_forge.Org.Store.{
  OrgError, Member, Invitation, Tables, role_in, accept_invitation, accept_found, accepted_row,
}
use gombit_forge.Org.Store.Grants.{IsBounded, is_bounded, grants}
use gombit_forge.Org.Store.Rows.{
  IsRow, Found, redeemable-Found, row-bounded, redeemable-spent, other_rows, role_in-append,
  no_role,
}

abbrev gated : Bool → Bool → Member → Tables → Tables → Result OrgError Member × Tables
gated a b made w t =
    if not a
    then (err OrgError.invitation_invalid, t)
    else (if b then (err OrgError.storage, t) else (ok made, w))

two_gates :
    (a b : Bool) (made m : Member) (w u t : Tables)
    → gated a b made w t ≡ (ok m, u)
    → (a ≡ true) × (b ≡ false) × (made ≡ m) × (w ≡ u)
two_gates false b made m w u t h = absurd (cc)
two_gates true true made m w u t h = absurd (cc)
two_gates true false made m w u t h =
    (refl, refl, ok-injective made m (ap (λ p. p.0) h), ap (λ p. p.1) h)

module _ (to_lower : Text → Text) (hash : Text → Text) (has_email : ℕ → Text → Bool) where
  abbrev pub made_member : ℕ → Invitation → Member
  made_member user inv = record {
    organization_id = inv.organization_id;
    user_id = user;
    role = inv.role;
  }

  -- What a redemption that succeeds was of, and what it leaves.
  pub record Redeemed (token email : Text) (user now : ℕ) (t u : Tables) (m : Member) : Type 0 where
    pub invitation : Invitation
    pub row : IsRow invitation t.invitations
    pub named : invitation.token_hash ≡ hash token
    pub unaccepted : invitation.accepted_at ≡ none
    pub unexpired : now < invitation.expires_at
    pub addressed : to_lower (trim_space email) ≡ invitation.email
    pub newcomer : role_in t.members invitation.organization_id user ≡ none
    pub made : m ≡ record {
      organization_id = invitation.organization_id;
      user_id = user;
      role = invitation.role;
    }
    pub granted : grants m.role (role_in t.members m.organization_id invitation.invited_by) ≡ true
    pub added : u.members ≡ t.members ++ (m ∷ [])
    pub joined : role_in u.members m.organization_id user ≡ some m.role
    pub spent :
        (email' : Text) (user' later : ℕ)
        → accept_invitation to_lower hash has_email false token email' user' later u
          ≡ (err OrgError.invitation_invalid, u)
    pub kept :
        keep (λ (i : Invitation). not (i.token_hash == hash token)) u.invitations
        ≡ keep (λ (i : Invitation). not (i.token_hash == hash token)) t.invitations

  abbrev joined_tables : Invitation → ℕ → ℕ → Tables → Tables
  joined_tables inv user now t = record t {
    members = t.members ++ (made_member user inv ∷ []);
    invitations = map (accepted_row to_lower hash has_email inv now) t.invitations;
  }

  accept_found-ok :
      (email : Text) (user now : ℕ) (t u : Tables) (o : Option Invitation) (m : Member)
      → accept_found to_lower hash has_email email user now t o ≡ (ok m, u)
      → (inv : Invitation) × (o ≡ some inv)
        × (to_lower (trim_space email) ≡ inv.email)
        × (is_some (role_in t.members inv.organization_id user) ≡ false)
        × (made_member user inv ≡ m)
        × (joined_tables inv user now t ≡ u)
  accept_found-ok email user now t u none m h = absurd (cc)
  accept_found-ok email user now t u (some inv) m h =
      let (addressed, new, made, written) = two_gates _ _ _ m _ u t h in
      (inv, refl, (text_beq_iff _ _).0 addressed, new, made, written)

  spent_token :
      (inv : Invitation) (token email : Text) (user user' now later : ℕ) (t : Tables)
      → inv.token_hash ≡ hash token
      → accept_invitation to_lower hash has_email false token email user' later
          (joined_tables inv user now t)
        ≡ (err OrgError.invitation_invalid, joined_tables inv user now t)
  unfolding accept_invitation
  spent_token inv token email user user' now later t e =
      ap (accept_found to_lower hash has_email email user' later (joined_tables inv user now t))
        (redeemable-spent to_lower hash has_email t.invitations inv token now later e)

  redeemed_lem :
      (token email : Text) (user now : ℕ) (t : Tables) (inv : Invitation)
      → IsBounded t
      → Found to_lower hash has_email t.invitations token now inv
      → to_lower (trim_space email) ≡ inv.email
      → is_some (role_in t.members inv.organization_id user) ≡ false
      → Redeemed token email user now t (joined_tables inv user now t) (made_member user inv)
  redeemed_lem token email user now t inv bounded found addressed new =
      let newcomer =
        no_role to_lower hash has_email (role_in t.members inv.organization_id user) new in
      record {
        invitation = inv;
        row = found.row;
        named = found.named;
        unaccepted = found.unaccepted;
        unexpired = found.unexpired;
        addressed = addressed;
        newcomer = newcomer;
        made = refl;
        granted =
            row-bounded to_lower hash has_email (is_bounded t.members) t.invitations inv bounded
              found.row;
        added = refl;
        joined = role_in-append to_lower hash has_email t.members (made_member user inv) newcomer;
        spent =
            λ email' user' later. spent_token inv token email' user user' now later t found.named;
        kept = rw (sym found.named) (other_rows to_lower hash has_email t.invitations inv now);
      }

  -- A redemption that succeeds is of an invitation of the table that the token names, not accepted
  -- before, not expired, and addressed to the user's normalized address; the user was not a member
  -- of its organization and is one now, with its role; where invitations are within their inviters'
  -- roles, that role is granted by a member of the organization who may invite. From then on the
  -- token is refused, whoever presents it and when, the other invitations are as they were, and no other
  -- membership has changed.
  pub accept_invitation-ok :
      (fault : Bool) (token email : Text) (user now : ℕ) (t u : Tables) (m : Member)
      → IsBounded t
      → accept_invitation to_lower hash has_email fault token email user now t ≡ (ok m, u)
      → Redeemed token email user now t u m
  unfolding accept_invitation
  accept_invitation-ok true token email user now t u m bounded h = absurd (cc)
  accept_invitation-ok false token email user now t u m bounded h =
      let (inv, found, addressed, new, made, written) = accept_found-ok email user now t u _ m h in
      let done =
        redeemed_lem token email user now t inv bounded
          (redeemable-Found to_lower hash has_email t.invitations token now inv found) addressed
          new in
      subst (λ (p : Member × Tables). Redeemed token email user now t p.1 p.0)
        (λ i. (made i, written i)) done
