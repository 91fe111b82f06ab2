-- ===== src/Org/Store/Grants.antt =====
-- Every pending or accepted invitation, and so every membership made by one, is within its inviter's
-- role.
use mathlib.Core.Path.{subst}
use gombit_forge.Prelude.{
  ℕ, ◌+◌, ◌≡◌, refl, sym, ap, ◌∙◌, Bool, true, false, not, ◌&&◌, ◌||◌, Option, none, some, List, [],
  ◌∷◌, ◌++◌, all, all-append, any, keep, map, is_some, if◌then◌else◌, ◌==◌, text_eq, Text, arith,
  Bool-cases, inl, inr,
}
use gombit_forge.Prelude.Result.{Result, ok, err, >>=-eq-ok, ok-injective}
use gombit_forge.Org.Roles.{Role, is_valid_role, Capability, cap_members_invite, can, can_grant}
use gombit_forge.Org.Store.{
  OrgError, Organization, Member, Invitation, Tables, is_membership, role_in, member_role,
  create_organization, permitted, authorize, authorize_grant, is_pending, invite_in, invite_as,
  invite_member, accept_invitation, accept_found, redeemable, accepted_row, normalize_email,
  user_by_email_is_member, default_invitation_ttl, pending_role, may_supersede,
}

-- The role may invite, and to the target.
abbrev pub grants : Role → Option Role → Bool
grants target none = false
grants target (some granter) = can granter cap_members_invite && can_grant granter target

abbrev pub is_bounded : List Member → Invitation → Bool
is_bounded members inv = grants inv.role (role_in members inv.organization_id inv.invited_by)

-- The inviter of every invitation is a member who may invite, and to its role.
abbrev pub IsBounded : Tables → Type 0
IsBounded t = all (is_bounded t.members) t.invitations ≡ true

role_in-append :
    (ms more : List Member) (org user : ℕ) (target : Role)
    → grants target (role_in ms org user) ≡ true
    → grants target (role_in (ms ++ more) org user) ≡ true
unfolding role_in
role_in-append [] more org user target h = cc
role_in-append (m ∷ ms) more org user target h = elim (Bool-cases (is_membership org user m)) [
  | inl e ↦
      rw e (ap (λ b. grants target (if b then some m.role else role_in ms org user)) (sym e) ∙ h)
  | inr e ↦ rw e (
      role_in-append ms more org user target
        (ap (λ b. grants target (if b then some m.role else role_in ms org user)) (sym e) ∙ h))
]

bounded-append :
    (ms more : List Member) (is : List Invitation)
    → all (is_bounded ms) is ≡ true
    → all (is_bounded (ms ++ more)) is ≡ true
bounded-append ms more [] h = refl
bounded-append ms more (inv ∷ is) h = ground (
  arith,
  role_in-append ms more inv.organization_id inv.invited_by inv.role (ground arith),
  bounded-append ms more is (ground arith),
)

all-keep {ℓ} :
    {A : Type ℓ} (p q : A → Bool) (xs : List A) → all p xs ≡ true → all p (keep q xs) ≡ true
all-keep p q [] h = refl
all-keep p q (x ∷ xs) h = ground (arith, all-keep p q xs (ground arith))

role_if-ok :
    (b : Bool) (r role : Role) (e : OrgError)
    → (if b then ok r else err e) ≡ ok role
    → (r ≡ role) × (b ≡ true)
role_if-ok true r role e h = (ok-injective r role h, refl)
role_if-ok false r role e h = absurd (cc)

permitted-ok :
    (capability : Capability) (o : Option Role) (role : Role)
    → permitted capability o ≡ ok role
    → (o ≡ some role) × (can role capability ≡ true)
permitted-ok capability none role h = absurd (cc)
permitted-ok capability (some r) role h =
    let (same, allowed) = role_if-ok (can r capability) r role OrgError.forbidden h in
    (ap some same, subst (λ x. can x capability ≡ true) same allowed)

-- A grant that is authorized is made by a member of the organization whose role has the capability
-- and grants the target role; the result is that member's role.
authorize_grant-ok :
    (fault : Bool) (t : Tables) (org user : ℕ) (capability : Capability) (target role : Role)
    → authorize_grant fault t org user capability target ≡ ok role
    → (role_in t.members org user ≡ some role)
      × (can role capability ≡ true)
      × (can_grant role target ≡ true)
unfolding authorize_grant authorize member_role
authorize_grant-ok true t org user capability target role h = absurd (cc)
authorize_grant-ok false t org user capability target role h =
    let (r, allowed, h') =
      >>=-eq-ok (permitted capability (role_in t.members org user))
        (λ role'. if can_grant role' target then ok role' else err OrgError.role_exceeds_granter)
        h in
    let (same, bound) = role_if-ok (can_grant r target) r role OrgError.role_exceeds_granter h' in
    let (member, can_do) = permitted-ok capability (role_in t.members org user) r allowed in
    (
      member ∙ ap some same,
      subst (λ x. can x capability ≡ true) same can_do,
      subst (λ x. can_grant x target ≡ true) same bound,
    )

module _ (to_lower : Text → Text) (hash : Text → Text) (has_email : ℕ → Text → Bool) where
  accepted-bounded :
      (ms : List Member) (inv : Invitation) (now : ℕ) (is : List Invitation)
      → all (is_bounded ms) is ≡ true
      → all (is_bounded ms) (map (accepted_row to_lower hash has_email inv now) is) ≡ true
  accepted-bounded ms inv now [] h = refl
  accepted-bounded ms inv now (i ∷ is) h = elim (Bool-cases (i.token_hash == inv.token_hash)) [
    | inl e ↦ rw e (ground (arith, accepted-bounded ms inv now is (ground arith)))
    | inr e ↦ rw e (ground (arith, accepted-bounded ms inv now is (ground arith)))
  ]

  -- The calls that change the tables, with any argument and any outcome.
  pub data Step (t : Tables) : Tables → Type 0 where
    created :
        (fault : Bool) (name slug : Text) (creator : ℕ)
        → Step t (create_organization fault name slug creator t).1
    invited :
        (fault : Bool) (org inviter : ℕ) (email : Text) (role : Role) (now : ℕ) (token : Text)
        → Step t (invite_member to_lower hash has_email fault org inviter email role now token t).1
    accepted :
        (fault : Bool) (token email : Text) (user now : ℕ)
        → Step t (accept_invitation to_lower hash has_email fault token email user now t).1

  pub data Reach (t : Tables) : Tables → Type 0 where
    here : Reach t t
    next : {v w : Tables} → Reach t v → Step v w → Reach t w

  create-IsBounded :
      (fault : Bool) (name slug : Text) (creator : ℕ) (t : Tables)
      → IsBounded t
      → IsBounded (create_organization fault name slug creator t).1
  unfolding create_organization
  create-IsBounded fault name slug creator t h =
      elim (Bool-cases (fault || any (λ (o : Organization). o.slug == slug) t.organizations)) [
        | inl e ↦ rw e h
        | inr e ↦ rw e (bounded-append t.members _ t.invitations h)
      ]

  invite_in-IsBounded :
      (fault : Bool) (org inviter : ℕ) (email : Text) (inviter_role role : Role) (now : ℕ)
      (token : Text) (t : Tables)
      → grants role (role_in t.members org inviter) ≡ true
      → IsBounded t
      → IsBounded
          (invite_in to_lower hash has_email fault org inviter email inviter_role role now token
            t).1
  unfolding invite_in
  invite_in-IsBounded true org inviter email inviter_role role now token t g h = h
  invite_in-IsBounded false org inviter email inviter_role role now token t g h =
      elim (Bool-cases (may_supersede inviter_role (pending_role t.invitations org email))) [
        | inr e ↦ rw e h
        | inl e ↦
            rw e
              (elim (Bool-cases (
                any (λ (i : Invitation). i.token_hash == hash token)
                  (keep (λ i. not (is_pending org email i)) t.invitations))) [
                    | inl d ↦ rw d h
                    | inr d ↦ rw d (
                        ground (
                          arith,
                          all-append (is_bounded t.members)
                              (keep (λ i. not (is_pending org email i)) t.invitations)
                              (record {
                                organization_id = org;
                                email = email;
                                role = role;
                                token_hash = hash token;
                                invited_by = inviter;
                                expires_at = now + default_invitation_ttl;
                                accepted_at = none;
                              }
                                ∷ []),
                          all-keep (is_bounded t.members) (λ i. not (is_pending org email i))
                              t.invitations h,
                          g,
                        ))
                  ])
      ]

  invite_as-IsBounded :
      (fault : Bool) (org inviter : ℕ) (email : Text) (role : Role) (now : ℕ) (token : Text)
      (t : Tables) (r : Result OrgError Role)
      → authorize_grant fault t org inviter cap_members_invite role ≡ r
      → IsBounded t
      → IsBounded (invite_as to_lower hash has_email fault org inviter email role now token t r).1
  invite_as-IsBounded fault org inviter email role now token t (err e) same h = h
  invite_as-IsBounded fault org inviter email role now token t (ok r) same h =
      let (member, allowed, bound) =
        authorize_grant-ok fault t org inviter cap_members_invite role r same in
      let g : grants role (role_in t.members org inviter) ≡ true = rw member (rw allowed bound) in
      elim (Bool-cases (user_by_email_is_member to_lower hash has_email t org email)) [
        | inl e ↦ rw e h
        | inr e ↦ rw e (invite_in-IsBounded fault org inviter email r role now token t g h)
      ]

  invite-IsBounded :
      (fault : Bool) (org inviter : ℕ) (email : Text) (role : Role) (now : ℕ) (token : Text)
      (t : Tables)
      → IsBounded t
      → IsBounded (invite_member to_lower hash has_email fault org inviter email role now token t).1
  unfolding invite_member
  invite-IsBounded fault org inviter email role now token t h =
      elim (Bool-cases (is_valid_role role)) [
        | inr e ↦ rw e h
        | inl e ↦ rw e (
            invite_as-IsBounded fault org inviter (normalize_email to_lower hash has_email email)
              role now token t _ refl h)
      ]

  accept_found-IsBounded :
      (email : Text) (user now : ℕ) (t : Tables) (o : Option Invitation)
      → IsBounded t
      → IsBounded (accept_found to_lower hash has_email email user now t o).1
  accept_found-IsBounded email user now t none h = h
  accept_found-IsBounded email user now t (some inv) h =
      elim (Bool-cases (normalize_email to_lower hash has_email email == inv.email)) [
        | inr e ↦ rw e h
        | inl e ↦ rw e (elim (Bool-cases (is_some (role_in t.members inv.organization_id user))) [
          | inl d ↦ rw d h
          | inr d ↦ rw d (
              bounded-append t.members _
                (map (accepted_row to_lower hash has_email inv now) t.invitations)
                (accepted-bounded t.members inv now t.invitations h))
        ])
      ]

  Step-IsBounded : (t u : Tables) → Step t u → IsBounded t → IsBounded u
  unfolding accept_invitation
  Step-IsBounded t _ (created fault name slug creator) h =
      create-IsBounded fault name slug creator t h
  Step-IsBounded t _ (invited fault org inviter email role now token) h =
      invite-IsBounded fault org inviter email role now token t h
  Step-IsBounded t _ (accepted true token email user now) h = h
  Step-IsBounded t _ (accepted false token email user now) h =
      accept_found-IsBounded email user now t
        (redeemable to_lower hash has_email t.invitations token now) h

  -- After every sequence of calls, whoever makes them and whatever fails, the inviter of every
  -- invitation is a member of its organization whose role may invite and grants the invitation's role.
  pub Reach-IsBounded : (t u : Tables) → Reach t u → IsBounded t → IsBounded u
  Reach-IsBounded t _ here h = h
  Reach-IsBounded t u (next {v} r s) h = Step-IsBounded v u s (Reach-IsBounded t v r h)
