-- ===== src/Projects/Chain.antt =====
-- The revisions of a project are one chain that ends in its head.
use gombit_forge.Prelude.{
  ◌≡◌, refl, sym, ap, ◌∙◌, ℕ, suc, Bool, true, false, ◌||◌, Option, none, some, some-injective,
  List, [], ◌∷◌, ◌++◌, append_nil, all-append, All, all, any, keep, ltb, if◌then◌else◌, nat_beq,
  Text, arith, Bool-cases, inl, inr,
}
use mathlib.Core.Path.{subst}
use gombit_forge.Projects.{
  Project, Revision, Store, create_project, find_project, is_same_slug, set_head, insert_revision,
}

-- Each revision has the one before it as its parent, the first has `prev`, and the last is the head.
abbrev pub IsChain : Option ℕ → List Revision → Option ℕ → Type 0
IsChain prev [] h = h ≡ prev
IsChain prev (r ∷ rs) h = (r.parent_revision_id ≡ prev) × IsChain (some r.id) rs h

abbrev pub of_project : ℕ → List Revision → List Revision
of_project id rs = keep (λ (r : Revision). nat_beq r.project_id id) rs

abbrev pub HasChain : List Revision → Project → Type 0
HasChain rs p = IsChain none (of_project p.id rs) p.head_revision_id

pub record IsLinear (s : Store) : Type 0 where
  pub chains : All (HasChain s.revisions) s.projects
  pub known : all (λ (p : Project). ltb p.id s.next_project) s.projects ≡ true
  pub owned : all (λ (r : Revision). ltb r.project_id s.next_project) s.revisions ≡ true

IsChain-unique :
    (prev h h' : Option ℕ) (rs : List Revision) → IsChain prev rs h → IsChain prev rs h' → h ≡ h'
IsChain-unique prev h h' [] c c' = c ∙ sym c'
IsChain-unique prev h h' (r ∷ rs) c c' = IsChain-unique (some r.id) h h' rs c.1 c'.1

IsChain-append :
    (prev h : Option ℕ) (rs : List Revision) (r : Revision)
    → IsChain prev rs h
    → r.parent_revision_id ≡ h
    → IsChain prev (rs ++ (r ∷ [])) (some r.id)
IsChain-append prev h [] r c e = (e ∙ c, refl)
IsChain-append prev h (q ∷ rs) r c e = (c.0, IsChain-append (some q.id) h rs r c.1 e)

of_project-append :
    (id : ℕ) (rs : List Revision) (r : Revision)
    → of_project id (rs ++ (r ∷ []))
      ≡ of_project id rs ++ (if nat_beq r.project_id id then r ∷ [] else [])
of_project-append id [] r = ground arith
of_project-append id (q ∷ rs) r = elim (Bool-cases (nat_beq q.project_id id)) [
  | inl e ↦ rw e (ap (λ t. q ∷ t) (of_project-append id rs r))
  | inr e ↦ rw e (of_project-append id rs r)
]

-- The other projects keep their revisions, and a project gets one more.
HasChain-insert :
    (rs : List Revision) (r : Revision) (p p' : Project)
    → HasChain rs p
    → r.project_id ≡ p.id
    → r.parent_revision_id ≡ p.head_revision_id
    → HasChain rs p'
    → HasChain
        (rs ++ (r ∷ []))
        (if nat_beq p'.id p.id then record p' { head_revision_id = some r.id } else p')
HasChain-insert rs r p p' c owner parent c' = elim (Bool-cases (nat_beq p'.id p.id)) [
  | inr e ↦
      let other : nat_beq r.project_id p'.id ≡ false = ground arith in
      let kept : of_project p'.id (rs ++ (r ∷ [])) ≡ of_project p'.id rs =
        of_project-append p'.id rs r ∙ rw other (append_nil (of_project p'.id rs)) in
      rw (e, kept) c'
  | inl e ↦
      let same : p'.id ≡ p.id = ground arith in
      let its : nat_beq r.project_id p'.id ≡ true = ground arith in
      let longer : of_project p'.id (rs ++ (r ∷ [])) ≡ of_project p'.id rs ++ (r ∷ []) =
        of_project-append p'.id rs r ∙ rw its refl in
      let c'' : IsChain none (of_project p'.id rs) p.head_revision_id = rw same c in
      let one_head =
        IsChain-unique none p.head_revision_id p'.head_revision_id (of_project p'.id rs) c'' c' in
      rw (e, longer)
        (IsChain-append none p'.head_revision_id (of_project p'.id rs) r c' (parent ∙ one_head))
]

pub find_project-All :
    (P : Project → Type 0) (ps : List Project) (id : ℕ) (p : Project)
    → All P ps
    → find_project ps id ≡ some p
    → P p
unfolding find_project
find_project-All P [] id p a h = cc
find_project-All P (q ∷ ps) id p a h = elim (Bool-cases (nat_beq q.id id)) [
  | inl e ↦ subst P (some-injective q p (sym (rw e refl) ∙ h)) a.0
  | inr e ↦ find_project-All P ps id p a.1 (sym (rw e refl) ∙ h)
]

of_project-fresh :
    (next : ℕ) (rs : List Revision)
    → all (λ (r : Revision). ltb r.project_id next) rs ≡ true
    → of_project next rs ≡ []
of_project-fresh next [] h = refl
of_project-fresh next (r ∷ rs) h =
    let other : nat_beq r.project_id next ≡ false = ground arith in
    rw other (of_project-fresh next rs (ground arith))

module _ (rs : List Revision) (r : Revision) (p : Project) (c : HasChain rs p)
    (owner : r.project_id ≡ p.id) (parent : r.parent_revision_id ≡ p.head_revision_id) where
  set_head-HasChain :
      (ps : List Project)
      → All (HasChain rs) ps
      → All (HasChain (rs ++ (r ∷ []))) (set_head p.id r.id ps)
  unfolding set_head
  set_head-HasChain [] a = tt
  set_head-HasChain (p' ∷ ps) a =
      let first = HasChain-insert rs r p p' c owner parent a.0 in
      elim (Bool-cases (nat_beq p'.id p.id)) [
        | inl e ↦ rw e (rw e at first, set_head-HasChain ps a.1)
        | inr e ↦ rw e (rw e at first, set_head-HasChain ps a.1)
      ]

All-append {ℓ κ} :
    {A : Type ℓ} (P : A → Type κ) (xs : List A) (x : A) → All P xs → P x → All P (xs ++ (x ∷ []))
All-append P [] x a h = (h, tt)
All-append P (y ∷ xs) x a h = (a.0, All-append P xs x a.1 h)

known-suc :
    (n : ℕ) (ps : List Project)
    → all (λ (p : Project). ltb p.id n) ps ≡ true
    → all (λ (p : Project). ltb p.id (suc n)) ps ≡ true
known-suc n [] h = refl
known-suc n (p ∷ ps) h = ground (arith, known-suc n ps (ground arith))

owned-suc :
    (n : ℕ) (rs : List Revision)
    → all (λ (r : Revision). ltb r.project_id n) rs ≡ true
    → all (λ (r : Revision). ltb r.project_id (suc n)) rs ≡ true
owned-suc n [] h = refl
owned-suc n (r ∷ rs) h = ground (arith, owned-suc n rs (ground arith))

known-set_head :
    (n id to : ℕ) (ps : List Project)
    → all (λ (p : Project). ltb p.id n) (set_head id to ps) ≡ all (λ (p : Project). ltb p.id n) ps
unfolding set_head
known-set_head n id to [] = refl
known-set_head n id to (p ∷ ps) = elim (Bool-cases (nat_beq p.id id)) [
  | inl e ↦ rw (e, known-set_head n id to ps) refl
  | inr e ↦ rw (e, known-set_head n id to ps) refl
]

find_project-known :
    (n : ℕ) (ps : List Project) (id : ℕ) (p : Project)
    → all (λ (p : Project). ltb p.id n) ps ≡ true
    → find_project ps id ≡ some p
    → ltb p.id n ≡ true
unfolding find_project
find_project-known n [] id p a h = cc
find_project-known n (q ∷ ps) id p a h = elim (Bool-cases (nat_beq q.id id)) [
  | inl e ↦
      ap (λ (r : Project). ltb r.id n) (sym (some-injective q p (sym (rw e refl) ∙ h)))
      ∙ ground arith
  | inr e ↦ find_project-known n ps id p (ground arith) (sym (rw e refl) ∙ h)
]

pub insert_revision-IsLinear :
    (s : Store) (id : ℕ) (p : Project) (r : Revision)
    → IsLinear s
    → find_project s.projects id ≡ some p
    → r.project_id ≡ p.id
    → r.parent_revision_id ≡ p.head_revision_id
    → IsLinear (insert_revision p r s)
unfolding insert_revision
insert_revision-IsLinear s id p r l found owner parent =
    let c = find_project-All (HasChain s.revisions) s.projects id p l.chains found in
    let there : ltb p.id s.next_project ≡ true =
      find_project-known s.next_project s.projects id p l.known found in
    record {
      chains = set_head-HasChain s.revisions r p c owner parent s.projects l.chains;
      known = known-set_head s.next_project p.id r.id s.projects ∙ l.known;
      owned =
          all-append (λ (q : Revision). ltb q.project_id s.next_project) s.revisions (r ∷ [])
          ∙ rw (l.owned, owner, there) refl;
    }

if-IsLinear {ℓ} :
    {A : Type ℓ} (b : Bool) (x y : A × Store)
    → IsLinear x.1
    → IsLinear y.1
    → IsLinear (if b then x else y).1
if-IsLinear true x y h k = h
if-IsLinear false x y h k = k

pub create_project-IsLinear :
    (fault : Bool) (org : ℕ) (name slug : Text) (by : ℕ) (s : Store)
    → IsLinear s
    → IsLinear (create_project fault org name slug by s).1
unfolding create_project
create_project-IsLinear fault org name slug by s l =
    if-IsLinear (fault || any (is_same_slug org slug) s.projects) _ _ l (record {
      chains =
          All-append (HasChain s.revisions) s.projects _ l.chains
            (sym_chain (of_project-fresh s.next_project s.revisions l.owned));
      known =
          all-append (λ (q : Project). ltb q.id (suc s.next_project)) s.projects _
          ∙ rw (known-suc s.next_project s.projects l.known) (ground arith);
      owned = owned-suc s.next_project s.revisions l.owned;
    })
  where
    sym_chain :
        of_project s.next_project s.revisions ≡ []
        → IsChain none (of_project s.next_project s.revisions) none
    sym_chain e = rw e refl
