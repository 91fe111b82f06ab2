-- ===== src/Projects/Head.antt =====
-- `Head` of controlplane/internal/project/service.go.
use gombit_forge.Prelude.{
  ◌≡◌, refl, sym, ◌∙◌, ℕ, Bool, true, false, Option, none, some, some-injective, List, [], ◌∷◌,
  keep, is_some, if◌then◌else◌, nat_beq, Text, arith, Bool-cases, inl, inr, ◌⊎◌,
}
use gombit_forge.Prelude.Result.{Result, err, ◌>>=◌}
use gombit_forge.ProjectSpec.{ProjectSpec}
use gombit_forge.ProjectSpec.Codec.{JsonCodec}
use gombit_forge.Projects.{
  corrupt_lineage, head_at, head_or_error, Project, Revision, Store, Transition, ProjectError,
  find_project, get_project, project_or_error, find_revision, head,
}
use gombit_forge.Projects.Chain.{IsChain, of_project, HasChain, IsLinear, find_project-All}
use gombit_forge.Projects.History.{Reach, Reach-IsLinear}

IsChain-head :
    (prev : Option ℕ) (rs : List Revision) (head : ℕ)
    → IsChain prev rs (some head)
    → (prev ≡ some head) ⊎ (is_some (find_revision rs head) ≡ true)
unfolding find_revision
IsChain-head prev [] head c = inl (sym c)
IsChain-head prev (r ∷ rs) head c = elim (IsChain-head (some r.id) rs head c.1) [
  | inl e ↦
      let same : r.id ≡ head = some-injective r.id head e in
      let here : nat_beq r.id head ≡ true = ground arith in inr (rw here refl)
  | inr found ↦ inr (ground arith)
]

find_revision-keep :
    (keeps : Revision → Bool) (rs : List Revision) (id : ℕ)
    → is_some (find_revision (keep keeps rs) id) ≡ true
    → is_some (find_revision rs id) ≡ true
unfolding find_revision
find_revision-keep keeps [] id h = h
find_revision-keep keeps (r ∷ rs) id h = elim (Bool-cases (keeps r)) [
  | inl k ↦
      let h' : is_some (if nat_beq r.id id then some r else find_revision (keep keeps rs) id)
          ≡ true =
        sym (rw k refl) ∙ h in
      elim (Bool-cases (nat_beq r.id id)) [
        | inl e ↦ rw e refl
        | inr e ↦ rw e (find_revision-keep keeps rs id (sym (rw e refl) ∙ h'))
      ]
  | inr k ↦
      let h' : is_some (find_revision (keep keeps rs) id) ≡ true = sym (rw k refl) ∙ h in
      ground (arith, find_revision-keep keeps rs id h')
]

abbrev pub is_corrupt : Result ProjectError (Option Revision) → Bool
is_corrupt (err (corrupt_lineage project head)) = true
is_corrupt _ = false

head_at-found :
    (fault : Bool) (s : Store) (p : Project) (h : Option ℕ)
    → IsChain none (of_project p.id s.revisions) h
    → is_corrupt (head_at fault s p h) ≡ false
head_at-found fault s p none c = refl
head_at-found true s p (some h) c = refl
head_at-found false s p (some h) c = elim (IsChain-head none (of_project p.id s.revisions) h c) [
  | inl e ↦ absurd (cc)
  | inr found ↦
      let there =
        find_revision-keep (λ (r : Revision). nat_beq r.project_id p.id) s.revisions h found in
      on_found (find_revision s.revisions h) there
]
  where
    on_found : (o : Option Revision) → is_some o ≡ true → is_corrupt (head_or_error p h o) ≡ false
    on_found none e = cc
    on_found (some r) e = refl

-- From a store whose revisions are chained, no sequence of calls leads to one where `Head` finds a
-- corrupt lineage: the head of a project is always a revision that is there.
pub head-Reach :
    (codec : JsonCodec) (digest : Text → Text)
    (classify : ProjectSpec → ProjectSpec → Option Transition) (s s' : Store) (fault : Bool)
    (id : ℕ)
    → IsLinear s
    → Reach codec digest classify s s'
    → is_corrupt (head fault id s') ≡ false
unfolding head get_project
head-Reach codec digest classify s s' true id l r = refl
head-Reach codec digest classify s s' false id l r =
    on_project (find_project s'.projects id) (λ p h. h)
  where
    on_project :
        (found : Option Project)
        → ((p : Project) → found ≡ some p → find_project s'.projects id ≡ some p)
        → is_corrupt (project_or_error found >>= λ p. head_at false s' p p.head_revision_id) ≡ false
    on_project none known = refl
    on_project (some p) known =
        let l' = Reach-IsLinear codec digest classify s s' r l in
        head_at-found false s' p p.head_revision_id
          (find_project-All (HasChain s'.revisions) s'.projects id p l'.chains (known p refl))
