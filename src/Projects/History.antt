-- ===== src/Projects/History.antt =====
-- The calls of controlplane/internal/project/service.go on the store, in any order.
use gombit_forge.Prelude.{◌≡◌, refl, ap, ℕ, Bool, true, false, Option, none, some, Text}
use gombit_forge.Prelude.Result.{Result, ok, err, ◌>>=◌, ok-injective}
use gombit_forge.ProjectSpec.{ProjectSpec}
use gombit_forge.ProjectSpec.Codec.{JsonCodec}
use gombit_forge.Validate.Fields.{is_empty}
use gombit_forge.Validate.Whole.{validate}
use gombit_forge.Projects.{
  Project, Revision, Store, Transition, ProjectError, create_project, find_project, get_project,
  project_or_error, Class, class_neutral, class_additive, class_breaking, commit, insert_classified,
  canonical, classified, commit_or_error, submit_on, current_spec, classify_and_insert,
  create_checked, create_on, new_revision, insert_revision, submit_candidate, create_revision,
}
use gombit_forge.Projects.Chain.{IsLinear, insert_revision-IsLinear, create_project-IsLinear}

pub get_project-find :
    (fault : Bool) (id : ℕ) (s : Store) (p : Project)
    → get_project fault id s ≡ ok p
    → find_project s.projects id ≡ some p
unfolding get_project
get_project-find true id s p h = cc
get_project-find false id s p h = found_project (find_project s.projects id) h
  where
    found_project : (o : Option Project) → project_or_error o ≡ ok p → o ≡ some p
    found_project none e = cc
    found_project (some q) e = ap some (ok-injective q p e)

module _ (codec : JsonCodec) (digest : Text → Text)
    (classify : ProjectSpec → ProjectSpec → Option Transition) where
  commit-IsLinear :
      (p : Project) (r : Revision) (s : Store) (t : Option Transition)
      → IsLinear s
      → IsLinear (insert_revision p r s)
      → IsLinear (commit codec digest classify p r s t).1
  unfolding commit
  commit-IsLinear p r s none l m = m
  commit-IsLinear p r s (some t) l m = by_class t.class
    where
      by_class :
          (c : Class)
          → IsLinear (commit codec digest classify p r s (some (record t { class = c }))).1
      by_class class_neutral = m
      by_class class_additive = m
      by_class class_breaking = l

  insert_classified-IsLinear :
      (valid : Bool) (now by id : ℕ) (candidate : ProjectSpec) (p : Project) (s : Store)
      (current : Option ProjectSpec)
      → IsLinear s
      → find_project s.projects id ≡ some p
      → IsLinear (insert_classified codec digest classify valid now by candidate p s current).1
  insert_classified-IsLinear false now by id candidate p s current l found = l
  insert_classified-IsLinear true now by id candidate p s current l found = on_result (
      canonical codec digest classify candidate >>= λ stored.
      classified codec digest classify current candidate >>= λ transition. ok (stored, transition))
    where
      on_result :
          (r : Result ProjectError ((Text × Text) × Option Transition))
          → IsLinear (commit_or_error codec digest classify now by candidate p s r).1
      on_result (err e) = l
      on_result (ok ((data', hash), transition)) =
          let r = new_revision now p candidate.spec_version data' hash by s in
          commit-IsLinear p r s transition l (insert_revision-IsLinear s id p r l found refl refl)

  submit_candidate-IsLinear :
      (fault : Bool) (now id : ℕ) (candidate : Option ProjectSpec) (by : ℕ) (s : Store)
      → IsLinear s
      → IsLinear (submit_candidate codec digest classify fault now id candidate by s).1
  unfolding submit_candidate classify_and_insert
  submit_candidate-IsLinear fault now id candidate by s l =
      on_project (get_project fault id s) (get_project-find fault id s)
    where
      on_current :
          (c : Option ProjectSpec) (p : Project)
          (current : Result ProjectError (Option ProjectSpec))
          → find_project s.projects id ≡ some p
          → IsLinear
              (submit_on codec digest classify fault now by c s
                (current >>= λ current. ok (p, current))).1
      on_current c p (err e) found = l
      on_current none p (ok current) found = l
      on_current (some spec) p (ok current) found =
          insert_classified-IsLinear (is_empty (validate (some spec))) now by id spec p s current l
            found

      on_project :
          (r : Result ProjectError Project)
          → ((p : Project) → r ≡ ok p → find_project s.projects id ≡ some p)
          → IsLinear
              (submit_on codec digest classify fault now by candidate s (
                r >>= λ p.
                current_spec codec digest classify fault s p >>= λ current. ok (p, current))).1
      on_project (err e) found = l
      on_project (ok p) found =
          on_current candidate p (current_spec codec digest classify fault s p) (found p refl)

  create_checked-IsLinear :
      (valid fault : Bool) (now id : ℕ) (spec : ProjectSpec) (by : ℕ) (s : Store)
      → IsLinear s
      → IsLinear (create_checked codec digest classify valid fault now id spec by s).1
  create_checked-IsLinear false fault now id spec by s l = l
  create_checked-IsLinear true fault now id spec by s l =
      on_stored (canonical codec digest classify spec) (get_project fault id s)
        (get_project-find fault id s)
    where
      on_stored :
          (c : Result ProjectError (Text × Text)) (r : Result ProjectError Project)
          → ((p : Project) → r ≡ ok p → find_project s.projects id ≡ some p)
          → IsLinear
              (create_on codec digest classify now by spec s
                (c >>= λ stored. r >>= λ p. ok (stored, p))).1
      on_stored (err e) r found = l
      on_stored (ok stored) (err e) found = l
      on_stored (ok (data', hash)) (ok p) found =
          insert_revision-IsLinear s id p (new_revision now p spec.spec_version data' hash by s) l
            (found p refl) refl refl

  create_revision-IsLinear :
      (fault : Bool) (now id : ℕ) (spec : Option ProjectSpec) (by : ℕ) (s : Store)
      → IsLinear s
      → IsLinear (create_revision codec digest classify fault now id spec by s).1
  unfolding create_revision
  create_revision-IsLinear fault now id none by s l = l
  create_revision-IsLinear fault now id (some spec) by s l =
      create_checked-IsLinear (is_empty (validate (some spec))) fault now id spec by s l

  -- The calls that change the store, with any argument and any outcome.
  pub data Step : Store → Store → Type 0 where
    project_created :
        (fault : Bool) (org : ℕ) (name slug : Text) (by : ℕ) (s : Store)
        → Step s (create_project fault org name slug by s).1
    candidate_submitted :
        (fault : Bool) (now id : ℕ) (candidate : Option ProjectSpec) (by : ℕ) (s : Store)
        → Step s (submit_candidate codec digest classify fault now id candidate by s).1
    revision_created :
        (fault : Bool) (now id : ℕ) (spec : Option ProjectSpec) (by : ℕ) (s : Store)
        → Step s (create_revision codec digest classify fault now id spec by s).1

  pub data Reach (s : Store) : Store → Type 0 where
    here : Reach s s
    next : {m s' : Store} → Reach s m → Step m s' → Reach s s'

  Step-IsLinear : (s s' : Store) → Step s s' → IsLinear s → IsLinear s'
  Step-IsLinear _ _ (project_created fault org name slug by s) l =
      create_project-IsLinear fault org name slug by s l
  Step-IsLinear _ _ (candidate_submitted fault now id candidate by s) l =
      submit_candidate-IsLinear fault now id candidate by s l
  Step-IsLinear _ _ (revision_created fault now id spec by s) l =
      create_revision-IsLinear fault now id spec by s l

  -- Over every sequence of calls, whatever fails, the revisions of each project are one chain: each
  -- has the one before it as its parent, the first has none, and the last is the head of the project.
  pub Reach-IsLinear : (s s' : Store) → Reach s s' → IsLinear s → IsLinear s'
  Reach-IsLinear s _ here l = l
  Reach-IsLinear s s' (next {m} r step) l = Step-IsLinear m s' step (Reach-IsLinear s m r l)
