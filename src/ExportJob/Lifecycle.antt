-- ===== src/ExportJob/Lifecycle.antt =====
-- The life of a job: queued, running, ended; over every sequence of calls.
use mathlib.Core.Option.{some-injective}
use mathlib.Core.Path.{subst}
use gombit_forge.Prelude.{
  ℕ, ◌≤◌, ◌≡◌, refl, sym, ap, ◌∙◌, Bool, true, false, some, List, [], ◌∷◌, ◌++◌, map, any, nat_beq,
  if◌then◌else◌, Text, arith, Bool-cases, inl, inr,
}
use gombit_forge.Prelude.Result.{ok, ok-injective}
use gombit_forge.Prelude.Space.{is_blank}
use gombit_forge.ExportJob.Rows.{claim_in-cons}
use gombit_forge.ExportJob.{
  ExportJob, Queue, queued, running, succeeded, failed, enqueue, get, row, is_claimable, claimed,
  claim_in, claim, matches, update_row, finish, set_succeeded, set_failed, mark_succeeded,
  mark_failed,
}

-- What a job freezes when it is enqueued.
abbrev pub frozen_part : ExportJob → ExportJob
frozen_part job = record job { status = queued; repo_url = []; error = [] }

abbrev pub stage : ExportJob → ℕ
stage job = elim job.status [ queued ↦ 0 | running ↦ 1 | succeeded ↦ 2 | failed ↦ 2 ]

-- The later job has what the earlier one froze, has not gone back, and is the same if that one had
-- ended.
pub record Progress (earlier later : ExportJob) : Type 0 where
  pub frozen : frozen_part later ≡ frozen_part earlier
  pub forward : stage earlier ≤ stage later
  pub settled : stage earlier ≡ 2 → later ≡ earlier

pub Progress-refl : (job : ExportJob) → Progress job job
Progress-refl job = record { frozen = refl; forward = omega arith; settled = λ _. refl }

pub Progress-trans : (a b c : ExportJob) → Progress a b → Progress b c → Progress a c
Progress-trans a b c p q = record {
  frozen = q.frozen ∙ p.frozen;
  forward = omega (arith, p.forward, q.forward);
  settled = λ over. q.settled (ap stage (p.settled over) ∙ over) ∙ p.settled over;
}

-- Every row has its successor at the same place; rows may follow.
abbrev pub Grown : List ExportJob → List ExportJob → Type 0
Grown [] later = Unit
Grown (job ∷ jobs) [] = ⊥
Grown (job ∷ jobs) (job' ∷ jobs') = Progress job job' × Grown jobs jobs'

Grown-refl : (rows : List ExportJob) → Grown rows rows
Grown-refl [] = tt
Grown-refl (job ∷ jobs) = (Progress-refl job, Grown-refl jobs)

Grown-trans : (xs ys zs : List ExportJob) → Grown xs ys → Grown ys zs → Grown xs zs
Grown-trans [] ys zs g h = tt
Grown-trans (x ∷ xs) [] zs g h = elim g [ ]
Grown-trans (x ∷ xs) (y ∷ ys) [] g h = elim h [ ]
Grown-trans (x ∷ xs) (y ∷ ys) (z ∷ zs) (p, g) (q, h) =
    (Progress-trans x y z p q, Grown-trans xs ys zs g h)

Grown-append : (rows more : List ExportJob) → Grown rows (rows ++ more)
Grown-append [] more = tt
Grown-append (job ∷ jobs) more = (Progress-refl job, Grown-append jobs more)

Grown-map :
    (f : ExportJob → ExportJob) (rows : List ExportJob)
    → ((job : ExportJob) → Progress job (f job))
    → Grown rows (map f rows)
Grown-map f [] keeps = tt
Grown-map f (job ∷ jobs) keeps = (keeps job, Grown-map f jobs keeps)

claimed-Progress :
    (held : ℕ → Bool) (job : ExportJob) → is_claimable held job ≡ true → Progress job (claimed job)
claimed-Progress held job h = record {
  frozen = refl;
  forward = ground arith;
  settled = λ over. ground arith;
}

claim_in-Grown : (held : ℕ → Bool) (rows : List ExportJob) → Grown rows (claim_in held rows).1
unfolding claim_in
claim_in-Grown held [] = tt
claim_in-Grown held (job ∷ rest) = elim (Bool-cases (is_claimable held job)) [
  | inl e ↦ rw (claim_in-cons held job rest) (rw e (claimed-Progress held job e, Grown-refl rest))
  | inr e ↦ rw (claim_in-cons held job rest) (rw e (Progress-refl job, claim_in-Grown held rest))
]

-- The calls that change the queue, with any argument and any outcome.
pub data Step (q : Queue) : Queue → Type 0 where
  enqueued :
      (fault : Bool) (project_id revision_id user_id : ℕ) (repo_name : Text) (is_private : Bool)
      → Step q (enqueue fault project_id revision_id user_id repo_name is_private q).1
  took : (fault : Bool) (held : ℕ → Bool) → Step q (claim fault held q).1
  ended_well : (fault : Bool) (id : ℕ) (url : Text) → Step q (mark_succeeded fault id url q).1
  ended_badly : (fault : Bool) (id : ℕ) (reason : Text) → Step q (mark_failed fault id reason q).1

pub data Reach (q : Queue) : Queue → Type 0 where
  here : Reach q q
  next : {m n : Queue} → Reach q m → Step m n → Reach q n

update_row-Progress :
    (id : ℕ) (set : ExportJob → ExportJob) (job : ExportJob)
    → frozen_part (set job) ≡ frozen_part job
    → stage (set job) ≡ 2
    → Progress job (update_row id set job)
update_row-Progress id set job frozen over = elim (Bool-cases (matches id job)) [
  | inl e ↦ rw e (record {
    frozen = frozen;
    forward = ground (arith, over);
    settled = λ h. absurd (ground arith);
  })
  | inr e ↦ rw e (Progress-refl job)
]

enqueue-Grown :
    (fault : Bool) (p r u : ℕ) (name : Text) (is_private : Bool) (q : Queue)
    → Grown q.rows (enqueue fault p r u name is_private q).1.rows
unfolding enqueue
enqueue-Grown fault p r u name is_private q = elim (Bool-cases (is_blank name)) [
  | inl e ↦ rw e (Grown-refl q.rows)
  | inr e ↦ elim (Bool-cases fault) [
    | inl f ↦ rw e (rw f (Grown-refl q.rows))
    | inr f ↦ rw e (rw f (Grown-append q.rows _))
  ]
]

claim-Grown :
    (fault : Bool) (held : ℕ → Bool) (q : Queue) → Grown q.rows (claim fault held q).1.rows
unfolding claim
claim-Grown true held q = Grown-refl q.rows
claim-Grown false held q = claim_in-Grown held q.rows

finish-Grown :
    (fault : Bool) (id : ℕ) (set : ExportJob → ExportJob) (q : Queue)
    → ((job : ExportJob) → (frozen_part (set job) ≡ frozen_part job) × (stage (set job) ≡ 2))
    → Grown q.rows (finish fault id set q).1.rows
unfolding finish
finish-Grown true id set q ends = Grown-refl q.rows
finish-Grown false id set q ends = elim (Bool-cases (any (matches id) q.rows)) [
  | inl e ↦ rw e (
      Grown-map (update_row id set) q.rows
        (λ job. update_row-Progress id set job (ends job).0 (ends job).1))
  | inr e ↦ rw e (Grown-refl q.rows)
]

Step-Grown : (q q' : Queue) → Step q q' → Grown q.rows q'.rows
unfolding mark_succeeded mark_failed
Step-Grown q _ (enqueued fault p r u name is_private) = enqueue-Grown fault p r u name is_private q
Step-Grown q _ (took fault held) = claim-Grown fault held q
Step-Grown q _ (ended_well fault id url) =
    finish-Grown fault id (set_succeeded url) q (λ job. (refl, refl))
Step-Grown q _ (ended_badly fault id reason) =
    finish-Grown fault id (set_failed reason) q (λ job. (refl, refl))

pub Reach-Grown : (q q' : Queue) → Reach q q' → Grown q.rows q'.rows
Reach-Grown q _ here = Grown-refl q.rows
Reach-Grown q q' (next {m} r s) =
    Grown-trans q.rows m.rows q'.rows (Reach-Grown q m r) (Step-Grown m q' s)

same_id : (job job' : ExportJob) → Progress job job' → job'.id ≡ job.id
same_id job job' p = ap (λ (j : ExportJob). j.id) p.frozen

Grown-row :
    (rows rows' : List ExportJob) (id : ℕ) (job : ExportJob)
    → Grown rows rows'
    → row rows id ≡ some job
    → (job' : ExportJob) × (row rows' id ≡ some job') × Progress job job'
unfolding row
Grown-row [] rows' id job g h = absurd (ground arith)
Grown-row (first ∷ rest) [] id job g h = elim g [ ]
Grown-row (first ∷ rest) (first' ∷ rest') id job (p, g) h =
    elim (Bool-cases (nat_beq first.id id)) [
      | inl e ↦
          let h' : some first ≡ some job =
            ap (λ b. if b then some first else row rest id) (sym e) ∙ h in
          (
            first',
            rw (same_id first first' p) (rw e refl),
            subst (λ j. Progress j first') (some-injective _ _ h') p,
          )
      | inr e ↦
          let h' : row rest id ≡ some job =
            ap (λ b. if b then some first else row rest id) (sym e) ∙ h in
          let (job', found, q) = Grown-row rest rest' id job g h' in
          (job', rw (same_id first first' p) (rw e found), q)
    ]

-- Over every sequence of calls, whoever makes them and whatever fails, a job that the table holds
-- stays in it under its key with what it froze (project, revision, user, repository), its stage
-- (queued, running, ended) does not go back, and once it has ended nothing of it changes.
pub get-Reach :
    (q q' : Queue) (id : ℕ) (job : ExportJob)
    → Reach q q'
    → get false id q ≡ ok (some job)
    → (job' : ExportJob) × (get false id q' ≡ ok (some job')) × Progress job job'
unfolding get
get-Reach q q' id job r h =
    let (job', found, p) =
      Grown-row q.rows q'.rows id job (Reach-Grown q q' r) (ok-injective _ _ h) in
    (job', ap ok found, p)
