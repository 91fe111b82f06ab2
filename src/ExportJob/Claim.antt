-- ===== src/ExportJob/Claim.antt =====
-- A job is claimed once: the keys stay in order, and a claimed job is not queued again.
use mathlib.Core.Option.{some-injective}
use mathlib.Core.Path.{subst}
use gombit_forge.Prelude.{
  ℕ, suc, ◌≡◌, ◌≢◌, refl, sym, ap, ◌∙◌, Bool, true, false, some, List, [], ◌∷◌, any, Text, arith,
  Bool-cases, inl, inr,
}
use gombit_forge.Prelude.Result.{ok, ok-injective}
use gombit_forge.Prelude.Space.{is_blank}
use gombit_forge.ExportJob.{
  ExportJob, Queue, queued, running, enqueue, get, is_claimable, claim_in, claim, matches,
  update_row, finish, set_succeeded, set_failed, mark_succeeded, mark_failed,
}
use gombit_forge.ExportJob.Rows.{
  Ordered, Ordered-append, Ordered-map, update_row-id, claim_in-Found, claim_in-cons,
}
use gombit_forge.ExportJob.Lifecycle.{
  Step, enqueued, took, ended_well, ended_badly, Reach, here, next, get-Reach, stage,
}

-- The keys rise and stay under the next one.
abbrev pub IsOrdered : Queue → Type 0
IsOrdered q = Ordered 0 q.next_id q.rows

claim_in-Ordered :
    (held : ℕ → Bool) (lo n : ℕ) (rows : List ExportJob)
    → Ordered lo n rows
    → Ordered lo n (claim_in held rows).1
unfolding claim_in
claim_in-Ordered held lo n [] h = h
claim_in-Ordered held lo n (first ∷ rest) (h, hs) =
    rw (claim_in-cons held first rest) (elim (Bool-cases (is_claimable held first)) [
      | inl c ↦ rw c (h, hs)
      | inr c ↦ rw c (h, claim_in-Ordered held (suc first.id) n rest hs)
    ])

enqueue-Ordered :
    (fault : Bool) (p r u : ℕ) (name : Text) (is_private : Bool) (q : Queue)
    → IsOrdered q
    → IsOrdered (enqueue fault p r u name is_private q).1
unfolding enqueue
enqueue-Ordered fault p r u name is_private q h = elim (Bool-cases (is_blank name)) [
  | inl e ↦ rw e h
  | inr e ↦ elim (Bool-cases fault) [
    | inl f ↦ rw e (rw f h)
    | inr f ↦ rw e (rw f (Ordered-append 0 q.next_id q.rows _ h refl))
  ]
]

claim-Ordered :
    (fault : Bool) (held : ℕ → Bool) (q : Queue) → IsOrdered q → IsOrdered (claim fault held q).1
unfolding claim
claim-Ordered true held q h = h
claim-Ordered false held q h = claim_in-Ordered held 0 q.next_id q.rows h

finish-Ordered :
    (fault : Bool) (id : ℕ) (set : ExportJob → ExportJob) (q : Queue)
    → ((job : ExportJob) → (set job).id ≡ job.id)
    → IsOrdered q
    → IsOrdered (finish fault id set q).1
unfolding finish
finish-Ordered true id set q keeps h = h
finish-Ordered false id set q keeps h = elim (Bool-cases (any (matches id) q.rows)) [
  | inl e ↦
      rw e (
        Ordered-map 0 q.next_id (update_row id set) q.rows (λ job. update_row-id id set job keeps)
          h)
  | inr e ↦ rw e h
]

pub Step-IsOrdered : (q q' : Queue) → Step q q' → IsOrdered q → IsOrdered q'
unfolding mark_succeeded mark_failed
Step-IsOrdered q _ (enqueued fault p r u name is_private) h =
    enqueue-Ordered fault p r u name is_private q h
Step-IsOrdered q _ (took fault held) h = claim-Ordered fault held q h
Step-IsOrdered q _ (ended_well fault id url) h =
    finish-Ordered fault id (set_succeeded url) q (λ job. refl) h
Step-IsOrdered q _ (ended_badly fault id reason) h =
    finish-Ordered fault id (set_failed reason) q (λ job. refl) h

pub Reach-IsOrdered : (q q' : Queue) → Reach q q' → IsOrdered q → IsOrdered q'
Reach-IsOrdered q _ here h = h
Reach-IsOrdered q q' (next {m} r s) h = Step-IsOrdered m q' s (Reach-IsOrdered q m r h)

-- What a successful claim did.
pub claim-Found :
    (fault : Bool) (held : ℕ → Bool) (q q' : Queue) (job : ExportJob)
    → IsOrdered q
    → claim fault held q ≡ (ok (some job), q')
    → (get false job.id q ≡ ok (some (record job { status = queued })))
      × (get false job.id q' ≡ ok (some job))
      × (held job.id ≡ false)
      × (job.status ≡ running)
unfolding claim get
claim-Found true held q q' job h e = absurd (cc)
claim-Found false held q q' job h e =
    let found : (claim_in held q.rows).0 ≡ some job = ok-injective _ _ (ap (λ p. p.0) e) in
    let after : (claim_in held q.rows).1 ≡ q'.rows = ap (λ p. p.1.rows) e in
    let f = claim_in-Found held 0 q.next_id q.rows q'.rows job h (λ i. (found i, after i)) in
    (ap ok f.was, ap ok f.now, f.free, f.runs)

-- In a table whose keys rise, a job that a call has claimed is claimed by no later one, whatever calls
-- come between.
pub claim-claim :
    (fault fault' : Bool) (held held' : ℕ → Bool) (q q₁ q₂ q₃ : Queue) (job job' : ExportJob)
    → IsOrdered q
    → claim fault held q ≡ (ok (some job), q₁)
    → Reach q₁ q₂
    → claim fault' held' q₂ ≡ (ok (some job'), q₃)
    → job'.id ≢ job.id
claim-claim fault fault' held held' q q₁ q₂ q₃ job job' h first r second same =
    let (_, now, _, runs) = claim-Found fault held q q₁ job h first in
    let (later, there, p) = get-Reach q₁ q₂ job.id job r now in
    let ordered₁ : IsOrdered q₁ = subst (λ p. IsOrdered p.1) first (claim-Ordered fault held q h) in
    let (was, _, _, _) =
      claim-Found fault' held' q₂ q₃ job' (Reach-IsOrdered q₁ q₂ r ordered₁) second in
    let clash : later ≡ record job' { status = queued } =
      some-injective _ _
        (ok-injective _ _ (sym there ∙ ap (λ id. get false id q₂) (sym same) ∙ was)) in
    let back : stage later ≡ 0 = ap stage clash in
    let started : stage job ≡ 1 = ap (λ st. stage (record job { status = st })) runs in
    omega (arith, back, started, p.forward)
