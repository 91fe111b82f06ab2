-- ===== src/ExportJob/Worker/Drained.antt =====
-- The inner loop of the worker empties the queue.
use gombit_forge.Prelude.{
  ℕ, zero, suc, ◌<◌, ◌≡◌, refl, sym, ap, ◌∙◌, Bool, false, Option, none, some, List, [], ◌∷◌, any,
  map, keep, length, Text, arith, Bool-cases, inl, inr,
}
use gombit_forge.Prelude.Result.{Result, ok, err}
use gombit_forge.ProjectSpec.{ProjectSpec}
use gombit_forge.ExportJob.{
  ExportJob, Queue, is_queued, is_claimable, claim_in, claim, finish, set_succeeded, set_failed,
  mark_succeeded, mark_failed, matches, update_row,
}
use gombit_forge.ExportJob.Rows.{claim_in-cons}
use gombit_forge.ExportJob.Worker.{
  Exporting, fail_load_revision, fail_export, record_export, process_spec, after_claim, run_once,
  after_round, drain,
}

-- How many rows are queued.
abbrev pub waiting : List ExportJob → ℕ
waiting rows = length (keep is_queued rows)

-- The rows that a claim leaves waiting.
abbrev claim_left : Option ExportJob → ℕ → ℕ
claim_left none n = n
claim_left (some job) n = suc n

left-cons :
    (job : ExportJob) (o : Option ExportJob) (rest after : List ExportJob)
    → waiting rest ≡ claim_left o (waiting after)
    → waiting (job ∷ rest) ≡ claim_left o (waiting (job ∷ after))
left-cons job none rest after h = ground (arith, h)
left-cons job (some taken) rest after h = ground (arith, h)

claim_in-waiting :
    (held : ℕ → Bool) (rows : List ExportJob)
    → waiting rows ≡ claim_left (claim_in held rows).0 (waiting (claim_in held rows).1)
unfolding claim_in
claim_in-waiting held [] = refl
claim_in-waiting held (job ∷ rest) = elim (Bool-cases (is_claimable held job)) [
  | inl c ↦ rw (claim_in-cons held job rest) (rw c (ground arith))
  | inr c ↦ rw (claim_in-cons held job rest) (
      rw c (
        left-cons job (claim_in held rest).0 rest (claim_in held rest).1
          (claim_in-waiting held rest)))
]

claim_in-empty : (rows : List ExportJob) → (claim_in (λ id. false) rows).0 ≡ none → waiting rows ≡ 0
unfolding claim_in
claim_in-empty [] h = refl
claim_in-empty (job ∷ rest) h = ground (arith, claim_in-empty rest)

update_row-waiting :
    (id : ℕ) (set : ExportJob → ExportJob) (rows : List ExportJob)
    → ((j : ExportJob) → is_queued (set j) ≡ false)
    → waiting (map (update_row id set) rows) ≡ waiting rows
update_row-waiting id set [] ends = refl
update_row-waiting id set (job ∷ rest) ends =
    ground (arith, ends job, update_row-waiting id set rest ends)

finish-waiting :
    (id : ℕ) (set : ExportJob → ExportJob) (q : Queue)
    → ((j : ExportJob) → is_queued (set j) ≡ false)
    → waiting (finish false id set q).1.rows ≡ waiting q.rows
unfolding finish
finish-waiting id set q ends = elim (Bool-cases (any (matches id) q.rows)) [
  | inl e ↦ rw e (update_row-waiting id set q.rows ends)
  | inr e ↦ rw e refl
]

abbrev pub never : ℕ → Bool
never n = false

claim_lem :
    (held : ℕ → Bool) (q : Queue)
    → claim false held q
      ≡ (ok (claim_in held q.rows).0, record q { rows = (claim_in held q.rows).1 })
unfolding claim
claim_lem held q = refl

module _ {ℓ} {E : Type ℓ} (ex : Exporting E) where
  record_export-waiting :
      (job : ExportJob) (q : Queue) (r : Result E Text)
      → waiting (record_export ex false job r q).rows ≡ waiting q.rows
  unfolding mark_succeeded mark_failed
  record_export-waiting job q (ok url) = finish-waiting job.id (set_succeeded url) q (λ j. refl)
  record_export-waiting job q (err e) = finish-waiting job.id (set_failed fail_export) q (λ j. refl)

  process_spec-waiting :
      (job : ExportJob) (q : Queue) (r : Result E (ProjectSpec × Text))
      → waiting (process_spec ex false job r q).rows ≡ waiting q.rows
  unfolding mark_failed
  process_spec-waiting job q (err e) =
      finish-waiting job.id (set_failed fail_load_revision) q (λ j. refl)
  process_spec-waiting job q (ok (spec, ref)) =
      record_export-waiting job q (ex.export_spec job.user_id job.repo_name job.is_private spec ref)

  -- The drained queue, from what the claim of the first round found.
  drain-found :
      (n : ℕ) (q : Queue) (o : Option ExportJob)
      → waiting q.rows < suc n
      → (claim_in never q.rows).0 ≡ o
      → ((q' : Queue)
          → waiting q'.rows < n
          → waiting (drain ex never never never never n q').rows ≡ 0)
      → waiting
          (after_round false
            (drain ex never never never never n)
            (after_claim ex false (ok o, record q { rows = (claim_in never q.rows).1 }))).rows
        ≡ 0
  drain-found n q none small found ih =
      let empty = claim_in-empty q.rows found in
      let left =
        claim_in-waiting never q.rows
        ∙ ap (λ o. claim_left o (waiting (claim_in never q.rows).1)) found in
      sym left ∙ empty
  drain-found n q (some job) small found ih =
      let left =
        claim_in-waiting never q.rows
        ∙ ap (λ o. claim_left o (waiting (claim_in never q.rows).1)) found in
      let same =
        process_spec-waiting job (record q { rows = (claim_in never q.rows).1 })
          (ex.revision_spec job.revision_id) in
      ih _ (omega (arith, left, same, small))

  -- When the database does not fail, nobody holds a row and the context is not cancelled, the inner
  -- loop of `Run` leaves no queued job after as many rounds as there were queued jobs and one more.
  pub drain-waiting :
      (n : ℕ) (q : Queue)
      → waiting q.rows < n
      → waiting (drain ex never never never never n q).rows ≡ 0
  unfolding drain run_once
  drain-waiting zero q small = absurd (omega arith)
  drain-waiting (suc n) q small =
      rw (claim_lem never q)
        (drain-found n q (claim_in never q.rows).0 small refl (drain-waiting n))
