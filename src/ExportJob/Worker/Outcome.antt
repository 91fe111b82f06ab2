-- ===== src/ExportJob/Worker/Outcome.antt =====
-- What one round of the worker leaves of the job that it claims.
use gombit_forge.Prelude.{ℕ, ◌≡◌, refl, ap, Bool, true, false, some, map, if◌then◌else◌, Text}
use gombit_forge.Prelude.Result.{Result, ok, err, ok-injective}
use gombit_forge.ProjectSpec.{ProjectSpec}
use gombit_forge.ExportJob.{
  ExportJob, JobError, Queue, running, is_running, get, claim, finish, set_succeeded, set_failed,
  mark_succeeded, mark_failed, row, update_row,
}
use gombit_forge.ExportJob.Rows.{row-update_row, matches-row, runs_at}
use gombit_forge.ExportJob.Claim.{IsOrdered, claim-Found}
use gombit_forge.ExportJob.Worker.{
  Exporting, fail_load_revision, fail_export, record_export, process_spec, run_once,
}

-- `finish` on a running job, when the database does not fail it.
pub finish-running :
    (id : ℕ) (set : ExportJob → ExportJob) (q : Queue) (job : ExportJob)
    → ((j : ExportJob) → (set j).id ≡ j.id)
    → get false id q ≡ ok (some job)
    → job.status ≡ running
    → get false id (finish false id set q).1 ≡ ok (some (set job))
unfolding get finish
finish-running id set q job keeps found runs =
    let (there, now) =
      row-update_row id set q.rows job keeps (ok-injective _ _ found)
        (ap (λ st. is_running (record job { status = st })) runs) in
    rw there (ap ok now)

-- Without a failure of the database, the outcome write succeeds exactly on a job that is running: an
-- unknown key, a queued job and one that has ended are refused, and then the queue is unchanged.
pub finish-get :
    (id : ℕ) (set : ExportJob → ExportJob) (q : Queue)
    → IsOrdered q
    → finish false id set q ≡ (
        if runs_at (row q.rows id)
        then (ok tt, record q { rows = map (update_row id set) q.rows })
        else (err JobError.not_running, q))
unfolding finish
finish-get id set q h =
    ap
      (λ b.
        if b
        then (ok tt, record q { rows = map (update_row id set) q.rows })
        else (err JobError.not_running, q))
      (matches-row 0 q.next_id id q.rows h)

module _ {ℓ} {E : Type ℓ} (ex : Exporting E) where
  -- The job as the export's result says it ends.
  abbrev pub ended_export : ExportJob → Result E Text → ExportJob
  ended_export job (ok url) = set_succeeded url job
  ended_export job (err e) = set_failed fail_export job

  abbrev pub ended_spec : ExportJob → Result E (ProjectSpec × Text) → ExportJob
  ended_spec job (err e) = set_failed fail_load_revision job
  ended_spec job (ok (spec, ref)) =
      ended_export job (ex.export_spec job.user_id job.repo_name job.is_private spec ref)

  abbrev pub ended : ExportJob → ExportJob
  ended job = ended_spec job (ex.revision_spec job.revision_id)

  record_export-ended :
      (job : ExportJob) (q : Queue) (r : Result E Text)
      → get false job.id q ≡ ok (some job)
      → job.status ≡ running
      → get false job.id (record_export ex false job r q) ≡ ok (some (ended_export job r))
  unfolding mark_succeeded mark_failed
  record_export-ended job q (ok url) found runs =
      finish-running job.id (set_succeeded url) q job (λ j. refl) found runs
  record_export-ended job q (err e) found runs =
      finish-running job.id (set_failed fail_export) q job (λ j. refl) found runs

  process_spec-ended :
      (job : ExportJob) (q : Queue) (r : Result E (ProjectSpec × Text))
      → get false job.id q ≡ ok (some job)
      → job.status ≡ running
      → get false job.id (process_spec ex false job r q) ≡ ok (some (ended_spec job r))
  unfolding mark_failed
  process_spec-ended job q (err e) found runs =
      finish-running job.id (set_failed fail_load_revision) q job (λ j. refl) found runs
  process_spec-ended job q (ok (spec, ref)) found runs =
      record_export-ended job q (ex.export_spec job.user_id job.repo_name job.is_private spec ref)
        found runs

  -- A round that claims a job does work, and, when the database does not fail the outcome write, the
  -- job ends as the revision's load and the export say: succeeded with the repository's URL, or
  -- failed with one of the two fixed reasons, never with the error's own text.
  pub run_once-ended :
      (held : ℕ → Bool) (q q' : Queue) (job : ExportJob)
      → IsOrdered q
      → claim false held q ≡ (ok (some job), q')
      → ((run_once ex false false held q).0 ≡ ok true)
        × (get false job.id (run_once ex false false held q).1 ≡ ok (some (ended job)))
  unfolding run_once
  run_once-ended held q q' job h e =
      let (_, now, _, runs) = claim-Found false held q q' job h e in
      rw e (refl, process_spec-ended job q' (ex.revision_spec job.revision_id) now runs)
