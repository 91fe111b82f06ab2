-- ===== src/ExportJob/Worker.antt =====
-- controlplane/internal/exportworker/worker.go: running one claimed job, and draining the queue. The
-- worker's interfaces `Revisions` and `Exporter` are parameters; the log and the times are left out.
pub mod Outcome
pub mod Drained
use gombit_forge.Prelude.{
  ℕ, zero, suc, Bool, true, false, Option, none, some, if◌then◌else◌, Text, codes,
}
use gombit_forge.Prelude.Result.{Result, ok, err}
use gombit_forge.ProjectSpec.{ProjectSpec}
use gombit_forge.ExportJob.{ExportJob, JobError, Queue, claim, mark_succeeded, mark_failed}

-- The spec of a revision with its reference, and the URL of the repository that an export made.
pub record Exporting {ℓ} (E : Type ℓ) : Type ℓ where
  pub revision_spec : ℕ → Result E (ProjectSpec × Text)
  pub export_spec : ℕ → Text → Bool → ProjectSpec → Text → Result E Text

abbrev pub fail_load_revision : Text
fail_load_revision = codes "could not load the revision to export"

abbrev pub fail_export : Text
fail_export = codes "source assembly or push to GitHub failed"

-- The inner loop of `Run`: `rest` is the loop's further rounds.
abbrev pub after_round : Bool → (Queue → Queue) → Result JobError Bool × Queue → Queue
after_round cancelled rest (err e, q) = q
after_round cancelled rest (ok false, q) = q
after_round cancelled rest (ok true, q) = if cancelled then q else rest q

module _ {ℓ} {E : Type ℓ} (ex : Exporting E) where
  -- After the export: `MarkSucceeded`, or `fail`. `fault` is the outcome write's.
  abbrev pub record_export : Bool → ExportJob → Result E Text → Queue → Queue
  record_export fault job (err e) q = (mark_failed fault job.id fail_export q).1
  record_export fault job (ok url) q = (mark_succeeded fault job.id url q).1

  abbrev pub process_spec : Bool → ExportJob → Result E (ProjectSpec × Text) → Queue → Queue
  process_spec fault job (err e) q = (mark_failed fault job.id fail_load_revision q).1
  process_spec fault job (ok (spec, ref)) q =
      record_export fault job (ex.export_spec job.user_id job.repo_name job.is_private spec ref) q

  abbrev pub process : Bool → ExportJob → Queue → Queue
  process fault job = process_spec fault job (ex.revision_spec job.revision_id)

  abbrev pub after_claim :
      Bool → Result JobError (Option ExportJob) × Queue → Result JobError Bool × Queue
  after_claim fault (err e, q) = (err e, q)
  after_claim fault (ok none, q) = (ok false, q)
  after_claim fault (ok (some job), q) = (ok true, process fault job q)

  unfoldable pub run_once : Bool → Bool → (ℕ → Bool) → Queue → Result JobError Bool × Queue
  run_once claim_fault fault held q = after_claim fault (claim claim_fault held q)

  -- At most `fuel` rounds; the faults and the context's end are told for each round.
  unfoldable pub drain : (ℕ → Bool) → (ℕ → Bool) → (ℕ → Bool) → (ℕ → Bool) → ℕ → Queue → Queue
  drain claim_fault fault cancelled held zero q = q
  drain claim_fault fault cancelled held (suc n) q =
      after_round (cancelled n) (drain claim_fault fault cancelled held n)
        (run_once (claim_fault n) (fault n) held q)
