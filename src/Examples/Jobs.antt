-- ===== src/Examples/Jobs.antt =====
-- The queue of export jobs with one job.
use gombit_forge.Prelude.{
  ℕ, ◌≡◌, ◌≢◌, refl, true, false, some, [], ◌∷◌, Text, codes, arith, if◌then◌else◌, map,
}
use gombit_forge.Prelude.Result.{ok, err}
use gombit_forge.ExportJob.{
  ExportJob, JobError, Queue, queued, claim, get, finish, row, set_succeeded, claimed, update_row,
}
use gombit_forge.ExportJob.Rows.{runs_at}
use gombit_forge.ExportJob.Lifecycle.{Progress, here, next, took, get-Reach}
use gombit_forge.ExportJob.Claim.{IsOrdered, claim-claim}
use gombit_forge.ExportJob.Worker.{Exporting, run_once, drain}
use gombit_forge.ExportJob.Worker.Outcome.{ended, finish-get, run_once-ended}
use gombit_forge.ExportJob.Worker.Drained.{waiting, never, drain-waiting}

abbrev job : ℕ → ExportJob
job n = record {
  id = n;
  project_id = 7;
  revision_id = 9;
  user_id = 3;
  repo_name = codes "shop";
  is_private = true;
  status = queued;
  repo_url = [];
  error = [];
}

abbrev queue : ExportJob → ExportJob → Queue
queue first second = record { next_id = 3; rows = first ∷ second ∷ [] }

abbrev two_jobs : Queue
two_jobs = queue (job 1) (job 2)

two_jobs-IsOrdered : IsOrdered two_jobs
two_jobs-IsOrdered = (omega arith, (omega arith, omega arith))

first_row : get false 1 two_jobs ≡ ok (some (job 1))
unfolding get
first_row = refl

get-Reach_example :
    (job' : ExportJob) × (get false 1 (claim false never two_jobs).1 ≡ ok (some job'))
    × Progress (job 1) job'
get-Reach_example =
    get-Reach two_jobs (claim false never two_jobs).1 1 (job 1) (next here (took false never))
      first_row

first_claim :
    claim false never two_jobs ≡ (ok (some (claimed (job 1))), queue (claimed (job 1)) (job 2))
unfolding claim
first_claim = refl

second_claim :
    claim false never (queue (claimed (job 1)) (job 2))
    ≡ (ok (some (claimed (job 2))), queue (claimed (job 1)) (claimed (job 2)))
unfolding claim
second_claim = refl

claim-claim_example : (claimed (job 2)).id ≢ (claimed (job 1)).id
claim-claim_example =
    claim-claim false false never never two_jobs (queue (claimed (job 1)) (job 2))
      (queue (claimed (job 1)) (job 2)) (queue (claimed (job 1)) (claimed (job 2)))
      (claimed (job 1)) (claimed (job 2)) two_jobs-IsOrdered first_claim here second_claim

-- No revision can be loaded.
abbrev nothing_loads : Exporting Text
nothing_loads = record { revision_spec = λ id. err []; export_spec = λ u n p s r. err [] }

run_once-ended_example :
    ((run_once nothing_loads false false never two_jobs).0 ≡ ok true)
    × (get false 1 (run_once nothing_loads false false never two_jobs).1
        ≡ ok (some (ended nothing_loads (claimed (job 1)))))
run_once-ended_example =
    run_once-ended nothing_loads never two_jobs (queue (claimed (job 1)) (job 2)) (claimed (job 1))
      two_jobs-IsOrdered first_claim

drain-waiting_example : waiting (drain nothing_loads never never never never 3 two_jobs).rows ≡ 0
drain-waiting_example = drain-waiting nothing_loads 3 two_jobs (omega arith)

finish-get_example : finish false 1 (set_succeeded []) two_jobs ≡ (
    if runs_at (row two_jobs.rows 1)
    then (ok tt, record two_jobs { rows = map (update_row 1 (set_succeeded [])) two_jobs.rows })
    else (err JobError.not_running, two_jobs))
finish-get_example = finish-get 1 (set_succeeded []) two_jobs two_jobs-IsOrdered
