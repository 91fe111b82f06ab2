-- ===== src/ExportJob.antt =====
-- controlplane/internal/exportjob/{models,service}.go: the queue of export jobs. `fault` tells that
-- the database fails the call, which then changes nothing; `held` are the rows that other
-- transactions hold locked. The rows are in the order of their keys; the times of a row are left out.
pub mod Rows
pub mod Lifecycle
pub mod Claim
pub mod Worker
use gombit_forge.Prelude.{
  ℕ, suc, ◌+◌, Bool, true, false, not, ◌&&◌, Option, none, some, List, [], ◌∷◌, ◌++◌, map, any,
  if◌then◌else◌, nat_beq, Text,
}
use gombit_forge.Prelude.Result.{Result, ok, err}
use gombit_forge.Prelude.Space.{is_blank}

pub data Status : Type 0 where
  queued running succeeded failed : Status

pub record ExportJob : Type 0 where
  pub id : ℕ
  pub project_id : ℕ
  pub revision_id : ℕ
  pub user_id : ℕ
  pub repo_name : Text
  pub is_private : Bool
  pub status : Status
  pub repo_url : Text
  pub error : Text

pub data JobError : Type 0 where
  blank_repo_name storage not_running : JobError

-- The table, with the next key of its sequence.
pub record Queue : Type 0 where
  pub next_id : ℕ
  pub rows : List ExportJob

abbrev pub is_queued : ExportJob → Bool
is_queued job = elim job.status [ queued ↦ true | _ ↦ false ]

abbrev pub is_running : ExportJob → Bool
is_running job = elim job.status [ running ↦ true | _ ↦ false ]

pub enqueue : Bool → ℕ → ℕ → ℕ → Text → Bool → Queue → Result JobError ExportJob × Queue
enqueue fault project_id revision_id user_id repo_name is_private q =
    if is_blank repo_name
    then (err blank_repo_name, q)
    else if fault
    then (err storage, q)
    else let job : ExportJob = record {
      id = q.next_id;
      project_id = project_id;
      revision_id = revision_id;
      user_id = user_id;
      repo_name = repo_name;
      is_private = is_private;
      status = queued;
      repo_url = [];
      error = [];
    } in
      (ok job, record { next_id = suc q.next_id; rows = q.rows ++ job ∷ [] })

-- The row with the key.
unfoldable pub row : List ExportJob → ℕ → Option ExportJob
row [] id = none
row (job ∷ rest) id = if nat_beq job.id id then some job else row rest id

-- `Get`: a row that is not found is no error.
unfoldable pub get : Bool → ℕ → Queue → Result JobError (Option ExportJob)
unfolding row
get fault id q = if fault then err storage else ok (row q.rows id)

abbrev pub is_claimable : (ℕ → Bool) → ExportJob → Bool
is_claimable held job = is_queued job && not (held job.id)

abbrev pub claimed : ExportJob → ExportJob
claimed job = record job { status = running }

abbrev keep_head : ExportJob → Option ExportJob × List ExportJob → Option ExportJob × List ExportJob
keep_head job (found, rest) = (found, job ∷ rest)

-- The transaction of `Claim`: the first queued row that nobody holds, set to running.
unfoldable pub claim_in : (ℕ → Bool) → List ExportJob → Option ExportJob × List ExportJob
claim_in held [] = (none, [])
claim_in held (job ∷ rest) =
    let later = claim_in held rest in
    if is_claimable held job then (some (claimed job), claimed job ∷ rest) else keep_head job later

unfoldable pub claim : Bool → (ℕ → Bool) → Queue → Result JobError (Option ExportJob) × Queue
unfolding claim_in
claim fault held q =
    if fault
    then (err storage, q)
    else let (found, rows) = claim_in held q.rows in (ok found, record q { rows = rows })

-- WHERE id = ? AND status = running
abbrev pub matches : ℕ → ExportJob → Bool
matches id job = nat_beq job.id id && is_running job

abbrev pub update_row : ℕ → (ExportJob → ExportJob) → ExportJob → ExportJob
update_row id set job = if matches id job then set job else job

pub finish : Bool → ℕ → (ExportJob → ExportJob) → Queue → Result {0, 0} JobError Unit × Queue
finish fault id set q =
    if fault
    then (err storage, q)
    else if any (matches id) q.rows
    then (ok tt, record q { rows = map (update_row id set) q.rows })
    else (err not_running, q)

abbrev pub set_succeeded : Text → ExportJob → ExportJob
set_succeeded url job = record job { status = succeeded; repo_url = url }

abbrev pub set_failed : Text → ExportJob → ExportJob
set_failed reason job = record job { status = failed; error = reason }

unfoldable pub mark_succeeded : Bool → ℕ → Text → Queue → Result {0, 0} JobError Unit × Queue
mark_succeeded fault id url = finish fault id (set_succeeded url)

unfoldable pub mark_failed : Bool → ℕ → Text → Queue → Result {0, 0} JobError Unit × Queue
mark_failed fault id reason = finish fault id (set_failed reason)
