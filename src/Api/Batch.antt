-- ===== src/Api/Batch.antt =====
-- backend/app/main.py: the batch endpoints, each a loop over job ids that sorts them into three lists.
use crate_probe.Prelude.{
  ℕ, Bool, false, not, none, some, List, [], ◌∷◌, ◌++◌, ℤ, if◌then◌else◌, is_some,
}
use crate_probe.Models.{is_running, is_pending}
use crate_probe.Database.Types.{JobRecord}
use crate_probe.Database.Tasks.{get_task_definition}
use crate_probe.Database.Jobs.{get_job, delete_job, update_job_priority}
use crate_probe.Scheduler.{cancel_task}
use crate_probe.Api.Types.{Env, Server}
use crate_probe.Api.Jobs.{reset_and_clear}

-- `results`: the ids that were acted on, those skipped and those not found
pub record Results : Type 0 where
  pub acted : List ℕ
  pub skipped : List ℕ
  pub not_found : List ℕ

abbrev pub no_results : Results
no_results = record { acted = []; skipped = []; not_found = [] }

-- One turn of a loop: an id that is unknown, one whose job the test refuses, one that is acted on.
unfoldable pub batch_step :
    (JobRecord → Server → Bool) → (ℕ → Server → Server) → ℕ → Results × Server → Results × Server
batch_step accepts act job_id (r, s) = elim (get_job job_id s.db) [
  | none ↦ (record r { not_found = r.not_found ++ job_id ∷ [] }, s)
  | some job ↦
      if accepts job s
      then (record r { acted = r.acted ++ job_id ∷ [] }, act job_id s)
      else (record r { skipped = r.skipped ++ job_id ∷ [] }, s)
]

unfoldable pub batch :
    (JobRecord → Server → Bool)
    → (ℕ → Server → Server)
    → List ℕ
    → Results × Server
    → Results × Server
unfolding batch_step
batch accepts act [] rs = rs
batch accepts act (job_id ∷ job_ids) rs =
    batch accepts act job_ids (batch_step accepts act job_id rs)

abbrev pub may_retry : JobRecord → Server → Bool
may_retry job s =
    if is_running job.status then false else is_some (get_task_definition job.task_id s.db)

unfoldable pub batch_retry_jobs : Env → List ℕ → Server → Results × Server
batch_retry_jobs env job_ids s = batch may_retry (reset_and_clear env) job_ids (no_results, s)

abbrev pub drop_job : ℕ → Server → Server
drop_job job_id s = record s { db = (delete_job job_id s.db).1 }

unfoldable pub batch_delete_jobs : List ℕ → Server → Results × Server
batch_delete_jobs job_ids s =
    batch (λ job s. not (is_running job.status)) drop_job job_ids (no_results, s)

unfoldable pub batch_set_priority : ℤ → List ℕ → Server → Results × Server
batch_set_priority priority job_ids s =
    batch (λ job s. is_pending job.status)
      (λ job_id s. record s { db = update_job_priority job_id priority s.db }) job_ids
      (no_results, s)

-- `clock k` is the time at which the job `k` is cancelled
unfoldable pub batch_cancel_jobs : (ℕ → ℕ) → List ℕ → Server → Results × Server
batch_cancel_jobs clock job_ids s =
    batch (λ job s. is_running job.status)
      (λ job_id s. record s { db = cancel_task (clock job_id) job_id s.db }) job_ids (no_results, s)
