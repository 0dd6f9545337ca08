-- ===== src/Scheduler.antt =====
-- backend/app/services/scheduler.py: the periodic recovery of jobs whose runner is gone. Each call
-- of `datetime.now()` is an argument.
pub mod Tick
pub mod Rounds
pub mod Recovery
use crate_probe.Prelude.{
  ℕ, suc, Bool, true, false, ◌&&◌, Option, none, some, List, [], ◌∷◌, String, leb, coalesce, length,
}
use crate_probe.Models.{TaskStatus, pending, running, failed, cancelled, is_running}
use crate_probe.Table.{update}
use crate_probe.Config.{Config}
use crate_probe.Database.Types.{JobRecord, Database}
use crate_probe.Database.Jobs.{get_job, get_jobs_by_status, update_job_status, reconcile_stale_jobs}

unfoldable pub get_running_count : Database → ℕ
get_running_count db = length (get_jobs_by_status running db)

-- the WHERE clause of `reconcile_expired_leases`
unfoldable pub is_expired : ℕ → JobRecord → Bool
is_expired now j =
    is_running j.status && elim j.lease_expires_at [ none ↦ false | some t ↦ leb t now ]

-- what its UPDATE writes
unfoldable pub requeue : JobRecord → JobRecord
requeue j = record j {
  status = pending;
  runner_id = none;
  lease_token = none;
  lease_expires_at = none;
  attempt = some (suc (coalesce j.attempt 0));
}

unfoldable pub reconcile_expired_leases : ℕ → Database → Database
unfolding is_expired requeue
reconcile_expired_leases now db = record db { jobs = update (is_expired now) requeue db.jobs }

unfoldable pub reconcile_stale_tasks : ℕ → Config → Database → Database
unfolding reconcile_stale_jobs
reconcile_stale_tasks now config db =
    (reconcile_stale_jobs now config.max_state_sync_interval_seconds db).1

-- one round; the two parts read the clock in turn
unfoldable pub schedule_tasks : ℕ → ℕ → Config → Database → Database
unfolding reconcile_expired_leases reconcile_stale_tasks
schedule_tasks now later config db =
    reconcile_stale_tasks later config (reconcile_expired_leases now db)

-- the loop of `recover_orphaned_tasks` and `_cleanup_remaining_tasks`; `clock j` is the time at
-- which the loop comes to `j`
unfoldable pub fail_jobs : (JobRecord → ℕ) → String → List JobRecord → Database → Database
fail_jobs clock reason [] db = db
fail_jobs clock reason (j ∷ js) db =
    fail_jobs clock reason js
      (update_job_status j.id failed none (some (clock j)) none (some reason) none db)

unfoldable pub cleanup_remaining_tasks : (JobRecord → ℕ) → Database → Database
cleanup_remaining_tasks clock db =
    fail_jobs clock "Job interrupted by server shutdown" (get_jobs_by_status running db) db

unfoldable pub recover_orphaned_tasks : (JobRecord → ℕ) → Database → Database
recover_orphaned_tasks clock db =
    fail_jobs clock "Job interrupted by server restart" (get_jobs_by_status running db) db

unfoldable pub cancel_task : ℕ → ℕ → Database → Database
cancel_task now job_id db = elim (get_job job_id db) [
  | none ↦ db
  | some job ↦ elim (is_running job.status) [
    | true ↦ update_job_status job_id cancelled none (some now) none none none db
    | false ↦ db
  ]
]
