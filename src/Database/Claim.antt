-- ===== src/Database/Claim.antt =====
-- backend/app/database.py, leases: `claim_pending_job` and `extend_runner_job_leases`. The token of
-- `secrets.token_urlsafe` is an argument.
pub mod Steps
pub mod Laws
pub mod Given
use crate_probe.Prelude.{
  ℕ, ◌+◌, Bool, true, false, not, ◌&&◌, Option, none, some, List, String, str_eq, pos,
  if◌then◌else◌, ◌==◌, opt_str_eq,
}
use crate_probe.Models.{pending, running, is_running, is_pending, status_eq}
use crate_probe.Table.{find, select, update, count, order_by, first}
use crate_probe.Database.Types.{JobRecord, TaskDefRecord, Database, seconds}
use crate_probe.Database.Jobs.{queue_before, get_job}

-- the row that the SELECT of `claim_pending_job` yields: the head of the pending queue
unfoldable pub next_pending : Database → Option JobRecord
next_pending db = first (order_by queue_before (select (λ j. status_eq pending j.status) db.jobs))

-- the first UPDATE: the snapshot is refreshed from a definition that differs
unfoldable pub refresh_snapshot : Option TaskDefRecord → JobRecord → Database → Database
refresh_snapshot none row db = db
refresh_snapshot (some t) row db =
    if not (str_eq t.sha256 row.task_sha256)
    then record db {
      jobs =
          update (λ j. j.id == row.id)
            (λ j. record j { task_name = t.name; task_sha256 = t.sha256; task_spec = t.spec })
            db.jobs;
    }
    else db

-- what the second UPDATE writes
unfoldable pub claim_row : ℕ → String → String → ℕ → JobRecord → JobRecord
claim_row now lease_token runner_id lease_expires_at j = record j {
  status = running;
  runner_id = some runner_id;
  lease_token = some lease_token;
  lease_expires_at = some lease_expires_at;
  started_at = some now;
  finished_at = none;
  exit_code = none;
  error_message = none;
  message = none;
  pid = none;
  last_sync_seq = some (pos 0);
  cancel_requested = false;
  last_state_sync_at = some now;
}

-- the second UPDATE, guarded by the status once more
unfoldable pub take_job : ℕ → String → String → ℕ → ℕ → Database → Option JobRecord × Database
unfolding claim_row get_job
take_job now lease_token runner_id lease_expires_at job_id db =
    let here : JobRecord → Bool = λ j. j.id == job_id && status_eq pending j.status in
    let db' = record db {
      jobs = update here (claim_row now lease_token runner_id lease_expires_at) db.jobs;
    } in
    if count here db.jobs == 0 then (none, db) else (get_job job_id db', db')

unfoldable pub claim_pending_job : ℕ → String → String → ℕ → Database → Option JobRecord × Database
unfolding next_pending refresh_snapshot take_job
claim_pending_job now lease_token runner_id lease_ttl_seconds db = elim (next_pending db) [
  | none ↦ (none, db)
  | some row ↦
      take_job now lease_token runner_id (now + seconds lease_ttl_seconds) row.id
        (refresh_snapshot (find (λ t. t.id == row.task_id) db.tasks) row db)
]

-- returns the number of leases extended
unfoldable pub extend_runner_job_leases : ℕ → String → ℕ → Database → ℕ × Database
extend_runner_job_leases now runner_id lease_ttl_seconds db =
    let here : JobRecord → Bool = λ j. is_running j.status && opt_str_eq j.runner_id runner_id in
    (
      count here db.jobs,
      record db {
        jobs =
            update here
              (λ j. record j { lease_expires_at = some (now + seconds lease_ttl_seconds) }) db.jobs;
      },
    )
