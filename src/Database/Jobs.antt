-- ===== src/Database/Jobs.antt =====
-- backend/app/database.py, the jobs: creation, queries, deletion and the updates of single columns.
mod Order
unfoldable pub use Order.{priority_leb, queue_before}
pub use Order.{queue_before-IsOrder}
use crate_probe.Prelude.{
  ℕ, suc, ◌+◌, Bool, true, false, not, ◌&&◌, Option, none, some, List, [], ◌∷◌, ◌++◌, String,
  str_eq, ℤ, pos, if◌then◌else◌, leb, ltb, ◌==◌, is_some, coalesce, override,
}
use crate_probe.Models.{TaskStatus, pending, running, runner_failed, status_eq, is_running}
use crate_probe.Table.{find, select, update, delete, count, order_by}
use crate_probe.Database.Types.{JobRecord, ChunkRow, Database, seconds}

-- The columns that the INSERT leaves out take their DDL defaults.
unfoldable pub create_job :
    ℕ → String → String → ℕ → String → String → String → Database → ℕ × Database
create_job now crate_name version task_id task_name task_sha256 task_spec db =
    let row : JobRecord = record {
      id = suc db.job_seq;
      crate_name = crate_name;
      version = version;
      task_id = task_id;
      task_name = task_name;
      task_sha256 = task_sha256;
      task_spec = task_spec;
      status = pending;
      created_at = now;
      started_at = none;
      finished_at = none;
      pid = none;
      exit_code = none;
      error_message = none;
      message = none;
      memory_used_mb = none;
      priority = some (pos 0);
      runner_id = none;
      lease_token = none;
      lease_expires_at = none;
      attempt = some 0;
      last_sync_seq = some (pos 0);
      cancel_requested = false;
      last_state_sync_at = none;
    } in
    (suc db.job_seq, record db { jobs = db.jobs ++ row ∷ []; job_seq = suc db.job_seq })

unfoldable pub get_job : ℕ → Database → Option JobRecord
get_job job_id db = find (λ j. j.id == job_id) db.jobs

abbrev pub newest_first : JobRecord → JobRecord → Bool
newest_first a b = leb b.created_at a.created_at

unfoldable pub get_all_jobs : Database → List JobRecord
get_all_jobs db = order_by newest_first db.jobs

unfoldable pub get_jobs_by_status : TaskStatus → Database → List JobRecord
get_jobs_by_status status db =
    order_by newest_first (select (λ j. status_eq status j.status) db.jobs)

unfoldable pub get_pending_jobs_ordered : Database → List JobRecord
get_pending_jobs_ordered db =
    order_by queue_before (select (λ j. status_eq pending j.status) db.jobs)

-- returns whether a row was deleted
unfoldable pub delete_job : ℕ → Database → Bool × Database
delete_job job_id db = (
  ltb 0 (count (λ (j : JobRecord). j.id == job_id) db.jobs),
  record db { jobs = delete (λ j. j.id == job_id) db.jobs },
)

-- what `update_job_status` writes to the row
unfoldable pub set_status :
    TaskStatus
    → Option ℕ
    → Option ℕ
    → Option ℤ
    → Option String
    → Option String
    → JobRecord
    → JobRecord
set_status status started_at finished_at exit_code error_message message j = record j {
  status = status;
  started_at = override started_at j.started_at;
  finished_at = override finished_at j.finished_at;
  exit_code = override exit_code j.exit_code;
  error_message = override error_message j.error_message;
  message = override message j.message;
}

unfoldable pub update_job_status :
    ℕ
    → TaskStatus
    → Option ℕ
    → Option ℕ
    → Option ℤ
    → Option String
    → Option String
    → Database
    → Database
unfolding set_status
update_job_status job_id status started_at finished_at exit_code error_message message db =
    record db {
      jobs =
          update (λ j. j.id == job_id)
            (set_status status started_at finished_at exit_code error_message message) db.jobs;
    }

unfoldable pub update_job_priority : ℕ → ℤ → Database → Database
update_job_priority job_id priority db = record db {
  jobs = update (λ j. j.id == job_id) (λ j. record j { priority = some priority }) db.jobs;
}

unfoldable pub update_job_pid : ℕ → ℕ → Database → Database
update_job_pid job_id pid db = record db {
  jobs = update (λ j. j.id == job_id) (λ j. record j { pid = some pid }) db.jobs;
}

-- what the UPDATE of `reset_job_for_retry` writes to the row
unfoldable pub reset_row : JobRecord → JobRecord
reset_row j = record j {
  status = pending;
  started_at = none;
  finished_at = none;
  exit_code = none;
  error_message = none;
  message = none;
  pid = none;
  runner_id = none;
  lease_token = none;
  lease_expires_at = none;
  last_sync_seq = some (pos 0);
  cancel_requested = false;
  last_state_sync_at = none;
}

unfoldable pub reset_job_for_retry : ℕ → Database → Database
unfolding reset_row
reset_job_for_retry job_id db = record db {
  jobs = update (λ j. j.id == job_id) reset_row db.jobs;
  chunks = delete (λ (c : ChunkRow). c.job_id == job_id) db.chunks;
}

-- returns whether a row was updated
unfoldable pub update_job_state_sync : ℕ → ℕ → Database → Bool × Database
update_job_state_sync now job_id db =
    let here : JobRecord → Bool = λ j. j.id == job_id && is_running j.status in
    (
      ltb 0 (count here db.jobs),
      record db { jobs = update here (λ j. record j { last_state_sync_at = some now }) db.jobs },
    )

-- `last_state_sync_at <= now - interval`, for a time that is not NULL
unfoldable pub is_stale : ℕ → ℕ → JobRecord → Bool
is_stale now interval j =
    is_running j.status
    && elim j.last_state_sync_at [ none ↦ false | some t ↦ leb (t + seconds interval) now ]

unfoldable pub fail_stale : ℕ → JobRecord → JobRecord
fail_stale now j = record j {
  status = runner_failed;
  finished_at = some now;
  last_state_sync_at = none;
  error_message = some (coalesce j.error_message "Runner stopped sending state sync updates");
}

-- returns the number of jobs marked
unfoldable pub reconcile_stale_jobs : ℕ → ℕ → Database → ℕ × Database
unfolding is_stale fail_stale
reconcile_stale_jobs now interval db = (
  count (is_stale now interval) db.jobs,
  record db { jobs = update (is_stale now interval) (fail_stale now) db.jobs },
)
