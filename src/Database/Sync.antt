-- ===== src/Database/Sync.antt =====
-- backend/app/database.py, `apply_job_sync`: the ordered status reports of a runner.
pub mod Laws
pub mod Transitions
use crate_probe.Prelude.{
  ℕ, Bool, true, false, ◌&&◌, Option, none, some, String, ℤ, pos, int_leb, if◌then◌else◌, ◌==◌,
  coalesce, override,
}
use crate_probe.Models.{TaskStatus, running, of_value, is_running, is_terminal}
use crate_probe.Table.{find, update}
use crate_probe.Database.Types.{JobRecord, Database, DbResult, done, raised, value_error}

-- what the UPDATE writes to the row
unfoldable pub sync_row : ℕ → ℤ → TaskStatus → Option ℤ → Option String → JobRecord → JobRecord
sync_row now sync_seq new_status exit_code message j = record j {
  last_sync_seq = some sync_seq;
  last_state_sync_at = some now;
  status = new_status;
  started_at = if is_running new_status then some (coalesce j.started_at now) else j.started_at;
  finished_at = if is_terminal new_status then some now else j.finished_at;
  exit_code = override exit_code j.exit_code;
  message = override message j.message;
}

-- the transaction after the status text was read; false is a refused transition
unfoldable pub apply_status :
    ℕ → ℤ → TaskStatus → Option ℤ → Option String → JobRecord → Database → Bool × Database
unfolding sync_row
apply_status now sync_seq new_status exit_code message row db =
    if is_terminal row.status && is_running new_status then (false, db) else (
      true,
      record db {
        jobs =
            update (λ j. j.id == row.id) (sync_row now sync_seq new_status exit_code message)
              db.jobs;
      },
    )

-- `none`: no such job; `some false`: a stale sequence or a refused transition; `some true`: applied.
-- A text that names no status raises, and the transaction is rolled back.
unfoldable pub apply_job_sync :
    ℕ → ℕ → ℤ → String → Option ℤ → Option String → Database → DbResult (Option Bool) × Database
unfolding apply_status
apply_job_sync now job_id sync_seq status exit_code message db =
    elim (find (λ j. j.id == job_id) db.jobs) [
      | none ↦ (done none, db)
      | some row ↦
          if int_leb sync_seq (coalesce row.last_sync_seq (pos 0))
          then (done (some false), db)
          else elim (of_value status) [
            | none ↦ (raised value_error, db)
            | some new_status ↦
                let (applied, db') =
                  apply_status now sync_seq new_status exit_code message row db in
                (done (some applied), db')
          ]
    ]
