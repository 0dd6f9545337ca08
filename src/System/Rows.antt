-- ===== src/System/Rows.antt =====
-- What is asked of every job between two operations, over the operations on a row
-- (backend/app/database.py, backend/app/services/scheduler.py).
use crate_probe.Models.{TaskStatus, is_running, is_terminal}
use crate_probe.Database.Types.{JobRecord}
use crate_probe.Database.Jobs.{set_status, reset_row, fail_stale}
use crate_probe.Database.Sync.{sync_row}
use crate_probe.Database.Claim.{claim_row}
use crate_probe.Scheduler.{requeue}
use crate_probe.Prelude.{is_some, ℕ, arith, ◌≡◌, String, ℤ, Option, true, none, some}

-- A lease is held whole or not at all; a running job holds one, was started and was heard of; a job
-- that ended has the time of its end.
pub record IsLeased (j : JobRecord) : Type 0 where
  pub owner : is_some j.runner_id ≡ is_some j.lease_token
  pub deadline : is_some j.lease_expires_at ≡ is_some j.lease_token
  pub held : is_running j.status ≡ true → is_some j.lease_token ≡ true
  pub heard : is_running j.status ≡ true → is_some j.last_state_sync_at ≡ true
  pub started : is_running j.status ≡ true → is_some j.started_at ≡ true
  pub finished : is_terminal j.status ≡ true → is_some j.finished_at ≡ true

pub claim_row-IsLeased :
    (now : ℕ) (token runner : String) (expires : ℕ) (j : JobRecord)
    → IsLeased (claim_row now token runner expires j)
unfolding claim_row
claim_row-IsLeased now token runner expires j = ground arith

pub requeue-IsLeased : (j : JobRecord) → IsLeased (requeue j)
unfolding requeue
requeue-IsLeased j = ground arith

pub reset_row-IsLeased : (j : JobRecord) → IsLeased (reset_row j)
unfolding reset_row
reset_row-IsLeased j = ground arith

pub fail_stale-IsLeased : (now : ℕ) (j : JobRecord) → IsLeased j → IsLeased (fail_stale now j)
unfolding fail_stale
fail_stale-IsLeased now j h = ground arith

-- A report is only taken from the holder of the lease.
pub sync_row-IsLeased :
    (now : ℕ) (seq : ℤ) (s : TaskStatus) (code : Option ℤ) (msg : Option String) (j : JobRecord)
    → is_some j.lease_token ≡ true
    → IsLeased j
    → IsLeased (sync_row now seq s code msg j)
unfolding sync_row
sync_row-IsLeased now seq s code msg j held h = ground arith

-- The ends that the scheduler and a cancellation write.
pub set_status-IsLeased :
    (status : TaskStatus) (now : ℕ) (reason : Option String) (j : JobRecord)
    → is_terminal status ≡ true
    → IsLeased j
    → IsLeased (set_status status none (some now) none reason none j)
unfolding set_status
set_status-IsLeased status now reason j e h = ground arith
