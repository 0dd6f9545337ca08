-- ===== src/Scheduler/Tick.antt =====
-- backend/app/services/scheduler.py, `schedule_tasks`: what one round makes of each job.
use crate_probe.Models.{running}
use crate_probe.Database.Types.{JobRecord, Database, seconds}
use crate_probe.Database.Jobs.{is_stale, fail_stale}
use crate_probe.Scheduler.{is_expired, requeue, schedule_tasks}
use crate_probe.Prelude.{
  ℕ, if◌then◌else◌, List, ◌≡◌, map, ◌∷◌, arith, [], refl, ap, some, ◌<◌, ◌≤◌, ◌+◌,
}
use crate_probe.Config.{Config}
use crate_probe.Table.{update}

-- The job after a round: an expired lease puts it back in the queue, and only a job that is still
-- running is failed as stale.
unfoldable pub ticked : ℕ → ℕ → Config → JobRecord → JobRecord
ticked now later config j =
    if is_expired now j
    then requeue j
    else if is_stale later config.max_state_sync_interval_seconds j
    then fail_stale later j
    else j

ticked_rows :
    (now later : ℕ) (config : Config) (rows : List JobRecord)
    → update
        (is_stale later config.max_state_sync_interval_seconds)
        (fail_stale later)
        (update (is_expired now) requeue rows)
      ≡ map (ticked now later config) rows
unfolding ticked is_stale requeue
ticked_rows now later config [] = refl
ticked_rows now later config (j ∷ rows) = ground (arith, ticked_rows now later config rows)

-- A round of the scheduler applies `ticked` to each job, in place, and touches nothing else.
pub schedule_tasks-ticked :
    (now later : ℕ) (config : Config) (db : Database)
    → schedule_tasks now later config db
      ≡ record db { jobs = map (ticked now later config) db.jobs }
unfolding schedule_tasks
schedule_tasks-ticked now later config db =
    ap (λ (rows : List JobRecord). record db { jobs = rows }) (ticked_rows now later config db.jobs)

-- A job that a round leaves running was running, has not changed, holds no expired lease and is not
-- stale.
pub ticked-running :
    (now later : ℕ) (config : Config) (j : JobRecord)
    → (ticked now later config j).status ≡ running
    → (ticked now later config j ≡ j)
      × ((t : ℕ) → j.lease_expires_at ≡ some t → now < t)
      × ((t : ℕ)
          → j.last_state_sync_at ≡ some t
          → later < t + seconds config.max_state_sync_interval_seconds)
unfolding ticked is_expired requeue is_stale fail_stale
ticked-running now later config j h = (ground arith, λ t e. ground arith, λ t e. ground arith)

-- A running job whose lease has run out goes back to the queue: pending, held by nobody, with one
-- more attempt. It is not failed as stale in the same round.
pub ticked-expired :
    (now later : ℕ) (config : Config) (j : JobRecord) (t : ℕ)
    → j.status ≡ running
    → j.lease_expires_at ≡ some t
    → t ≤ now
    → ticked now later config j ≡ requeue j
unfolding ticked is_expired
ticked-expired now later config j t r e le = ground arith

-- A running job that was not heard of for the configured interval, and whose lease has not run
-- out, is failed.
pub ticked-stale :
    (now later : ℕ) (config : Config) (j : JobRecord) (s t : ℕ)
    → j.status ≡ running
    → j.lease_expires_at ≡ some s
    → now < s
    → j.last_state_sync_at ≡ some t
    → t + seconds config.max_state_sync_interval_seconds ≤ later
    → ticked now later config j ≡ fail_stale later j
unfolding ticked is_expired is_stale
ticked-stale now later config j s t r e lt k le = ground arith
