-- ===== src/Scheduler/Rounds.antt =====
-- backend/app/services/scheduler.py, `schedule_tasks`: what becomes of a job, by its columns.
use crate_probe.Models.{running, pending, runner_failed}
use crate_probe.Table.Rows.{find-map}
use crate_probe.Config.{Config}
use crate_probe.Database.Types.{JobRecord, Database, seconds}
use crate_probe.Database.Jobs.{get_job, fail_stale, is_stale}
use crate_probe.Scheduler.{requeue, schedule_tasks, is_expired}
use crate_probe.Scheduler.Tick.{ticked, schedule_tasks-ticked}
use crate_probe.Prelude.{
  ℕ, ◌+◌, ◌≡◌, ◌≤◌, some, none, map_option, refl, arith, ap, ◌∙◌, ◌==◌, coalesce, Bool-cases,
  Option-cases, inl, inr, true, false,
}

ticked-id :
    (now later : ℕ) (config : Config) (j : JobRecord) → (ticked now later config j).id ≡ j.id
unfolding ticked requeue fail_stale is_stale
ticked-id now later config j = ground arith

pub get_job-schedule_tasks :
    (now later : ℕ) (config : Config) (db : Database) (k : ℕ)
    → get_job k (schedule_tasks now later config db)
      ≡ map_option (ticked now later config) (get_job k db)
unfolding get_job
get_job-schedule_tasks now later config db k = rw (schedule_tasks-ticked now later config db) (
    find-map (λ r. r.id == k) (ticked now later config)
      (λ r. ap (λ i. i == k) (ticked-id now later config r)) db.jobs)

-- A running job whose lease has run out.
abbrev pub IsDue : ℕ → JobRecord → Type 0
IsDue now j = (j.status ≡ running) × (t : ℕ) × (j.lease_expires_at ≡ some t) × (t ≤ now)

-- A running job that was not heard of for the configured interval.
abbrev pub IsSilent : ℕ → Config → JobRecord → Type 0
IsSilent later config j =
    (j.status ≡ running)
    × (t : ℕ) × (j.last_state_sync_at ≡ some t)
    × (t + seconds config.max_state_sync_interval_seconds ≤ later)

-- A job that is back in the queue: held by nobody, with one more attempt.
abbrev pub queued_again : JobRecord → JobRecord
queued_again j = record j {
  status = pending;
  runner_id = none;
  lease_token = none;
  lease_expires_at = none;
  attempt = some (coalesce j.attempt 0 + 1);
}

-- A job whose runner is given up; an error that stands there is kept.
abbrev pub given_up : ℕ → JobRecord → JobRecord
given_up later j = record j {
  status = runner_failed;
  finished_at = some later;
  last_state_sync_at = none;
  error_message = some (coalesce j.error_message "Runner stopped sending state sync updates");
}

is_expired-IsDue : (now : ℕ) (j : JobRecord) → is_expired now j ≡ true → IsDue now j
unfolding is_expired
is_expired-IsDue now j e = elim (Option-cases j.lease_expires_at) [
  | inl never ↦ absurd (ground arith)
  | inr (t, at) ↦ (ground arith, t, at, ground arith)
]

is_stale-IsSilent :
    (later : ℕ) (config : Config) (j : JobRecord)
    → is_stale later config.max_state_sync_interval_seconds j ≡ true
    → IsSilent later config j
unfolding is_stale
is_stale-IsSilent later config j e = elim (Option-cases j.last_state_sync_at) [
  | inl never ↦ absurd (ground arith)
  | inr (t, at) ↦ (ground arith, t, at, ground arith)
]

not_expired : (now : ℕ) (j : JobRecord) → ¬ IsDue now j → is_expired now j ≡ false
not_expired now j live = elim (Bool-cases (is_expired now j)) [
  | inl e ↦ absurd (live (is_expired-IsDue now j e))
  | inr e ↦ e
]

not_stale :
    (later : ℕ) (config : Config) (j : JobRecord)
    → ¬ IsSilent later config j
    → is_stale later config.max_state_sync_interval_seconds j ≡ false
not_stale later config j heard =
    elim (Bool-cases (is_stale later config.max_state_sync_interval_seconds j)) [
      | inl e ↦ absurd (heard (is_stale-IsSilent later config j e))
      | inr e ↦ e
    ]

ticked-due :
    (now later : ℕ) (config : Config) (j : JobRecord)
    → IsDue now j
    → ticked now later config j ≡ queued_again j
unfolding ticked is_expired requeue
ticked-due now later config j (run, t, e, le) = ground arith

ticked-silent :
    (now later : ℕ) (config : Config) (j : JobRecord)
    → ¬ IsDue now j
    → IsSilent later config j
    → ticked now later config j ≡ given_up later j
unfolding ticked is_stale fail_stale
ticked-silent now later config j live (run, t, e, le) =
    let alive = not_expired now j live in
    let stale : is_stale later config.max_state_sync_interval_seconds j ≡ true = ground arith in
    rw (alive, stale) refl

ticked-kept :
    (now later : ℕ) (config : Config) (j : JobRecord)
    → ¬ IsDue now j
    → ¬ IsSilent later config j
    → ticked now later config j ≡ j
unfolding ticked
ticked-kept now later config j live heard =
    rw (not_expired now j live, not_stale later config j heard) refl

-- After a round of the scheduler a job whose lease had run out waits in the queue, held by nobody and
-- with one more attempt; any other running job that was silent for the configured interval is failed,
-- with the time and the reason; every other job is as it was. No column but these changes.
pub get_job-schedule_tasks-some :
    (now later : ℕ) (config : Config) (db : Database) (k : ℕ) (j : JobRecord)
    → get_job k db ≡ some j
    → let after = get_job k (schedule_tasks now later config db) in
      (IsDue now j → after ≡ some (queued_again j))
      × (¬ IsDue now j → IsSilent later config j → after ≡ some (given_up later j))
      × (¬ IsDue now j → ¬ IsSilent later config j → after ≡ some j)
get_job-schedule_tasks-some now later config db k j e =
    let here : get_job k (schedule_tasks now later config db) ≡ some (ticked now later config j) =
      get_job-schedule_tasks now later config db k ∙ rw e refl in
    (
      λ due. here ∙ ap some (ticked-due now later config j due),
      λ live silent. here ∙ ap some (ticked-silent now later config j live silent),
      λ live heard. here ∙ ap some (ticked-kept now later config j live heard),
    )
