-- ===== src/System/Live.antt =====
-- backend/app/main.py, backend/app/services/scheduler.py: what holds in every state the control
-- plane reaches from an empty database, and of the running jobs after a round of the scheduler.
use crate_probe.Models.{running}
use crate_probe.Database.Types.{JobRecord, seconds}
use crate_probe.Config.{Config}
use crate_probe.Scheduler.Tick.{ticked, schedule_tasks-ticked, ticked-running}
use crate_probe.Api.Types.{Env}
use crate_probe.System.{Request, init, serve, serve_all}
use crate_probe.System.Rows.{IsLeased}
use crate_probe.System.Jobs.{JobsSound}
use crate_probe.System.Reach.{serve_all-IsSound}
use crate_probe.Prelude.{
  ℕ, String, List, ◌≡◌, some, subst, All, ◌<◌, sym, map, ◌+◌, ap, ◌∷◌, ◌∙◌, [], arith, is_some-some,
  is_some, refl,
}

-- A running job is held by a runner under a token, until a time after `now`, and it was heard of
-- less than the configured interval before `later`.
pub record IsLive (now later : ℕ) (config : Config) (j : JobRecord) : Type 0 where
  pub runner : (r : String) × (j.runner_id ≡ some r)
  pub token : (t : String) × (j.lease_token ≡ some t)
  pub lease : (t : ℕ) × (j.lease_expires_at ≡ some t) × (now < t)
  pub sync :
      (t : ℕ) × (j.last_state_sync_at ≡ some t)
      × (later < t + seconds config.max_state_sync_interval_seconds)

init-JobsSound : JobsSound init.db
init-JobsSound = record { keyed = ground arith; leased = tt }

-- In every state reached from an empty server by any sequence of requests, scheduler rounds and
-- restarts, job ids ascend and each job is `IsLeased`: a running job has a runner, a lease token
-- with a deadline, a start time and a last sync; a job that ended has the time of its end.
pub serve_all-JobsSound : (env : Env) (rs : List Request) → JobsSound (serve_all env rs init).db
serve_all-JobsSound env rs = serve_all-IsSound env rs init init-JobsSound

IsLive-row :
    (now later : ℕ) (config : Config) (j : JobRecord)
    → IsLeased j
    → j.status ≡ running
    → ((t : ℕ) → j.lease_expires_at ≡ some t → now < t)
    → ((t : ℕ)
        → j.last_state_sync_at ≡ some t
        → later < t + seconds config.max_state_sync_interval_seconds)
    → IsLive now later config j
IsLive-row now later config j h run lease sync =
    let token = is_some-some j.lease_token (h.held (rw run refl)) in
    let runner = is_some-some j.runner_id (h.owner ∙ ap is_some token.1) in
    let expires = is_some-some j.lease_expires_at (h.deadline ∙ ap is_some token.1) in
    let heard = is_some-some j.last_state_sync_at (h.heard (rw run refl)) in
    record {
      runner = runner;
      token = token;
      lease = (expires.0, expires.1, lease expires.0 expires.1);
      sync = (heard.0, heard.1, sync heard.0 heard.1);
    }

ticked-IsLive :
    (now later : ℕ) (config : Config) (j : JobRecord)
    → IsLeased j
    → (ticked now later config j).status ≡ running
    → IsLive now later config (ticked now later config j)
ticked-IsLive now later config j h run =
    let (same, lease, sync) = ticked-running now later config j run in
    subst (IsLive now later config) (sym same)
      (IsLive-row now later config j h (ap (λ r. r.status) (sym same) ∙ run) lease sync)

ticks-IsLive :
    (now later : ℕ) (config : Config) (rows : List JobRecord)
    → All IsLeased rows
    → All (λ j. j.status ≡ running → IsLive now later config j) (map (ticked now later config) rows)
ticks-IsLive now later config [] h = tt
ticks-IsLive now later config (j ∷ rows) h =
    (λ run. ticked-IsLive now later config j h.0 run, ticks-IsLive now later config rows h.1)

-- After a round of the scheduler, whatever sequence of requests came before it, every running job is
-- `IsLive`: it is held by a runner under a token whose lease has not run out at the time of the
-- round, and it was heard of within the configured interval.
pub tick-IsLive :
    (env : Env) (rs : List Request) (now later : ℕ)
    → All
        (λ j. j.status ≡ running → IsLive now later env.config j)
        (serve env (Request.tick now later) (serve_all env rs init)).db.jobs
unfolding serve
tick-IsLive env rs now later =
    let s = serve_all env rs init in
    rw (schedule_tasks-ticked now later env.config s.db)
      (ticks-IsLive now later env.config s.db.jobs (serve_all-JobsSound env rs).leased)
