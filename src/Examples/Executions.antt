-- ===== src/Examples/Executions.antt =====
-- A runner that executes the job that it holds.
use crate_probe.Models.{running, completed, of_value}
use crate_probe.Database.Jobs.{get_job}
use crate_probe.Database.Runners.{get_runner_by_runner_id}
use crate_probe.Api.Auth.{
  require_runner_auth, verify_runner, verify_token, extract_bearer_token, strip, lstrip, rstrip,
  split_once, holds_lease,
}
use crate_probe.Runner.{Exchange, response}
use crate_probe.Runner.Client.{settled, request_with_retry}
use crate_probe.Runner.Client.Attempts.{Retried, after, request_with_retry_lem, is_retried}
use crate_probe.Runner.Network.{Network, lost, reply_lost, delivered}
use crate_probe.Runner.Executor.{SyncState, initial, ended, interval_over, state_sync_loop}
use crate_probe.Runner.Executor.Reports.{Holds}
use crate_probe.Runner.Executor.Acks.{sync_job, Ready, Ended, state_sync_loop-Ended, EndsJob}
use crate_probe.Runner.Executor.Acks.Live.{state_sync_loop-acked}
use crate_probe.Examples.{env, server, db, header, is_success, held}
use crate_probe.Prelude.{
  ℕ, ◌≡◌, ◌∷◌, [], pos, refl, Bool, true, false, some, none, arith, ◌⊎◌, suc, ◌<◌, ◌+◌, zero,
}

-- the loop, once the reports of the first numbers were sent
abbrev looping : SyncState
looping = record initial { next_seq = 4 }

abbrev done : SyncState
done = record looping { status = "completed"; exit_code = some (pos 0) }

sample_Holds : Holds env "east" header 2 "token" held db
unfolding require_runner_auth verify_runner verify_token extract_bearer_token strip lstrip rstrip
    split_once holds_lease get_job get_runner_by_runner_id
sample_Holds = record { authenticated = refl; found = refl; leased = refl }

looping-Ready : Ready env "east" header 2 "token" looping held server
unfolding of_value
looping-Ready = record { held = sample_Holds; next = refl; status = (running, (refl, refl), refl) }

done-Ready : Ready env "east" header 2 "token" done held server
unfolding of_value
done-Ready = record { held = sample_Holds; next = refl; status = (completed, (refl, refl), refl) }

ends_completed : EndsJob (ended "completed" (some (pos 0)) none)
unfolding of_value
ends_completed = (completed, refl, refl)

abbrev flaky : Network
flaky = record {
  server = server;
  fates = lost ∷ reply_lost 400 ∷ delivered 500 ∷ delivered 600 ∷ [];
}

state_sync_loop-Ended_example :
    let (st', n') =
      state_sync_loop
        (sync_job env "east" header 2 "token" is_success)
        (ended "completed" (some (pos 0)) none ∷ interval_over ∷ [])
        looping
        flaky in
    (st'.terminal_acked ≡ false) ⊎ Ended env "east" header 2 "token" st' n'.server
state_sync_loop-Ended_example =
    state_sync_loop-Ended env "east" header 2 "token" is_success
      (ended "completed" (some (pos 0)) none ∷ interval_over ∷ []) looping held flaky
      (ends_completed, (tt, tt)) looping-Ready refl

done_known : of_value "completed" ≡ some completed
unfolding of_value
done_known = refl

state_sync_loop-acked_example :
    (state_sync_loop
      (sync_job env "east" header 2 "token" is_success)
      (interval_over ∷ interval_over ∷ interval_over ∷ [])
      done
      (record {
        server = server;
        fates = lost ∷ reply_lost 400 ∷ delivered 500 ∷ [];
      })).0.terminal_acked
    ≡ true
state_sync_loop-acked_example =
    state_sync_loop-acked env "east" header 2 "token" is_success refl 500 []
      (lost ∷ reply_lost 400 ∷ []) (interval_over ∷ interval_over ∷ interval_over ∷ []) done
      completed held server (tt, (tt, tt)) (tt, (tt, (tt, tt))) (omega arith) done-Ready done_known
      refl refl

-- a network that fails with the status 500 so many times
abbrev failing : ℕ → Exchange Bool × ℕ
failing zero = (response 200 true, zero)
failing (suc n) = (response 500 false, n)

request_with_retry_lem_example :
    (n : ℕ) × (n < 3)
    × Retried failing n 2
    × ((is_retried (failing (after failing n 2)).0 ≡ false) ⊎ (n + 1 ≡ 3))
    × (request_with_retry is_success failing 3 2
        ≡ (settled is_success (failing (after failing n 2)).0, (failing (after failing n 2)).1))
request_with_retry_lem_example = request_with_retry_lem is_success failing 3 2 (omega arith)
