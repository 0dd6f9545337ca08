-- ===== src/Api/Leases.antt =====
-- backend/app/main.py, `require_job_lease`: who passes for a job after the operations that give a lease or
-- take it back.
use crate_probe.Models.{running}
use crate_probe.Table.Rows.{find-update, find-holds}
use crate_probe.Config.{Config}
use crate_probe.Database.Types.{JobRecord, Database}
use crate_probe.Database.Jobs.{get_job, reset_row, reset_job_for_retry}
use crate_probe.Database.Claim.{claim_row, claim_pending_job}
use crate_probe.Database.Claim.Steps.{JobsHaveKeys}
use crate_probe.Database.Claim.Laws.{claimed, claim_pending_job-claimed, get_job-claim_pending_job}
use crate_probe.Scheduler.{requeue, schedule_tasks}
use crate_probe.Scheduler.Tick.{ticked-expired}
use crate_probe.Scheduler.Rounds.{get_job-schedule_tasks}
use crate_probe.Api.Types.{ok, http_error}
use crate_probe.Api.Auth.{holds_lease, require_job_lease}
use crate_probe.Prelude.{
  ℕ, String, ◌≡◌, ◌↔◌, some, none, ◌≤◌, refl, arith, ◌∙◌, ap, Option-cases, ==-self, ◌==◌, inl, inr,
  opt_str_eq_iff,
}

-- A job passes for a runner and a token exactly if it stands there with both.
pub require_job_lease_iff :
    (job_id : ℕ) (runner token : String) (db : Database) (j : JobRecord)
    → (require_job_lease job_id runner token db ≡ ok j)
      ↔ ((get_job job_id db ≡ some j) × (j.runner_id ≡ some runner) × (j.lease_token ≡ some token))
unfolding require_job_lease holds_lease
require_job_lease_iff job_id runner token db j = elim (Option-cases (get_job job_id db)) [
  | inl missing ↦ (λ h. absurd (ground arith), λ h. absurd (ground arith))
  | inr (r, e) ↦ (
    λ h. ground (arith, opt_str_eq_iff r.runner_id runner, opt_str_eq_iff r.lease_token token),
    λ h. ground (arith, opt_str_eq_iff r.runner_id runner, opt_str_eq_iff r.lease_token token),
  )
]

unheld :
    (job_id : ℕ) (runner token : String) (db : Database) (j : JobRecord)
    → get_job job_id db ≡ some j
    → j.lease_token ≡ none
    → require_job_lease job_id runner token db ≡ http_error 409
unfolding require_job_lease holds_lease
unheld job_id runner token db j e n = ground arith

claimed_lease :
    (now : ℕ) (token runner : String) (ttl : ℕ) (db : Database) (j : JobRecord)
    → ((claimed now token runner ttl db j).runner_id ≡ some runner)
      × ((claimed now token runner ttl db j).lease_token ≡ some token)
unfolding claimed claim_row
claimed_lease now token runner ttl db j = (refl, refl)

-- After a claim exactly the claiming runner with the new token passes for the claimed job: whoever
-- held it before is refused.
pub claim_pending_job-fences :
    (now : ℕ) (token runner : String) (ttl : ℕ) (db : Database) {c : JobRecord}
    → JobsHaveKeys db
    → (claim_pending_job now token runner ttl db).0 ≡ some c
    → (r t : String) (j : JobRecord)
    → (require_job_lease c.id r t (claim_pending_job now token runner ttl db).1 ≡ ok j)
      ↔ ((r ≡ runner) × (t ≡ token) × (j ≡ c))
claim_pending_job-fences now token runner ttl db {c} keyed e r t j =
    let here : get_job c.id (claim_pending_job now token runner ttl db).1 ≡ some c =
      get_job-claim_pending_job now token runner ttl db keyed e c.id ∙ rw (==-self c.id) refl in
    let (i, next, same) = claim_pending_job-claimed now token runner ttl db keyed e in
    let (own, key) = claimed_lease now token runner ttl db i in
    ground (
      arith,
      require_job_lease_iff c.id r t (claim_pending_job now token runner ttl db).1 j,
      here,
      own,
      key,
      same,
    )

-- In the state after a round of the scheduler that finds the lease of a running job run out, nobody passes for
-- the job, whatever runner and token are given: its late holder is refused.
pub schedule_tasks-fences :
    (now later : ℕ) (config : Config) (db : Database) (k t : ℕ) (j : JobRecord)
    → get_job k db ≡ some j
    → j.status ≡ running
    → j.lease_expires_at ≡ some t
    → t ≤ now
    → (runner token : String)
    → require_job_lease k runner token (schedule_tasks now later config db) ≡ http_error 409
schedule_tasks-fences now later config db k t j e run due late runner token =
    unheld k runner token (schedule_tasks now later config db) (requeue j)
      (get_job-schedule_tasks now later config db k
        ∙ rw e (ap some (ticked-expired now later config j t run due late)))
      (unfold requeue in refl)

get_job-reset_job_for_retry :
    (db : Database) (k : ℕ) (j : JobRecord)
    → get_job k db ≡ some j
    → get_job k (reset_job_for_retry k db) ≡ some (reset_row j)
unfolding get_job reset_job_for_retry
get_job-reset_job_for_retry db k j e = ground (
  arith,
  find-holds (λ (r : JobRecord). r.id == k) db.jobs e,
  find-update (λ (r : JobRecord). r.id == k) (λ r. r.id == k) reset_row
      (λ r. unfold reset_row in refl) db.jobs,
)

-- A job that is reset for a retry has no holder either.
pub reset_job_for_retry-fences :
    (db : Database) (k : ℕ) (j : JobRecord)
    → get_job k db ≡ some j
    → (runner token : String)
    → require_job_lease k runner token (reset_job_for_retry k db) ≡ http_error 409
reset_job_for_retry-fences db k j e runner token =
    unheld k runner token (reset_job_for_retry k db) (reset_row j)
      (get_job-reset_job_for_retry db k j e) (unfold reset_row in refl)
