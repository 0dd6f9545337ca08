-- ===== src/System/Safety.antt =====
-- backend/app/main.py: the invariant of the jobs table over the runner endpoints.
use crate_probe.Database.Types.{JobRecord, Database, DbResult, raised, done}
use crate_probe.Database.Runners.{touch_runner_heartbeat}
use crate_probe.Database.Chunks.{reset_job_file_chunk_sequences}
use crate_probe.Database.Jobs.{get_job}
use crate_probe.Database.Claim.{claim_pending_job}
use crate_probe.Api.Types.{Env, Server, Reply, ok, http_error}
use crate_probe.Api.Auth.{require_runner_auth, require_job_lease}
use crate_probe.Api.Runner.{
  clear_job_files, runner_heartbeat, claim_and_clear, claim_task, sync_reply,
  ingest_runner_job_sync,
}
use crate_probe.System.Jobs.{JobsSound}
use crate_probe.System.Leases.{
  extend_runner_job_leases-JobsSound, claim_pending_job-JobsSound, apply_job_sync-JobsSound,
}
use crate_probe.Prelude.{
  ◌≡◌, ℕ, arith, String, refl, subst, Option, All, Bool-cases, sym, inr, inl, ◌⊎◌, some, ℤ, is_some,
  Bool, true, none,
}
use crate_probe.FilePath.{Text}
use crate_probe.System.Rows.{IsLeased}

-- The jobs of a server.
abbrev pub IsSound : Server → Type 0
IsSound s = JobsSound s.db

pub JobsSound-same :
    (db db' : Database)
    → db'.jobs ≡ db.jobs
    → db'.job_seq ≡ db.job_seq
    → JobsSound db
    → JobsSound db'
JobsSound-same db db' e n h = record {
  keyed = ground (arith, h.keyed);
  leased = subst (All IsLeased) (sym e) h.leased;
}

pub runner_heartbeat-IsSound :
    (env : Env) (now later : ℕ) (runner : String) (auth : Option Text) (s : Server)
    → IsSound s
    → IsSound (runner_heartbeat env now later runner auth s).1
unfolding runner_heartbeat
runner_heartbeat-IsSound env now later runner auth s h =
    elim (Bool-cases (require_runner_auth env runner auth s.db)) [
      | inr out ↦ rw out h
      | inl in_ ↦ rw in_ (
          extend_runner_job_leases-JobsSound later runner env.config.lease_ttl_seconds _
            (unfold touch_runner_heartbeat in JobsSound-same s.db _ refl refl h))
    ]

pub clear_job_files-IsSound :
    (env : Env) (job_id : ℕ) (s : Server) → IsSound s → IsSound (clear_job_files env job_id s)
unfolding clear_job_files reset_job_file_chunk_sequences
clear_job_files-IsSound env job_id s h = JobsSound-same s.db _ refl refl h

pub Reply-cases :
    {A : Type 0} (r : Reply A) → ((n : ℕ) × (r ≡ http_error n)) ⊎ ((a : A) × (r ≡ ok a))
Reply-cases (ok a) = inr (a, refl)
Reply-cases (http_error n) = inl (n, refl)

-- Two databases with the same jobs.
abbrev pub SameJobs : Database → Database → Type 0
SameJobs db db' = (db'.jobs ≡ db.jobs) × (db'.job_seq ≡ db.job_seq)

claim_and_clear-jobs :
    (env : Env) (now : ℕ) (token runner : String) (s : Server)
    → SameJobs
        (claim_pending_job now token runner env.config.lease_ttl_seconds s.db).1
        (claim_and_clear env now token runner s).1.db
unfolding claim_and_clear reset_job_file_chunk_sequences
claim_and_clear-jobs env now token runner s = ground arith

claim_and_clear-IsSound :
    (env : Env) (now : ℕ) (token runner : String) (s : Server)
    → IsSound s
    → IsSound (claim_and_clear env now token runner s).1
claim_and_clear-IsSound env now token runner s h =
    let e = claim_and_clear-jobs env now token runner s in
    JobsSound-same _ _ e.0 e.1
      (claim_pending_job-JobsSound now token runner env.config.lease_ttl_seconds s.db h)

-- A claim that is refused, or made by a runner that is full, changes nothing.
claim_task_cases :
    (env : Env) (now : ℕ) (token runner : String) (auth : Option Text) (jobs max : ℕ) (s : Server)
    → ((claim_task env now token runner auth jobs max s).1 ≡ s)
      ⊎ ((claim_task env now token runner auth jobs max s).1
          ≡ (claim_and_clear env now token runner s).1)
unfolding claim_task
claim_task_cases env now token runner auth jobs max s = ground arith

pub claim_task-IsSound :
    (env : Env) (now : ℕ) (token runner : String) (auth : Option Text) (jobs max : ℕ) (s : Server)
    → IsSound s
    → IsSound (claim_task env now token runner auth jobs max s).1
claim_task-IsSound env now token runner auth jobs max s h =
    elim (claim_task_cases env now token runner auth jobs max s) [
      | inl same ↦ rw same h
      | inr claimed ↦ rw claimed (claim_and_clear-IsSound env now token runner s h)
    ]

lease_held :
    (job_id : ℕ) (runner lease : String) (db : Database) (j : JobRecord)
    → require_job_lease job_id runner lease db ≡ ok j
    → (get_job job_id db ≡ some j) × (is_some j.lease_token ≡ true)
unfolding require_job_lease
lease_held job_id runner lease db j h = ground arith

sync_reply-jobs :
    (job_id : ℕ) (status : String) (s : Server) (r : DbResult (Option Bool) × Database)
    → (sync_reply job_id status s r).1.db ≡ r.1
unfolding sync_reply
sync_reply-jobs job_id status s (raised e, db) = refl
sync_reply-jobs job_id status s (done none, db) = refl
sync_reply-jobs job_id status s (done (some applied), db) = refl

pub ingest_runner_job_sync-IsSound :
    (env : Env) (now : ℕ) (runner : String) (auth : Option Text) (job_id : ℕ) (lease : String)
    (seq : ℤ) (status : String) (code : Option ℤ) (msg : Option String) (s : Server)
    → IsSound s
    → IsSound (ingest_runner_job_sync env now runner auth job_id lease seq status code msg s).1
unfolding ingest_runner_job_sync
ingest_runner_job_sync-IsSound env now runner auth job_id lease seq status code msg s h =
    elim (Bool-cases (require_runner_auth env runner auth s.db)) [
      | inr out ↦ rw out h
      | inl known ↦ elim (Reply-cases (require_job_lease job_id runner lease s.db)) [
        | inl (n, e) ↦ rw (known, e) h
        | inr (j, e) ↦
            let l = lease_held job_id runner lease s.db j e in
            rw (known, e, sync_reply-jobs)
              (apply_job_sync-JobsSound now job_id seq status code msg j s.db l.0 l.1 h)
      ]
    ]
