-- ===== src/Api/Runner.antt =====
-- backend/app/main.py: the endpoints that a runner calls for its leases and its status reports.
use crate_probe.Prelude.{
  ℕ, Bool, false, not, Option, none, some, List, ◌∷◌, String, ℤ, pos, if◌then◌else◌, ltb, leb, ◌==◌,
}
use crate_probe.FilePath.{Text}
use crate_probe.JobFiles.{clear}
use crate_probe.Models.{is_terminal, of_value}
use crate_probe.Database.Types.{JobRecord, Database, DbResult, done, raised}
use crate_probe.Database.Jobs.{get_job}
use crate_probe.Database.Sync.{apply_job_sync}
use crate_probe.Database.Chunks.{reset_job_file_chunk_sequences}
use crate_probe.Database.Claim.{claim_pending_job, extend_runner_job_leases}
use crate_probe.Database.Runners.{touch_runner_heartbeat}
use crate_probe.Api.Types.{
  Env, Server, Answer, ok, http_error, Message, job_update, dashboard_update, dashboard_completed,
}
use crate_probe.Api.Auth.{require_runner_auth, require_job_lease}

-- `_clear_job_files`
unfoldable pub clear_job_files : Env → ℕ → Server → Server
clear_job_files env job_id s = record s {
  db = reset_job_file_chunk_sequences job_id s.db;
  disk = clear env.store job_id s.disk;
}

unfoldable pub runner_heartbeat : Env → ℕ → ℕ → String → Option Text → Server → Answer (Unit {0})
runner_heartbeat env now later runner_id authorization s =
    let db1 = (touch_runner_heartbeat now runner_id s.db).1 in
    let db2 = (extend_runner_job_leases later runner_id env.config.lease_ttl_seconds db1).1 in
    if require_runner_auth env runner_id authorization s.db
    then (ok tt, record s { db = db2 })
    else (http_error 403, s)

-- the claim once the request is accepted; `none` is the status 204
unfoldable pub claim_and_clear : Env → ℕ → String → String → Server → Answer (Option JobRecord)
unfolding clear_job_files
claim_and_clear env now lease_token runner_id s =
    let (claimed, db') =
      claim_pending_job now lease_token runner_id env.config.lease_ttl_seconds s.db in
    elim claimed [
      | none ↦ (ok none, record s { db = db' })
      | some job ↦ (ok (some job), clear_job_files env job.id (record s { db = db' }))
    ]

-- `jobs` and `max_jobs` are the runner's load and capacity; the model of the request wants
-- `max_jobs` to be at least 1
unfoldable pub claim_task :
    Env → ℕ → String → String → Option Text → ℕ → ℕ → Server → Answer (Option JobRecord)
unfolding claim_and_clear
claim_task env now lease_token runner_id authorization jobs max_jobs s =
    if not (require_runner_auth env runner_id authorization s.db)
    then (http_error 403, s)
    else if max_jobs == 0
    then (http_error 422, s)
    else if ltb env.config.claim_max_jobs_hard_limit max_jobs
    then (http_error 422, s)
    else if ltb max_jobs jobs
    then (http_error 422, s)
    else if leb max_jobs jobs
    then (ok none, s)
    else claim_and_clear env now lease_token runner_id s

pub record SyncReply : Type 0 where
  pub synced : Bool
  pub last_sync_seq : Option ℤ

-- `job.last_sync_seq if job is not None else 0`
abbrev pub reported_seq : Option JobRecord → Option ℤ
reported_seq none = some (pos 0)
reported_seq (some job) = job.last_sync_seq

abbrev pub status_is_terminal : String → Bool
status_is_terminal status = elim (of_value status) [ none ↦ false | some s ↦ is_terminal s ]

-- what is broadcast after an applied report
abbrev pub sync_messages : ℕ → String → List Message → List Message
sync_messages job_id status sent =
    (if status_is_terminal status then dashboard_completed job_id else dashboard_update job_id)
    ∷ job_update job_id
    ∷ sent

unfoldable pub sync_reply :
    ℕ → String → Server → DbResult (Option Bool) × Database → Answer SyncReply
sync_reply job_id status s (raised e, db') = (http_error 500, record s { db = db' })
sync_reply job_id status s (done none, db') = (http_error 404, record s { db = db' })
sync_reply job_id status s (done (some applied), db') = (
  ok (record { synced = applied; last_sync_seq = reported_seq (get_job job_id db') }),
  record s { db = db'; sent = if applied then sync_messages job_id status s.sent else s.sent },
)

unfoldable pub ingest_runner_job_sync :
    Env
    → ℕ
    → String
    → Option Text
    → ℕ
    → String
    → ℤ
    → String
    → Option ℤ
    → Option String
    → Server
    → Answer SyncReply
unfolding sync_reply
ingest_runner_job_sync env now runner_id authorization job_id lease_token sync_seq status exit_code
      message s =
    if not (require_runner_auth env runner_id authorization s.db)
    then (http_error 403, s)
    else elim (require_job_lease job_id runner_id lease_token s.db) [
      | http_error code ↦ (http_error code, s)
      | ok job ↦
          sync_reply job_id status s
            (apply_job_sync now job_id sync_seq status exit_code message s.db)
    ]
