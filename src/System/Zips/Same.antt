-- ===== src/System/Zips/Same.antt =====
-- backend/app/main.py, backend/app/services/scheduler.py: the task definitions and their stored zips, over
-- the other endpoints and the scheduler.
use crate_probe.Models.{failed, running}
use crate_probe.Database.Types.{JobRecord, Database, DbResult, raised, done}
use crate_probe.Database.Jobs.{
  create_job, delete_job, reset_job_for_retry, update_job_status, update_job_priority,
  get_jobs_by_status,
}
use crate_probe.Database.Claim.{
  claim_pending_job, take_job, refresh_snapshot, extend_runner_job_leases,
}
use crate_probe.Database.Runners.{
  create_runner, delete_runner, enable_runner, disable_runner, set_enabled, touch_runner_heartbeat,
}
use crate_probe.Database.Chunks.{record_job_file_chunk, reset_job_file_chunk_sequences}
use crate_probe.Database.Sync.{apply_job_sync, apply_status}
use crate_probe.Scheduler.{cancel_task, fail_jobs, recover_orphaned_tasks, cleanup_remaining_tasks}
use crate_probe.Api.Types.{Env, Server}
use crate_probe.Api.Runner.{
  clear_job_files, runner_heartbeat, claim_and_clear, claim_task, sync_reply,
  ingest_runner_job_sync,
}
use crate_probe.Api.Files.{
  Mode, append, full, push_chunk, push_safe, push_runner_job_file, upload_runner_job_artifact,
}
use crate_probe.Api.Jobs.{
  Lookup, create_job_endpoint, cancel_running_job, reset_and_clear, retry_job, delete_job_endpoint,
}
use crate_probe.Api.Batch.{drop_job, Results, batch_step, batch}
use crate_probe.Api.Admin.{
  create_runner_endpoint, delete_runner_endpoint, disable_runner_endpoint, enable_runner_endpoint,
}
use crate_probe.Prelude.{
  ℕ, [], ◌∷◌, ◌≡◌, String, ℤ, arith, Bool, Option, List, refl, some, ◌∙◌, none,
}
use crate_probe.FilePath.{Text}
use crate_probe.JobFiles.{Read}

-- Two states with the same definitions and zips.
abbrev pub SameTasks : Server → Server → Type 0
SameTasks s s' = (s'.db.tasks ≡ s.db.tasks) × (s'.zips ≡ s.zips)

pub heartbeat-SameTasks :
    (env : Env) (now later : ℕ) (runner : String) (auth : Option Text) (s : Server)
    → SameTasks s (runner_heartbeat env now later runner auth s).1
unfolding runner_heartbeat touch_runner_heartbeat extend_runner_job_leases
heartbeat-SameTasks env now later runner auth s = ground arith

claim-tasks :
    (now : ℕ) (token runner : String) (ttl : ℕ) (db : Database)
    → (claim_pending_job now token runner ttl db).1.tasks ≡ db.tasks
unfolding claim_pending_job take_job refresh_snapshot
claim-tasks now token runner ttl db = ground arith

claim_and_clear-SameTasks :
    (env : Env) (now : ℕ) (token runner : String) (s : Server)
    → SameTasks s (claim_and_clear env now token runner s).1
unfolding claim_and_clear reset_job_file_chunk_sequences
claim_and_clear-SameTasks env now token runner s =
    ground (arith, claim-tasks now token runner env.config.lease_ttl_seconds s.db)

pub claim-SameTasks :
    (env : Env) (now : ℕ) (token runner : String) (auth : Option Text) (jobs max : ℕ) (s : Server)
    → SameTasks s (claim_task env now token runner auth jobs max s).1
unfolding claim_task
claim-SameTasks env now token runner auth jobs max s =
    ground (arith, claim_and_clear-SameTasks env now token runner s)

sync-tasks :
    (now job_id : ℕ) (seq : ℤ) (status : String) (code : Option ℤ) (msg : Option String)
    (db : Database)
    → (apply_job_sync now job_id seq status code msg db).1.tasks ≡ db.tasks
unfolding apply_job_sync apply_status
sync-tasks now job_id seq status code msg db = ground arith

reply-SameTasks :
    (job_id : ℕ) (status : String) (s : Server) (r : DbResult (Option Bool) × Database)
    → ((sync_reply job_id status s r).1.db ≡ r.1) × ((sync_reply job_id status s r).1.zips ≡ s.zips)
unfolding sync_reply
reply-SameTasks job_id status s (raised e, db) = (refl, refl)
reply-SameTasks job_id status s (done none, db) = (refl, refl)
reply-SameTasks job_id status s (done (some b), db) = (refl, refl)

pub sync-SameTasks :
    (env : Env) (now : ℕ) (runner : String) (auth : Option Text) (job : ℕ) (lease : String)
    (seq : ℤ) (status : String) (code : Option ℤ) (msg : Option String) (s : Server)
    → SameTasks s (ingest_runner_job_sync env now runner auth job lease seq status code msg s).1
unfolding ingest_runner_job_sync
sync-SameTasks env now runner auth job lease seq status code msg s = ground (
  arith,
  reply-SameTasks job status s (apply_job_sync now job seq status code msg s.db),
  sync-tasks now job seq status code msg s.db,
)

push_safe-SameTasks :
    (env : Env) (job_id : ℕ) (path : String) (mode : Mode) (content : List ℕ) (seq : Option ℤ)
    (s : Server)
    → SameTasks s (push_safe env job_id path mode content seq s).1
unfolding push_safe push_chunk record_job_file_chunk
push_safe-SameTasks env job_id path append content none s = (refl, refl)
push_safe-SameTasks env job_id path append content (some seq) s = ground arith
push_safe-SameTasks env job_id path full content seq s = (refl, refl)

pub push-SameTasks :
    (env : Env) (runner : String) (auth : Option Text) (job_id : ℕ) (lease path : String)
    (mode : Mode) (content : List ℕ) (seq : Option ℤ) (s : Server)
    → SameTasks s (push_runner_job_file env runner auth job_id lease path mode content seq s).1
unfolding push_runner_job_file
push-SameTasks env runner auth job_id lease path mode content seq s =
    ground (arith, push_safe-SameTasks env job_id path mode content seq s)

pub artifact-SameTasks :
    (env : Env) (runner : String) (auth : Option Text) (job_id : ℕ) (lease path : String)
    (stream : List Read) (s : Server)
    → SameTasks s (upload_runner_job_artifact env runner auth job_id lease path stream s).1
unfolding upload_runner_job_artifact
artifact-SameTasks env runner auth job_id lease path stream s = ground arith

pub create-SameTasks :
    (now : ℕ) (crate : String) (task_id : ℕ) (lookup : Lookup) (s : Server)
    → SameTasks s (create_job_endpoint now crate task_id lookup s).1
unfolding create_job_endpoint create_job
create-SameTasks now crate task_id lookup s = ground arith

cancel-tasks : (now job_id : ℕ) (db : Database) → (cancel_task now job_id db).tasks ≡ db.tasks
unfolding cancel_task update_job_status
cancel-tasks now job_id db = ground arith

pub cancel_act-SameTasks :
    (now job_id : ℕ) (s : Server) → SameTasks s (record s { db = cancel_task now job_id s.db })
cancel_act-SameTasks now job_id s = (cancel-tasks now job_id s.db, refl)

pub cancel-SameTasks :
    (now job_id : ℕ) (s : Server) → SameTasks s (cancel_running_job now job_id s).1
unfolding cancel_running_job
cancel-SameTasks now job_id s = ground (arith, cancel-tasks now job_id s.db)

pub reset-SameTasks :
    (env : Env) (job_id : ℕ) (s : Server) → SameTasks s (reset_and_clear env job_id s)
unfolding reset_and_clear clear_job_files reset_job_for_retry reset_job_file_chunk_sequences
reset-SameTasks env job_id s = (refl, refl)

pub retry-SameTasks : (env : Env) (job_id : ℕ) (s : Server) → SameTasks s (retry_job env job_id s).1
unfolding retry_job
retry-SameTasks env job_id s = ground (arith, reset-SameTasks env job_id s)

pub remove-SameTasks : (job_id : ℕ) (s : Server) → SameTasks s (delete_job_endpoint job_id s).1
unfolding delete_job_endpoint delete_job
remove-SameTasks job_id s = ground arith

step-SameTasks :
    (accepts : JobRecord → Server → Bool) (act : ℕ → Server → Server)
    → ((k : ℕ) (s : Server) → SameTasks s (act k s))
    → (job_id : ℕ) (r : Results) (s : Server) → SameTasks s (batch_step accepts act job_id (r, s)).1
unfolding batch_step
step-SameTasks accepts act keep job_id r s = ground (arith, keep job_id s)

pub batch-SameTasks :
    (accepts : JobRecord → Server → Bool) (act : ℕ → Server → Server)
    → ((k : ℕ) (s : Server) → SameTasks s (act k s))
    → (job_ids : List ℕ) (r : Results) (s : Server)
    → SameTasks s (batch accepts act job_ids (r, s)).1
unfolding batch
batch-SameTasks accepts act keep [] r s = (refl, refl)
batch-SameTasks accepts act keep (k ∷ ks) r s =
    let (r', s') = batch_step accepts act k (r, s) in
    let (a, b) = batch-SameTasks accepts act keep ks r' s' in
    let (c, d) = step-SameTasks accepts act keep k r s in (a ∙ c, b ∙ d)

pub create_runner-SameTasks :
    (env : Env) (now : ℕ) (token : Text) (salt encoded : String) (admin : Option String)
    (runner : String) (s : Server)
    → SameTasks s (create_runner_endpoint env now token salt encoded admin runner s).1
unfolding create_runner_endpoint create_runner
create_runner-SameTasks env now token salt encoded admin runner s = ground arith

pub delete_runner-SameTasks :
    (env : Env) (admin : Option String) (runner : String) (s : Server)
    → SameTasks s (delete_runner_endpoint env admin runner s).1
unfolding delete_runner_endpoint delete_runner
delete_runner-SameTasks env admin runner s = ground arith

pub disable-SameTasks :
    (env : Env) (admin : Option String) (runner : String) (s : Server)
    → SameTasks s (disable_runner_endpoint env admin runner s).1
unfolding disable_runner_endpoint disable_runner set_enabled
disable-SameTasks env admin runner s = ground arith

pub enable-SameTasks :
    (env : Env) (admin : Option String) (runner : String) (s : Server)
    → SameTasks s (enable_runner_endpoint env admin runner s).1
unfolding enable_runner_endpoint enable_runner set_enabled
enable-SameTasks env admin runner s = ground arith

fail_jobs-tasks :
    (clock : JobRecord → ℕ) (reason : String) (js : List JobRecord) (db : Database)
    → (fail_jobs clock reason js db).tasks ≡ db.tasks
unfolding fail_jobs update_job_status
fail_jobs-tasks clock reason [] db = refl
fail_jobs-tasks clock reason (j ∷ js) db =
    fail_jobs-tasks clock reason js
      (update_job_status j.id failed none (some (clock j)) none (some reason) none db)

pub drop-SameTasks : (job_id : ℕ) (s : Server) → SameTasks s (drop_job job_id s)
unfolding delete_job
drop-SameTasks job_id s = (refl, refl)

pub priority-SameTasks :
    (priority : ℤ) (job_id : ℕ) (s : Server)
    → SameTasks s (record s { db = update_job_priority job_id priority s.db })
unfolding update_job_priority
priority-SameTasks priority job_id s = (refl, refl)

pub restart-SameTasks :
    (clock : JobRecord → ℕ) (s : Server)
    → SameTasks s (record s { db = recover_orphaned_tasks clock s.db })
unfolding recover_orphaned_tasks
restart-SameTasks clock s = (
  fail_jobs-tasks clock "Job interrupted by server restart" (get_jobs_by_status running s.db) s.db,
  refl,
)

pub shut_down-SameTasks :
    (clock : JobRecord → ℕ) (s : Server)
    → SameTasks s (record s { db = cleanup_remaining_tasks clock s.db })
unfolding cleanup_remaining_tasks
shut_down-SameTasks clock s = (
  fail_jobs-tasks clock "Job interrupted by server shutdown" (get_jobs_by_status running s.db) s.db,
  refl,
)
