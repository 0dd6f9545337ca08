-- ===== src/System.antt =====
-- The control plane as a whole: the database with the zips and files, driven by the endpoints of
-- backend/app/main.py and the rounds of backend/app/services/scheduler.py. What the environment
-- chooses (times, random tokens, requests, their order) is a list of requests.
pub mod Rows
pub mod Jobs
pub mod Leases
pub mod Safety
pub mod Untouched
pub mod Reach
pub mod Live
pub mod Zips
use crate_probe.Prelude.{ℕ, Option, List, [], ◌∷◌, String, ℤ}
use crate_probe.FilePath.{Text}
use crate_probe.JobFiles.{Read}
use crate_probe.TaskStore.{Upload}
use crate_probe.Database.Types
use crate_probe.Database.Types.{JobRecord}
use crate_probe.Scheduler.{schedule_tasks, recover_orphaned_tasks, cleanup_remaining_tasks}
use crate_probe.Api.Types.{Env, Server}
use crate_probe.Api.Runner.{runner_heartbeat, claim_task, ingest_runner_job_sync}
use crate_probe.Api.Files.{Mode, push_runner_job_file, upload_runner_job_artifact}
use crate_probe.Api.Tasks.{upload_task, update_task, delete_task}
use crate_probe.Api.Jobs.{
  Lookup, create_job_endpoint, cancel_running_job, retry_job, delete_job_endpoint,
}
use crate_probe.Api.Batch.{
  batch_retry_jobs, batch_delete_jobs, batch_set_priority, batch_cancel_jobs,
}
use crate_probe.Api.Admin.{
  create_runner_endpoint, delete_runner_endpoint, disable_runner_endpoint, enable_runner_endpoint,
}

pub data Request : Type 0 where
  heartbeat : ℕ → ℕ → String → Option Text → Request
  claim : ℕ → String → String → Option Text → ℕ → ℕ → Request
  sync : ℕ → String → Option Text → ℕ → String → ℤ → String → Option ℤ → Option String → Request
  push : String → Option Text → ℕ → String → String → Mode → List ℕ → Option ℤ → Request
  artifact : String → Option Text → ℕ → String → String → List Read → Request
  upload : ℕ → Option String → Upload → Request
  replace : ℕ → Option String → ℕ → Upload → Request
  remove_task : Option String → ℕ → Request
  create : ℕ → String → ℕ → Lookup → Request
  cancel : ℕ → ℕ → Request
  retry : ℕ → Request
  remove_job : ℕ → Request
  retry_all : List ℕ → Request
  delete_all : List ℕ → Request
  prioritise : ℤ → List ℕ → Request
  cancel_all : (ℕ → ℕ) → List ℕ → Request
  add_runner : ℕ → Text → String → String → Option String → String → Request
  remove_runner : Option String → String → Request
  disable : Option String → String → Request
  enable : Option String → String → Request
  tick : ℕ → ℕ → Request
  restart : (JobRecord → ℕ) → Request
  shut_down : (JobRecord → ℕ) → Request

abbrev pub init : Server
init = record { db = Types.empty; zips = []; disk = []; sent = [] }

unfoldable pub serve : Env → Request → Server → Server
serve env (heartbeat now later runner auth) s = (runner_heartbeat env now later runner auth s).1
serve env (claim now token runner auth jobs max) s =
    (claim_task env now token runner auth jobs max s).1
serve env (sync now runner auth job lease seq status code msg) s =
    (ingest_runner_job_sync env now runner auth job lease seq status code msg s).1
serve env (push runner auth job lease path mode content seq) s =
    (push_runner_job_file env runner auth job lease path mode content seq s).1
serve env (artifact runner auth job lease path stream) s =
    (upload_runner_job_artifact env runner auth job lease path stream s).1
serve env (upload now admin u) s = (upload_task env now admin u s).1
serve env (replace now admin task u) s = (update_task env now admin task u s).1
serve env (remove_task admin task) s = (delete_task env admin task s).1
serve env (create now crate task lookup) s = (create_job_endpoint now crate task lookup s).1
serve env (cancel now job) s = (cancel_running_job now job s).1
serve env (retry job) s = (retry_job env job s).1
serve env (remove_job job) s = (delete_job_endpoint job s).1
serve env (retry_all jobs) s = (batch_retry_jobs env jobs s).1
serve env (delete_all jobs) s = (batch_delete_jobs jobs s).1
serve env (prioritise priority jobs) s = (batch_set_priority priority jobs s).1
serve env (cancel_all clock jobs) s = (batch_cancel_jobs clock jobs s).1
serve env (add_runner now token salt encoded admin runner) s =
    (create_runner_endpoint env now token salt encoded admin runner s).1
serve env (remove_runner admin runner) s = (delete_runner_endpoint env admin runner s).1
serve env (disable admin runner) s = (disable_runner_endpoint env admin runner s).1
serve env (enable admin runner) s = (enable_runner_endpoint env admin runner s).1
serve env (tick now later) s = record s { db = schedule_tasks now later env.config s.db }
serve env (restart clock) s = record s { db = recover_orphaned_tasks clock s.db }
serve env (shut_down clock) s = record s { db = cleanup_remaining_tasks clock s.db }

unfoldable pub serve_all : Env → List Request → Server → Server
serve_all env [] s = s
serve_all env (r ∷ rs) s = serve_all env rs (serve env r s)
