-- ===== src/System/Zips/Reach.antt =====
-- backend/app/main.py: the task definitions and their stored zips, over sequences of requests.
use crate_probe.Database.Types.{TaskDefRecord}
use crate_probe.Database.Tasks.{get_task_definition}
use crate_probe.Table.Rows.{find-In}
use crate_probe.Scheduler.{schedule_tasks, recover_orphaned_tasks, cleanup_remaining_tasks}
use crate_probe.Scheduler.Tick.{schedule_tasks-ticked}
use crate_probe.TaskStore.{has_zip}
use crate_probe.Api.Types.{Env, Server, ok}
use crate_probe.Api.Tasks.{task_zip_file}
use crate_probe.Api.Runner.{runner_heartbeat, claim_task, ingest_runner_job_sync}
use crate_probe.Api.Files.{push_runner_job_file, upload_runner_job_artifact}
use crate_probe.Api.Jobs.{create_job_endpoint, cancel_running_job, retry_job, delete_job_endpoint}
use crate_probe.Api.Batch.{
  batch_retry_jobs, batch_delete_jobs, batch_set_priority, batch_cancel_jobs, no_results,
}
use crate_probe.Api.Admin.{
  create_runner_endpoint, delete_runner_endpoint, disable_runner_endpoint, enable_runner_endpoint,
}
use crate_probe.System.{Request, init, serve, serve_all}
use crate_probe.System.Zips.{ZipsKept, KeepsZips}
use crate_probe.System.Zips.Endpoints.{
  upload_task-ZipsKept, update_task-ZipsKept, delete_task-ZipsKept,
}
use crate_probe.System.Zips.Same.{
  SameTasks, heartbeat-SameTasks, claim-SameTasks, sync-SameTasks, push-SameTasks,
  artifact-SameTasks, create-SameTasks, cancel_act-SameTasks, cancel-SameTasks, reset-SameTasks,
  retry-SameTasks, remove-SameTasks, batch-SameTasks, create_runner-SameTasks,
  delete_runner-SameTasks, disable-SameTasks, enable-SameTasks, drop-SameTasks, priority-SameTasks,
  restart-SameTasks, shut_down-SameTasks,
}
use crate_probe.Prelude.{ℕ, [], ◌∷◌, subst, List, ◌≡◌, refl, sym, some, true, ◌==◌, arith}

same-ZipsKept : (s s' : Server) → SameTasks s s' → KeepsZips s → KeepsZips s'
same-ZipsKept s s' e h =
    subst (λ ts. ZipsKept ts s'.zips) (sym e.0) (subst (λ zs. ZipsKept s.db.tasks zs) (sym e.1) h)

tick-tasks :
    (env : Env) (now later : ℕ) (s : Server)
    → SameTasks s (record s { db = schedule_tasks now later env.config s.db })
tick-tasks env now later s = (rw (schedule_tasks-ticked now later env.config s.db) refl, refl)

pub serve-ZipsKept :
    (env : Env) (r : Request) (s : Server) → KeepsZips s → KeepsZips (serve env r s)
unfolding serve
serve-ZipsKept env (Request.heartbeat now later runner auth) s h =
    same-ZipsKept s (runner_heartbeat env now later runner auth s).1
      (heartbeat-SameTasks env now later runner auth s) h
serve-ZipsKept env (Request.claim now token runner auth jobs max) s h =
    same-ZipsKept s (claim_task env now token runner auth jobs max s).1
      (claim-SameTasks env now token runner auth jobs max s) h
serve-ZipsKept env (Request.sync now runner auth job lease seq status code msg) s h =
    same-ZipsKept s (ingest_runner_job_sync env now runner auth job lease seq status code msg s).1
      (sync-SameTasks env now runner auth job lease seq status code msg s) h
serve-ZipsKept env (Request.push runner auth job lease path mode content seq) s h =
    same-ZipsKept s (push_runner_job_file env runner auth job lease path mode content seq s).1
      (push-SameTasks env runner auth job lease path mode content seq s) h
serve-ZipsKept env (Request.artifact runner auth job lease path stream) s h =
    same-ZipsKept s (upload_runner_job_artifact env runner auth job lease path stream s).1
      (artifact-SameTasks env runner auth job lease path stream s) h
serve-ZipsKept env (Request.upload now admin u) s h = upload_task-ZipsKept env now admin u s h
serve-ZipsKept env (Request.replace now admin task u) s h =
    update_task-ZipsKept env now admin task u s h
serve-ZipsKept env (Request.remove_task admin task) s h = delete_task-ZipsKept env admin task s h
serve-ZipsKept env (Request.create now crate task lookup) s h =
    same-ZipsKept s (create_job_endpoint now crate task lookup s).1
      (create-SameTasks now crate task lookup s) h
serve-ZipsKept env (Request.cancel now job) s h =
    same-ZipsKept s (cancel_running_job now job s).1 (cancel-SameTasks now job s) h
serve-ZipsKept env (Request.retry job) s h =
    same-ZipsKept s (retry_job env job s).1 (retry-SameTasks env job s) h
serve-ZipsKept env (Request.remove_job job) s h =
    same-ZipsKept s (delete_job_endpoint job s).1 (remove-SameTasks job s) h
serve-ZipsKept env (Request.retry_all jobs) s h =
    same-ZipsKept s (batch_retry_jobs env jobs s).1
      (unfold batch_retry_jobs in batch-SameTasks _ _ (reset-SameTasks env) jobs no_results s) h
serve-ZipsKept env (Request.delete_all jobs) s h =
    same-ZipsKept s (batch_delete_jobs jobs s).1
      (unfold batch_delete_jobs in batch-SameTasks _ _ drop-SameTasks jobs no_results s) h
serve-ZipsKept env (Request.prioritise priority jobs) s h =
    same-ZipsKept s (batch_set_priority priority jobs s).1
      (unfold batch_set_priority in
        batch-SameTasks _ _ (priority-SameTasks priority) jobs no_results s)
      h
serve-ZipsKept env (Request.cancel_all clock jobs) s h =
    same-ZipsKept s (batch_cancel_jobs clock jobs s).1
      (unfold batch_cancel_jobs in
        batch-SameTasks _ _ (λ k t. cancel_act-SameTasks (clock k) k t) jobs no_results s)
      h
serve-ZipsKept env (Request.add_runner now token salt encoded admin runner) s h =
    same-ZipsKept s (create_runner_endpoint env now token salt encoded admin runner s).1
      (create_runner-SameTasks env now token salt encoded admin runner s) h
serve-ZipsKept env (Request.remove_runner admin runner) s h =
    same-ZipsKept s (delete_runner_endpoint env admin runner s).1
      (delete_runner-SameTasks env admin runner s) h
serve-ZipsKept env (Request.disable admin runner) s h =
    same-ZipsKept s (disable_runner_endpoint env admin runner s).1
      (disable-SameTasks env admin runner s) h
serve-ZipsKept env (Request.enable admin runner) s h =
    same-ZipsKept s (enable_runner_endpoint env admin runner s).1
      (enable-SameTasks env admin runner s) h
serve-ZipsKept env (Request.tick now later) s h =
    same-ZipsKept s (record s { db = schedule_tasks now later env.config s.db })
      (tick-tasks env now later s) h
serve-ZipsKept env (Request.restart clock) s h =
    same-ZipsKept s (record s { db = recover_orphaned_tasks clock s.db })
      (restart-SameTasks clock s) h
serve-ZipsKept env (Request.shut_down clock) s h =
    same-ZipsKept s (record s { db = cleanup_remaining_tasks clock s.db })
      (shut_down-SameTasks clock s) h

serve_all-ZipsKept :
    (env : Env) (rs : List Request) (s : Server) → KeepsZips s → KeepsZips (serve_all env rs s)
unfolding serve_all
serve_all-ZipsKept env [] s h = h
serve_all-ZipsKept env (r ∷ rs) s h =
    serve_all-ZipsKept env rs (serve env r s) (serve-ZipsKept env r s h)

init-ZipsKept : KeepsZips init
init-ZipsKept = record { stored = λ t i. absurd (i tt); unique = λ t u i k e. absurd (i tt) }

found_zip :
    (task_id : ℕ) (t : TaskDefRecord) (s : Server)
    → get_task_definition task_id s.db ≡ some t
    → has_zip t.sha256 s.zips ≡ true
    → task_zip_file task_id s ≡ ok t
unfolding task_zip_file
found_zip task_id t s e z = ground (arith, e, z)

-- In every state reached from an empty server, by any sequence of requests, scheduler rounds and
-- restarts, each task definition that is found has its zip: no replacement and no deletion of another
-- definition takes it away.
pub task_zip_file-found :
    (env : Env) (rs : List Request) (task_id : ℕ) (t : TaskDefRecord)
    → get_task_definition task_id (serve_all env rs init).db ≡ some t
    → task_zip_file task_id (serve_all env rs init) ≡ ok t
task_zip_file-found env rs task_id t e =
    let s = serve_all env rs init in
    found_zip task_id t s e (
      (serve_all-ZipsKept env rs init init-ZipsKept).stored t
        (find-In (λ t. t.id == task_id) s.db.tasks (unfold get_task_definition in e)))
