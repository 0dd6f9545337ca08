-- ===== src/System/Reach.antt =====
-- backend/app/main.py: the invariant of the jobs table over the job endpoints and over sequences of requests.
use crate_probe.Database.Types.{JobRecord, TaskDefRecord, Database}
use crate_probe.Database.Jobs.{delete_job, reset_job_for_retry}
use crate_probe.Scheduler.{cancel_task}
use crate_probe.Api.Types.{Env, Server}
use crate_probe.Api.Jobs.{
  Lookup, insert_job, create_job_endpoint, cancel_running_job, reset_and_clear, retry_job,
  delete_job_endpoint,
}
use crate_probe.Api.Batch.{
  Results, batch_step, batch, batch_retry_jobs, batch_delete_jobs, batch_set_priority,
  batch_cancel_jobs, no_results,
}
use crate_probe.Api.Files.{push_runner_job_file, upload_runner_job_artifact}
use crate_probe.Api.Tasks.{upload_task, update_task, delete_task}
use crate_probe.Api.Admin.{
  create_runner_endpoint, delete_runner_endpoint, disable_runner_endpoint, enable_runner_endpoint,
}
use crate_probe.System.{Request, serve, serve_all}
use crate_probe.System.Jobs.{
  JobsSound, create_job-JobsSound, cancel_task-JobsSound, reset_job_for_retry-JobsSound,
  delete-JobsSound, update_job_priority-JobsSound, schedule_tasks-JobsSound,
  recover_orphaned_tasks-JobsSound, cleanup_remaining_tasks-JobsSound,
}
use crate_probe.System.Safety.{
  IsSound, SameJobs, JobsSound-same, clear_job_files-IsSound, runner_heartbeat-IsSound,
  claim_task-IsSound, ingest_runner_job_sync-IsSound,
}
use crate_probe.System.Untouched.{
  push-jobs, artifact-jobs, upload_task-jobs, update_task-jobs, delete_task-jobs,
  create_runner-jobs, delete_runner-jobs, disable_runner-jobs, enable_runner-jobs,
}
use crate_probe.Prelude.{
  ℕ, Bool, List, ◌==◌, ◌≡◌, String, inl, ◌∷◌, ◌⊎◌, inr, [], arith, Option-cases,
}
use crate_probe.Database.Tasks.{get_task_definition}

delete_job-JobsSound :
    (job_id : ℕ) (db : Database) → JobsSound db → JobsSound (delete_job job_id db).1
unfolding delete_job
delete_job-JobsSound job_id db h = delete-JobsSound (λ j. j.id == job_id) db h

cancel_cases :
    (now job_id : ℕ) (s : Server)
    → ((cancel_running_job now job_id s).1 ≡ s)
      ⊎ ((cancel_running_job now job_id s).1 ≡ record s { db = cancel_task now job_id s.db })
unfolding cancel_running_job
cancel_cases now job_id s = ground arith

retry_cases :
    (env : Env) (job_id : ℕ) (s : Server)
    → ((retry_job env job_id s).1 ≡ s) ⊎ ((retry_job env job_id s).1 ≡ reset_and_clear env job_id s)
unfolding retry_job
retry_cases env job_id s = ground arith

remove_cases :
    (job_id : ℕ) (s : Server)
    → ((delete_job_endpoint job_id s).1 ≡ s)
      ⊎ ((delete_job_endpoint job_id s).1 ≡ record s { db = (delete_job job_id s.db).1 })
unfolding delete_job_endpoint
remove_cases job_id s = ground arith

batch_cases :
    (accepts : JobRecord → Server → Bool) (act : ℕ → Server → Server) (job_id : ℕ) (r : Results)
    (s : Server)
    → ((batch_step accepts act job_id (r, s)).1 ≡ s)
      ⊎ ((batch_step accepts act job_id (r, s)).1 ≡ act job_id s)
unfolding batch_step
batch_cases accepts act job_id r s = ground arith

-- A creation that is refused changes nothing; any other inserts a job of the task that was found.
create_cases :
    (now : ℕ) (crate : String) (task_id : ℕ) (lookup : Lookup) (s : Server)
    → ((create_job_endpoint now crate task_id lookup s).1 ≡ s)
      ⊎ ((ver : String) × (t : TaskDefRecord) × ((create_job_endpoint now crate task_id lookup s).1
            ≡ (insert_job now crate ver t s).1))
unfolding create_job_endpoint
create_cases now crate task_id (Lookup.version ver) s =
    elim (Option-cases (get_task_definition task_id s.db)) [
      | inl missing ↦ inl (ground (arith, missing))
      | inr (t, e) ↦ inr (ver, t, ground (arith, e))
    ]
create_cases now crate task_id Lookup.no_crate s = inl (ground arith)
create_cases now crate task_id Lookup.no_version s = inl (ground arith)
create_cases now crate task_id Lookup.failed_request s = inl (ground arith)

create-IsSound :
    (now : ℕ) (crate : String) (task_id : ℕ) (lookup : Lookup) (s : Server)
    → IsSound s
    → IsSound (create_job_endpoint now crate task_id lookup s).1
create-IsSound now crate task_id lookup s h = elim (create_cases now crate task_id lookup s) [
  | inl same ↦ rw same h
  | inr (ver, t, e) ↦ rw e (create_job-JobsSound now crate ver t.id t.name t.sha256 t.spec s.db h)
]

cancel-IsSound :
    (now job_id : ℕ) (s : Server) → IsSound s → IsSound (cancel_running_job now job_id s).1
unfolding cancel_running_job
cancel-IsSound now job_id s h = elim (cancel_cases now job_id s) [
  | inl same ↦ rw same h
  | inr done ↦ rw done (cancel_task-JobsSound now job_id s.db h)
]

reset_and_clear-IsSound :
    (env : Env) (job_id : ℕ) (s : Server) → IsSound s → IsSound (reset_and_clear env job_id s)
unfolding reset_and_clear
reset_and_clear-IsSound env job_id s h =
    clear_job_files-IsSound env job_id (record s { db = reset_job_for_retry job_id s.db })
      (reset_job_for_retry-JobsSound job_id s.db h)

retry-IsSound :
    (env : Env) (job_id : ℕ) (s : Server) → IsSound s → IsSound (retry_job env job_id s).1
retry-IsSound env job_id s h = elim (retry_cases env job_id s) [
  | inl same ↦ rw same h
  | inr done ↦ rw done (reset_and_clear-IsSound env job_id s h)
]

remove-IsSound : (job_id : ℕ) (s : Server) → IsSound s → IsSound (delete_job_endpoint job_id s).1
remove-IsSound job_id s h = elim (remove_cases job_id s) [
  | inl same ↦ rw same h
  | inr done ↦ rw done (delete_job-JobsSound job_id s.db h)
]

batch_step-IsSound :
    (accepts : JobRecord → Server → Bool) (act : ℕ → Server → Server)
    → ((k : ℕ) (s : Server) → IsSound s → IsSound (act k s))
    → (job_id : ℕ) (r : Results) (s : Server) → IsSound s
    → IsSound (batch_step accepts act job_id (r, s)).1
batch_step-IsSound accepts act keep job_id r s h = elim (batch_cases accepts act job_id r s) [
  | inl same ↦ rw same h
  | inr acted ↦ rw acted (keep job_id s h)
]

-- A batch keeps the jobs sound if its action does.
batch-IsSound :
    (accepts : JobRecord → Server → Bool) (act : ℕ → Server → Server)
    → ((k : ℕ) (s : Server) → IsSound s → IsSound (act k s))
    → (job_ids : List ℕ) (rs : Results × Server) → IsSound rs.1
    → IsSound (batch accepts act job_ids rs).1
unfolding batch
batch-IsSound accepts act keep [] rs h = h
batch-IsSound accepts act keep (k ∷ ks) (r, s) h =
    batch-IsSound accepts act keep ks (batch_step accepts act k (r, s))
      (batch_step-IsSound accepts act keep k r s h)

same-IsSound : (s s' : Server) → SameJobs s.db s'.db → IsSound s → IsSound s'
same-IsSound s s' e = JobsSound-same s.db s'.db e.0 e.1

-- Every request keeps the jobs sound.
pub serve-IsSound : (env : Env) (r : Request) (s : Server) → IsSound s → IsSound (serve env r s)
unfolding serve
serve-IsSound env (Request.heartbeat now later runner auth) s h =
    runner_heartbeat-IsSound env now later runner auth s h
serve-IsSound env (Request.claim now token runner auth jobs max) s h =
    claim_task-IsSound env now token runner auth jobs max s h
serve-IsSound env (Request.sync now runner auth job lease seq status code msg) s h =
    ingest_runner_job_sync-IsSound env now runner auth job lease seq status code msg s h
serve-IsSound env (Request.push runner auth job lease path mode content seq) s h =
    same-IsSound s (push_runner_job_file env runner auth job lease path mode content seq s).1
      (push-jobs env runner auth job lease path mode content seq s) h
serve-IsSound env (Request.artifact runner auth job lease path stream) s h =
    same-IsSound s (upload_runner_job_artifact env runner auth job lease path stream s).1
      (artifact-jobs env runner auth job lease path stream s) h
serve-IsSound env (Request.upload now admin u) s h =
    same-IsSound s (upload_task env now admin u s).1 (upload_task-jobs env now admin u s) h
serve-IsSound env (Request.replace now admin task u) s h =
    same-IsSound s (update_task env now admin task u s).1 (update_task-jobs env now admin task u s)
      h
serve-IsSound env (Request.remove_task admin task) s h =
    same-IsSound s (delete_task env admin task s).1 (delete_task-jobs env admin task s) h
serve-IsSound env (Request.create now crate task lookup) s h =
    create-IsSound now crate task lookup s h
serve-IsSound env (Request.cancel now job) s h = cancel-IsSound now job s h
serve-IsSound env (Request.retry job) s h = retry-IsSound env job s h
serve-IsSound env (Request.remove_job job) s h = remove-IsSound job s h
serve-IsSound env (Request.retry_all jobs) s h =
    unfold batch_retry_jobs in
    batch-IsSound _ _ (reset_and_clear-IsSound env) jobs (no_results, s) h
serve-IsSound env (Request.delete_all jobs) s h =
    unfold batch_delete_jobs in
    batch-IsSound _ _ (λ k t g. delete_job-JobsSound k t.db g) jobs (no_results, s) h
serve-IsSound env (Request.prioritise priority jobs) s h =
    unfold batch_set_priority in
    batch-IsSound _ _ (λ k t g. update_job_priority-JobsSound k priority t.db g) jobs
      (no_results, s) h
serve-IsSound env (Request.cancel_all clock jobs) s h =
    unfold batch_cancel_jobs in
    batch-IsSound _ _ (λ k t g. cancel_task-JobsSound (clock k) k t.db g) jobs (no_results, s) h
serve-IsSound env (Request.add_runner now token salt encoded admin runner) s h =
    same-IsSound s (create_runner_endpoint env now token salt encoded admin runner s).1
      (create_runner-jobs env now token salt encoded admin runner s) h
serve-IsSound env (Request.remove_runner admin runner) s h =
    same-IsSound s (delete_runner_endpoint env admin runner s).1
      (delete_runner-jobs env admin runner s) h
serve-IsSound env (Request.disable admin runner) s h =
    same-IsSound s (disable_runner_endpoint env admin runner s).1
      (disable_runner-jobs env admin runner s) h
serve-IsSound env (Request.enable admin runner) s h =
    same-IsSound s (enable_runner_endpoint env admin runner s).1
      (enable_runner-jobs env admin runner s) h
serve-IsSound env (Request.tick now later) s h =
    schedule_tasks-JobsSound now later env.config s.db h
serve-IsSound env (Request.restart clock) s h = recover_orphaned_tasks-JobsSound clock s.db h
serve-IsSound env (Request.shut_down clock) s h = cleanup_remaining_tasks-JobsSound clock s.db h

pub serve_all-IsSound :
    (env : Env) (rs : List Request) (s : Server) → IsSound s → IsSound (serve_all env rs s)
unfolding serve_all
serve_all-IsSound env [] s h = h
serve_all-IsSound env (r ∷ rs) s h =
    serve_all-IsSound env rs (serve env r s) (serve-IsSound env r s h)
