-- ===== src/Api/Jobs.antt =====
-- backend/app/main.py: the endpoints of single jobs.
use crate_probe.Prelude.{ℕ, none, some, List, ◌∷◌, String, if◌then◌else◌, is_some, length}
use crate_probe.Models.{TaskStatus, is_running, status_eq}
use crate_probe.Table.{select}
use crate_probe.Database.Types.{JobRecord, TaskDefRecord}
use crate_probe.Database.Tasks.{get_task_definition}
use crate_probe.Database.Jobs.{
  create_job, get_job, get_all_jobs, get_jobs_by_status, get_pending_jobs_ordered, delete_job,
  reset_job_for_retry,
}
use crate_probe.Scheduler.{cancel_task}
use crate_probe.Api.Types.{Env, Server, Answer, Reply, ok, http_error, dashboard_created}
use crate_probe.Api.Runner.{clear_job_files}

-- What crates.io answers: the version to run, or that the crate or the version is unknown, or a
-- failed request.
pub data Lookup : Type 0 where
  version : String → Lookup
  no_crate no_version failed_request : Lookup

abbrev pub insert_job : ℕ → String → String → TaskDefRecord → Server → Answer ℕ
insert_job now crate_name ver task_def s =
    let (job_id, db') =
      create_job now crate_name ver task_def.id task_def.name task_def.sha256 task_def.spec s.db in
    (
      ok job_id,
      record s {
        db = db';
        sent = if is_some (get_job job_id db') then dashboard_created job_id ∷ s.sent else s.sent;
      },
    )

unfoldable pub create_job_endpoint : ℕ → String → ℕ → Lookup → Server → Answer ℕ
create_job_endpoint now crate_name task_id lookup s = elim (get_task_definition task_id s.db) [
  | none ↦ (http_error 404, s)
  | some task_def ↦ elim lookup [
    | version ver ↦ insert_job now crate_name ver task_def s
    | no_crate ↦ (http_error 404, s)
    | no_version ↦ (http_error 400, s)
    | failed_request ↦ (http_error 500, s)
  ]
]

unfoldable pub cancel_running_job : ℕ → ℕ → Server → Answer (Unit {0})
cancel_running_job now job_id s = elim (get_job job_id s.db) [
  | none ↦ (http_error 404, s)
  | some job ↦
      if is_running job.status
      then (ok tt, record s { db = cancel_task now job_id s.db })
      else (http_error 400, s)
]

-- the reset and the clearing that `retry_job` and `batch_retry_jobs` share
unfoldable pub reset_and_clear : Env → ℕ → Server → Server
unfolding clear_job_files
reset_and_clear env job_id s =
    clear_job_files env job_id (record s { db = reset_job_for_retry job_id s.db })

unfoldable pub retry_job : Env → ℕ → Server → Answer ℕ
unfolding reset_and_clear
retry_job env job_id s = elim (get_job job_id s.db) [
  | none ↦ (http_error 404, s)
  | some job ↦
      if is_running job.status
      then (http_error 400, s)
      else if is_some (get_task_definition job.task_id s.db)
      then (ok job_id, reset_and_clear env job_id s)
      else (http_error 400, s)
]

unfoldable pub delete_job_endpoint : ℕ → Server → Answer (Unit {0})
delete_job_endpoint job_id s =
    let (deleted, db') = delete_job job_id s.db in
    elim (get_job job_id s.db) [
      | none ↦ (http_error 404, s)
      | some job ↦
          if is_running job.status
          then (http_error 400, s)
          else if deleted
          then (ok tt, record s { db = db' })
          else (http_error 404, record s { db = db' })
    ]

unfoldable pub get_job_endpoint : ℕ → Server → Reply JobRecord
get_job_endpoint job_id s = elim (get_job job_id s.db) [ none ↦ http_error 404 | some job ↦ ok job ]

pub record Queue : Type 0 where
  pub running : List JobRecord
  pub pending : List JobRecord

unfoldable pub get_queue : Server → Queue
get_queue s = record {
  running = get_jobs_by_status TaskStatus.running s.db;
  pending = get_pending_jobs_ordered s.db;
}

-- `len([j for j in all_jobs if j.status == status])`
abbrev pub count_status : TaskStatus → List JobRecord → ℕ
count_status status jobs = length (select (λ j. status_eq status j.status) jobs)

pub record Stats : Type 0 where
  pub total : ℕ
  pub pending : ℕ
  pub running : ℕ
  pub completed : ℕ
  pub failed : ℕ
  pub cancelled : ℕ
  pub timeout : ℕ
  pub oom : ℕ
  pub runner_failed : ℕ

unfoldable pub get_dashboard_stats : Server → Stats
get_dashboard_stats s =
    let all_jobs = get_all_jobs s.db in
    record {
      total = length all_jobs;
      pending = count_status TaskStatus.pending all_jobs;
      running = count_status TaskStatus.running all_jobs;
      completed = count_status TaskStatus.completed all_jobs;
      failed = count_status TaskStatus.failed all_jobs;
      cancelled = count_status TaskStatus.cancelled all_jobs;
      timeout = count_status TaskStatus.timeout all_jobs;
      oom = count_status TaskStatus.oom all_jobs;
      runner_failed = count_status TaskStatus.runner_failed all_jobs;
    }
