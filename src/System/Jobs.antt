-- ===== src/System/Jobs.antt =====
-- backend/app/database.py, backend/app/services/scheduler.py: the invariant of the jobs table, over each
-- statement on the jobs.
use crate_probe.Models.{TaskStatus, running, failed, cancelled, is_running, is_terminal}
use crate_probe.Table.{update, delete}
use crate_probe.Table.Keys.{HasKeys-append, HasKeys-update, HasKeys-delete}
use crate_probe.Table.Rows.{All-update_where, All-delete}
use crate_probe.Database.Types.{JobRecord, Database}
use crate_probe.Database.Jobs.{
  create_job, get_job, get_jobs_by_status, set_status, update_job_status, update_job_priority,
  reset_row, reset_job_for_retry, is_stale, fail_stale, reconcile_stale_jobs,
}
use crate_probe.Database.Claim.Steps.{JobsHaveKeys}
use crate_probe.Scheduler.{
  is_expired, requeue, reconcile_expired_leases, schedule_tasks, fail_jobs, cleanup_remaining_tasks,
  recover_orphaned_tasks, cancel_task,
}
use crate_probe.System.Rows.{
  IsLeased, requeue-IsLeased, reset_row-IsLeased, fail_stale-IsLeased, set_status-IsLeased,
}
use crate_probe.Prelude.{
  All, Bool, ℕ, Option, ◌≡◌, String, ℤ, ◌==◌, Option-cases, some, true, All-append, arith, List,
  inl, Bool-cases, none, ◌∷◌, inr, refl, [],
}
use crate_probe.Config.{Config}

pub record JobsSound (db : Database) : Type 0 where
  pub keyed : JobsHaveKeys db
  pub leased : All IsLeased db.jobs

-- An update of the jobs that keeps ids and, on the rows it changes, `IsLeased`.
pub update-JobsSound :
    (p : JobRecord → Bool) (f : JobRecord → JobRecord)
    → ((j : JobRecord) → (f j).id ≡ j.id)
    → ((j : JobRecord) → p j ≡ true → IsLeased j → IsLeased (f j))
    → (db : Database) → JobsSound db
    → JobsSound (record db { jobs = update p f db.jobs })
update-JobsSound p f ids keep db h = record {
  keyed = HasKeys-update (λ (j : JobRecord). j.id) p f ids 0 db.jobs db.job_seq h.keyed;
  leased = All-update_where IsLeased p f keep db.jobs h.leased;
}

pub delete-JobsSound :
    (p : JobRecord → Bool) (db : Database)
    → JobsSound db
    → JobsSound (record db { jobs = delete p db.jobs })
delete-JobsSound p db h = record {
  keyed = HasKeys-delete (λ (j : JobRecord). j.id) p 0 db.jobs db.job_seq h.keyed;
  leased = All-delete IsLeased p db.jobs h.leased;
}

pub create_job-JobsSound :
    (now : ℕ) (crate ver : String) (task_id : ℕ) (name sha spec : String) (db : Database)
    → JobsSound db
    → JobsSound (create_job now crate ver task_id name sha spec db).1
unfolding create_job
create_job-JobsSound now crate ver task_id name sha spec db h = record {
  keyed = HasKeys-append (λ (j : JobRecord). j.id) 0 db.jobs db.job_seq _ refl h.keyed;
  leased = All-append IsLeased db.jobs _ h.leased (ground arith, tt);
}

pub update_job_priority-JobsSound :
    (job_id : ℕ) (priority : ℤ) (db : Database)
    → JobsSound db
    → JobsSound (update_job_priority job_id priority db)
unfolding update_job_priority
update_job_priority-JobsSound job_id priority db =
    update-JobsSound (λ j. j.id == job_id) (λ j. record j { priority = some priority }) (λ j. refl)
      (λ j e h. ground arith) db

ended-JobsSound :
    (job_id : ℕ) (status : TaskStatus) (now : ℕ) (reason : Option String) (db : Database)
    → is_terminal status ≡ true
    → JobsSound db
    → JobsSound (update_job_status job_id status none (some now) none reason none db)
unfolding update_job_status
ended-JobsSound job_id status now reason db e =
    update-JobsSound (λ j. j.id == job_id) (set_status status none (some now) none reason none)
      (λ j. refl) (λ j t h. set_status-IsLeased status now reason j e h) db

pub reset_job_for_retry-JobsSound :
    (job_id : ℕ) (db : Database) → JobsSound db → JobsSound (reset_job_for_retry job_id db)
unfolding reset_job_for_retry
reset_job_for_retry-JobsSound job_id db h =
    let u =
      update-JobsSound (λ j. j.id == job_id) reset_row (λ j. refl) (λ j e h. reset_row-IsLeased j)
        db h in
    record { keyed = u.keyed; leased = u.leased }

stale-JobsSound :
    (now interval : ℕ) (db : Database)
    → JobsSound db
    → JobsSound (reconcile_stale_jobs now interval db).1
unfolding reconcile_stale_jobs
stale-JobsSound now interval db =
    update-JobsSound (is_stale now interval) (fail_stale now) (λ j. refl)
      (λ j e h. fail_stale-IsLeased now j h) db

expired-JobsSound :
    (now : ℕ) (db : Database) → JobsSound db → JobsSound (reconcile_expired_leases now db)
unfolding reconcile_expired_leases
expired-JobsSound now db =
    update-JobsSound (is_expired now) requeue (λ j. refl) (λ j e h. requeue-IsLeased j) db

pub schedule_tasks-JobsSound :
    (now later : ℕ) (config : Config) (db : Database)
    → JobsSound db
    → JobsSound (schedule_tasks now later config db)
unfolding schedule_tasks
schedule_tasks-JobsSound now later config db h =
    stale-JobsSound later config.max_state_sync_interval_seconds (reconcile_expired_leases now db)
      (expired-JobsSound now db h)

fail_jobs-JobsSound :
    (clock : JobRecord → ℕ) (reason : String) (js : List JobRecord) (db : Database)
    → JobsSound db
    → JobsSound (fail_jobs clock reason js db)
unfolding fail_jobs
fail_jobs-JobsSound clock reason [] db h = h
fail_jobs-JobsSound clock reason (j ∷ js) db h =
    fail_jobs-JobsSound clock reason js
      (update_job_status j.id failed none (some (clock j)) none (some reason) none db)
      (ended-JobsSound j.id failed (clock j) (some reason) db refl h)

pub recover_orphaned_tasks-JobsSound :
    (clock : JobRecord → ℕ) (db : Database)
    → JobsSound db
    → JobsSound (recover_orphaned_tasks clock db)
unfolding recover_orphaned_tasks
recover_orphaned_tasks-JobsSound clock db =
    fail_jobs-JobsSound clock "Job interrupted by server restart" (get_jobs_by_status running db) db

pub cleanup_remaining_tasks-JobsSound :
    (clock : JobRecord → ℕ) (db : Database)
    → JobsSound db
    → JobsSound (cleanup_remaining_tasks clock db)
unfolding cleanup_remaining_tasks
cleanup_remaining_tasks-JobsSound clock db =
    fail_jobs-JobsSound clock "Job interrupted by server shutdown" (get_jobs_by_status running db)
      db

pub cancel_task-JobsSound :
    (now job_id : ℕ) (db : Database) → JobsSound db → JobsSound (cancel_task now job_id db)
unfolding cancel_task
cancel_task-JobsSound now job_id db h = elim (Option-cases (get_job job_id db)) [
  | inl missing ↦ rw (missing, cancel_task) h
  | inr (j, e) ↦ elim (Bool-cases (is_running j.status)) [
    | inl run ↦ rw (e, cancel_task) (rw run (ended-JobsSound job_id cancelled now none db refl h))
    | inr idle ↦ rw (e, cancel_task) (rw idle h)
  ]
]
