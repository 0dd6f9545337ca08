-- ===== src/Scheduler/Recovery.antt =====
-- backend/app/services/scheduler.py: the jobs after a restart or a shutdown.
use crate_probe.Models.{running, failed, status_eq, status_eq_sound}
use crate_probe.Database.Types.{JobRecord, Database}
use crate_probe.Database.Jobs.{
  get_job, get_jobs_by_status, update_job_status, set_status, newest_first,
}
use crate_probe.Scheduler.{fail_jobs, recover_orphaned_tasks, cleanup_remaining_tasks}
use crate_probe.Prelude.{
  List, ℕ, map, ◌≡◌, String, In, ◌∷◌, All, if◌then◌else◌, ◌≢◌, ◌==◌, none, some, inl, [], arith,
  inr, Bool, All-imp, ◌∙◌, In-map, ◌⊎◌, true, refl, Option-cases, ==→eq, false,
}
use crate_probe.Table.Rows.{All-update, All-of-In, select-In, find-update, find-holds, In-select}
use crate_probe.Table.{find, select}
use crate_probe.Database.Claim.Steps.{JobsHaveKeys}
use crate_probe.Table.Sorting.{order_by-keeps, In-order_by}
use crate_probe.Table.Keys.{find-In_id}

abbrev ids : List JobRecord → List ℕ
ids = map (λ j. j.id)

-- A job that is running is still to be visited by the loop.
abbrev IsCovered : List JobRecord → JobRecord → Type 0
IsCovered js r = r.status ≡ running → In r.id (ids js)

IsCovered-case :
    (j : JobRecord) (js : List JobRecord) (now : ℕ) (reason : String) (r : JobRecord) (b : Bool)
    → (r.id == j.id) ≡ b
    → IsCovered (j ∷ js) r
    → IsCovered js (if b then set_status failed none (some now) none (some reason) none r else r)
unfolding set_status
IsCovered-case j js now reason r true e h run = absurd (cc)
IsCovered-case j js now reason r false e h run = elim (h run) [
  | inl same ↦ absurd (ground arith)
  | inr i ↦ i
]

fail_jobs-covers :
    (clock : JobRecord → ℕ) (reason : String) (js : List JobRecord) (db : Database)
    → All (IsCovered js) db.jobs
    → All (λ r. r.status ≢ running) (fail_jobs clock reason js db).jobs
unfolding fail_jobs update_job_status
fail_jobs-covers clock reason [] db h =
    All-imp (IsCovered []) (λ r. r.status ≢ running) (λ r c e. c e tt) db.jobs h
fail_jobs-covers clock reason (j ∷ js) db h =
    fail_jobs-covers clock reason js
      (update_job_status j.id failed none (some (clock j)) none (some reason) none db)
      (All-update (IsCovered (j ∷ js)) (IsCovered js) (λ r. r.id == j.id)
        (set_status failed none (some (clock j)) none (some reason) none)
        (λ r. IsCovered-case j js (clock j) reason r (r.id == j.id) refl) db.jobs h)

running-IsCovered : (db : Database) → All (IsCovered (get_jobs_by_status running db)) db.jobs
unfolding get_jobs_by_status
running-IsCovered db = All-of-In (IsCovered (get_jobs_by_status running db)) db.jobs λ r i e.
    In-map (λ (j : JobRecord). j.id) (get_jobs_by_status running db) r
      (order_by-keeps newest_first r (select (λ j. status_eq running j.status) db.jobs)
        (In-select (λ j. status_eq running j.status) db.jobs r i (rw e refl)))

-- After the recovery at startup no job is running, whatever the database held.
pub recover_orphaned_tasks-none_running :
    (clock : JobRecord → ℕ) (db : Database)
    → All (λ (r : JobRecord). r.status ≢ running) (recover_orphaned_tasks clock db).jobs
unfolding recover_orphaned_tasks
recover_orphaned_tasks-none_running clock db =
    fail_jobs-covers clock "Job interrupted by server restart" (get_jobs_by_status running db) db
      (running-IsCovered db)

-- The same holds after the cleanup at shutdown.
pub cleanup_remaining_tasks-none_running :
    (clock : JobRecord → ℕ) (db : Database)
    → All (λ (r : JobRecord). r.status ≢ running) (cleanup_remaining_tasks clock db).jobs
unfolding cleanup_remaining_tasks
cleanup_remaining_tasks-none_running clock db =
    fail_jobs-covers clock "Job interrupted by server shutdown" (get_jobs_by_status running db) db
      (running-IsCovered db)

at_id :
    (k : ℕ) (db : Database)
    → (find (λ (r : JobRecord). r.id == k) db.jobs ≡ none)
      ⊎ ((r : JobRecord) × (find (λ r. r.id == k) db.jobs ≡ some r) × (r.id ≡ k))
at_id k db = elim (Option-cases (find (λ (r : JobRecord). r.id == k) db.jobs)) [
  | inl missing ↦ inl missing
  | inr (r, e) ↦ inr (r, e, ==→eq r.id k (find-holds (λ r. r.id == k) db.jobs e))
]

running_same :
    (db : Database) (k : ℕ) (r : JobRecord)
    → find (λ r. r.id == k) db.jobs ≡ some r
    → (j : JobRecord) → j.id ≡ k
    → find (λ (r : JobRecord). r.id == j.id) db.jobs ≡ some j
    → running ≡ j.status
    → r.status ≡ running
running_same db k r e j same f run = ground arith

running_row :
    (db : Database) (k : ℕ) (r : JobRecord)
    → JobsHaveKeys db
    → get_job k db ≡ some r
    → (j : JobRecord) → In j (get_jobs_by_status running db)
    → j.id ≡ k
    → r.status ≡ running
unfolding get_job get_jobs_by_status
running_row db k r keyed e j i same =
    let m =
      select-In (λ (j : JobRecord). status_eq running j.status) db.jobs j
        (In-order_by newest_first j (select (λ (j : JobRecord). status_eq running j.status) db.jobs)
          i) in
    running_same db k r e j same
      (find-In_id (λ (j : JobRecord). j.id) 0 db.jobs db.job_seq j keyed m.0)
      (status_eq_sound running j.status m.1)

fail_jobs-misses :
    (clock : JobRecord → ℕ) (reason : String) (js : List JobRecord) (db : Database) (k : ℕ)
    → ((j : JobRecord) → In j js → j.id ≢ k)
    → get_job k (fail_jobs clock reason js db) ≡ get_job k db
unfolding fail_jobs update_job_status get_job
fail_jobs-misses clock reason [] db k h = refl
fail_jobs-misses clock reason (j ∷ js) db k h =
    fail_jobs-misses clock reason js
      (update_job_status j.id failed none (some (clock j)) none (some reason) none db) k
      (λ i m. h i (inr m))
    ∙ ground (
      arith,
      h j (inl refl),
      at_id k db,
      find-update (λ r. r.id == k) (λ r. r.id == j.id)
          (set_status failed none (some (clock j)) none (some reason) none) (λ r. refl) db.jobs,
    )

-- Jobs that were not running keep their record through the recovery.
pub get_job-recover_orphaned_tasks :
    (clock : JobRecord → ℕ) (db : Database) (k : ℕ) (r : JobRecord)
    → JobsHaveKeys db
    → get_job k db ≡ some r
    → r.status ≢ running
    → get_job k (recover_orphaned_tasks clock db) ≡ some r
unfolding recover_orphaned_tasks
get_job-recover_orphaned_tasks clock db k r keyed e idle =
    fail_jobs-misses clock "Job interrupted by server restart" (get_jobs_by_status running db) db k
      (λ j i same. idle (running_row db k r keyed e j i same))
    ∙ e
