-- ===== src/Api/Batches/Endpoints.antt =====
-- backend/app/main.py, the batch endpoints: which jobs each of them changes, and how.
use crate_probe.Models.{is_running, is_pending, cancelled}
use crate_probe.Table.{find, update}
use crate_probe.Table.Rows.{find-holds, find-update, find-delete, find-delete_self}
use crate_probe.Database.Types.{JobRecord}
use crate_probe.Database.Jobs.{
  get_job, set_status, update_job_status, update_job_priority, delete_job,
}
use crate_probe.Scheduler.{cancel_task}
use crate_probe.Api.Types.{Server}
use crate_probe.Api.Batch.{
  no_results, drop_job, batch_delete_jobs, batch_set_priority, batch_cancel_jobs,
}
use crate_probe.Api.Batches.{times, turn, ActsBy, get_job-batch}
use crate_probe.Prelude.{
  ℕ, List, not, ◌≡◌, none, some, ℤ, Bool, Bool-cases, if◌then◌else◌, ◌==◌, arith, ltb, inl, refl,
  ==→eq, inr, ap, Option-cases,
}

-- Whether an id is in the request.
abbrev pub listed : ℕ → List ℕ → Bool
listed k job_ids = ltb 0 (times k job_ids)

delete-ActsBy : ActsBy (λ j. not (is_running j.status)) drop_job (λ k j. none)
unfolding get_job delete_job
delete-ActsBy i k s j e ok = elim (Bool-cases (k == i)) [
  | inl here ↦
      ground (arith, here, find-delete_self (λ (r : JobRecord). r.id == i) s.db.jobs, ==→eq k i)
  | inr apart ↦ ground (
    arith,
    apart,
    find-delete (λ r. r.id == k) (λ (r : JobRecord). r.id == i) (λ r h. ground arith) s.db.jobs,
  )
]

-- After a batch deletion a job is gone exactly if it was listed and not running; all others are as
-- they were.
pub get_job-batch_delete_jobs :
    (job_ids : List ℕ) (s : Server) (k : ℕ)
    → get_job k (batch_delete_jobs job_ids s).1.db ≡ (
        if listed k job_ids
        then turn (λ j. not (is_running j.status)) (λ j. none) (get_job k s.db)
        else get_job k s.db)
unfolding batch_delete_jobs
get_job-batch_delete_jobs job_ids s k =
    get_job-batch (λ j. not (is_running j.status)) drop_job (λ k j. none) delete-ActsBy
      (λ k j h. refl) k job_ids no_results s

updated :
    (f : JobRecord → JobRecord) (keep : (j : JobRecord) → (f j).id ≡ j.id) (i k : ℕ)
    (rows : List JobRecord) (j : JobRecord)
    → find (λ r. r.id == i) rows ≡ some j
    → find (λ r. r.id == k) (update (λ r. r.id == i) f rows)
      ≡ (if k == i then some (f j) else find (λ r. r.id == k) rows)
updated f keep i k rows j e = elim (Bool-cases (k == i)) [
  | inl here ↦ ground (
    arith,
    here,
    ==→eq k i,
    find-holds (λ r. r.id == i) rows e,
    find-update (λ r. r.id == k) (λ r. r.id == i) f (λ r. ap (λ n. n == k) (keep r)) rows,
  )
  | inr apart ↦ elim (Option-cases (find (λ r. r.id == k) rows)) [
    | inl missing ↦ ground (
      arith,
      find-update (λ r. r.id == k) (λ r. r.id == i) f (λ r. ap (λ n. n == k) (keep r)) rows,
    )
    | inr (r, found) ↦ ground (
      arith,
      find-holds (λ r. r.id == k) rows found,
      find-update (λ r. r.id == k) (λ r. r.id == i) f (λ r. ap (λ n. n == k) (keep r)) rows,
    )
  ]
]

-- the row of a job that is cancelled at the time `now`
abbrev pub cancelled_row : ℕ → JobRecord → JobRecord
cancelled_row now j = set_status cancelled none (some now) none none none j

cancel-ActsBy :
    (clock : ℕ → ℕ)
    → ActsBy
        (λ j. is_running j.status)
        (λ k s. record s { db = cancel_task (clock k) k s.db })
        (λ k j. some (cancelled_row (clock k) j))
unfolding get_job cancel_task update_job_status
cancel-ActsBy clock i k s j e run =
    ground
      (arith, updated (cancelled_row (clock i)) (λ j. unfold set_status in refl) i k s.db.jobs j e)

-- After a batch cancellation every listed job that was running is cancelled, with the time of its
-- cancellation, and all others are as they were.
pub get_job-batch_cancel_jobs :
    (clock : ℕ → ℕ) (job_ids : List ℕ) (s : Server) (k : ℕ)
    → get_job k (batch_cancel_jobs clock job_ids s).1.db ≡ (
        if listed k job_ids
        then turn
            (λ j. is_running j.status)
            (λ j. some (cancelled_row (clock k) j))
            (get_job k s.db)
        else get_job k s.db)
unfolding batch_cancel_jobs
get_job-batch_cancel_jobs clock job_ids s k =
    get_job-batch (λ j. is_running j.status) (λ k s. record s { db = cancel_task (clock k) k s.db })
      (λ k j. some (cancelled_row (clock k) j)) (cancel-ActsBy clock)
      (λ k j h. unfold set_status in refl) k job_ids no_results s

priority-ActsBy :
    (priority : ℤ)
    → ActsBy
        (λ j. is_pending j.status)
        (λ k s. record s { db = update_job_priority k priority s.db })
        (λ k j. some (record j { priority = some priority }))
unfolding get_job update_job_priority
priority-ActsBy priority i k s j e ok =
    ground
      (arith, updated (λ j. record j { priority = some priority }) (λ j. refl) i k s.db.jobs j e)

-- After a batch change of priority every listed pending job has the new one, and nothing else of it
-- and no other job changed.
pub get_job-batch_set_priority :
    (priority : ℤ) (job_ids : List ℕ) (s : Server) (k : ℕ)
    → get_job k (batch_set_priority priority job_ids s).1.db ≡ (
        if listed k job_ids
        then turn
            (λ j. is_pending j.status)
            (λ j. some (record j { priority = some priority }))
            (get_job k s.db)
        else get_job k s.db)
unfolding batch_set_priority
get_job-batch_set_priority priority job_ids s k =
    get_job-batch (λ j. is_pending j.status)
      (λ k s. record s { db = update_job_priority k priority s.db })
      (λ k j. some (record j { priority = some priority })) (priority-ActsBy priority)
      (λ k j h. ground arith) k job_ids no_results s
