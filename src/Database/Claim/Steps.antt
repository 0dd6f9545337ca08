-- ===== src/Database/Claim/Steps.antt =====
-- backend/app/database.py, `claim_pending_job`: the query and the two updates of a claim.
use crate_probe.Prelude.{
  ℕ, ◌≡◌, ◌≢◌, refl, true, not, Option, none, some, str_eq, String, arith, if◌then◌else◌, ◌==◌, In,
  map_option, ◌&&◌,
}
use crate_probe.Models.{TaskStatus, pending, status_eq}
use crate_probe.Table.{find}
use crate_probe.Table.Rows.{find-update, count-zero, find-holds, find-ne-none, find-In, count-find}
use crate_probe.Table.Keys.{HasKeys}
use crate_probe.Table.Sorting.{first_of_order, first_of_none}
use crate_probe.Database.Types.{JobRecord, TaskDefRecord, Database}
use crate_probe.Database.Jobs.{queue_before, queue_before-IsOrder, get_job}
use crate_probe.Database.Claim.{next_pending, refresh_snapshot, take_job, claim_row}

-- The ids of the jobs ascend up to the last one given out.
abbrev pub JobsHaveKeys : Database → Type 0
JobsHaveKeys db = HasKeys (λ (j : JobRecord). j.id) 0 db.jobs db.job_seq

-- What a claim leaves of a row: its snapshot follows the task definition, if there is one.
abbrev pub refreshed : Option TaskDefRecord → JobRecord → JobRecord
refreshed none j = j
refreshed (some t) j =
    if not (str_eq t.sha256 j.task_sha256)
    then record j { task_name = t.name; task_sha256 = t.sha256; task_spec = t.spec }
    else j

-- `j` is a pending job that no other pending job precedes.
pub record IsNext (db : Database) (j : JobRecord) : Type 0 where
  pub member : In j db.jobs
  pub is_pending : j.status ≡ pending
  pub least : (k : JobRecord) → In k db.jobs → k.status ≡ pending → queue_before j k ≡ true

pub pending_test : (s : TaskStatus) → status_eq pending s ≡ true → s ≡ pending
pending_test s h = ground arith

pub next_pending-IsNext : (db : Database) {j : JobRecord} → next_pending db ≡ some j → IsNext db j
unfolding next_pending
next_pending-IsNext db {j} e =
    let (i, p, l) =
      first_of_order queue_before queue_before-IsOrder
        (λ (j : JobRecord). status_eq pending j.status) db.jobs e in
    record { member = i; is_pending = pending_test j.status p; least = λ k m q. l k m (rw q refl) }

pub next_pending-none :
    (db : Database) → next_pending db ≡ none → (k : JobRecord) → In k db.jobs → k.status ≢ pending
unfolding next_pending
next_pending-none db e k m q = ground (
  arith,
  first_of_none queue_before (λ (j : JobRecord). status_eq pending j.status) db.jobs e k m,
)

pub find-refresh_snapshot :
    (t : Option TaskDefRecord) (row : JobRecord) (db : Database) (k : ℕ) (r : JobRecord)
    → find (λ j. j.id == k) db.jobs ≡ some r
    → (r.id ≡ row.id → r ≡ row)
    → find (λ j. j.id == k) (refresh_snapshot t row db).jobs
      ≡ some (if r.id == row.id then refreshed t row else r)
unfolding refresh_snapshot
find-refresh_snapshot none row db k r e same = ground (arith)
find-refresh_snapshot (some t) row db k r e same = ground (
  arith,
  find-update (λ j. j.id == k) (λ j. j.id == row.id)
      (λ (j : JobRecord). record j {
        task_name = t.name;
        task_sha256 = t.sha256;
        task_spec = t.spec;
      })
      (λ j. refl) db.jobs,
)

module _ (now : ℕ) (token runner : String) (expires job_id : ℕ) (db : Database) where
  pub find-take_job :
      (k : ℕ)
      → find (λ j. j.id == k) (take_job now token runner expires job_id db).1.jobs
        ≡ map_option
            (λ j.
              if j.id == job_id && status_eq pending j.status
              then claim_row now token runner expires j
              else j)
            (find (λ j. j.id == k) db.jobs)
  unfolding take_job
  find-take_job k = ground (
    arith,
    count-zero (λ j. j.id == job_id && status_eq pending j.status)
        (claim_row now token runner expires) db.jobs,
    find-update (λ j. j.id == k) (λ j. j.id == job_id && status_eq pending j.status)
        (claim_row now token runner expires) (λ j. refl) db.jobs,
  )

  pub take_job-pending :
      (r : JobRecord)
      → find (λ j. j.id == job_id) db.jobs ≡ some r
      → r.status ≡ pending
      → (take_job now token runner expires job_id db).0
        ≡ some (claim_row now token runner expires r)
  unfolding take_job get_job
  take_job-pending r e p = ground (
    arith,
    find-holds (λ j. j.id == job_id) db.jobs e,
    find-ne-none (λ j. j.id == job_id && status_eq pending j.status) db.jobs r
        (find-In (λ j. j.id == job_id) db.jobs e),
    count-find (λ j. j.id == job_id && status_eq pending j.status) db.jobs,
    find-update (λ j. j.id == job_id) (λ j. j.id == job_id && status_eq pending j.status)
        (claim_row now token runner expires) (λ j. refl) db.jobs,
  )

pub refreshed-status :
    (t : Option TaskDefRecord) (j : JobRecord) → (refreshed t j).status ≡ j.status
refreshed-status none j = refl
refreshed-status (some t) j = ground arith

pub refreshed-id : (t : Option TaskDefRecord) (j : JobRecord) → (refreshed t j).id ≡ j.id
refreshed-id none j = refl
refreshed-id (some t) j = ground arith

pub claim_row-id :
    (now : ℕ) (token runner : String) (expires : ℕ) (j : JobRecord)
    → (claim_row now token runner expires j).id ≡ j.id
unfolding claim_row
claim_row-id now token runner expires j = refl

pub find-refresh_snapshot-none :
    (t : Option TaskDefRecord) (row : JobRecord) (db : Database) (k : ℕ)
    → find (λ j. j.id == k) db.jobs ≡ none
    → find (λ j. j.id == k) (refresh_snapshot t row db).jobs ≡ none
unfolding refresh_snapshot
find-refresh_snapshot-none none row db k e = e
find-refresh_snapshot-none (some t) row db k e = ground (
  arith,
  find-update (λ j. j.id == k) (λ j. j.id == row.id)
      (λ (j : JobRecord). record j {
        task_name = t.name;
        task_sha256 = t.sha256;
        task_spec = t.spec;
      })
      (λ j. refl) db.jobs,
)
