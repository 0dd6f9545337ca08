-- ===== src/Database/Sync/Transitions.antt =====
-- backend/app/database.py, `apply_job_sync`: which changes of status a report can make.
use crate_probe.Models.{TaskStatus, of_value, is_terminal, is_running, pending}
use crate_probe.Table.{find}
use crate_probe.Table.Rows.{find-holds}
use crate_probe.Database.Types.{JobRecord, Database}
use crate_probe.Database.Sync.{sync_row, apply_job_sync}
use crate_probe.Database.Sync.Laws.{
  seq_of, applied, applied_or_not, apply_job_sync_checked, apply_job_sync_unchanged,
  apply_job_sync_accepts, find-apply_job_sync,
}
use crate_probe.Prelude.{
  ℕ, ℤ, ◌==◌, Option, ◌≡◌, String, some, ◌&&◌, true, false, int_leb, map_option, arith, inl,
  if◌then◌else◌, sym, refl, ◌∙◌, inr, ap,
}

settled :
    (now job_id : ℕ) (seq : ℤ) (s : TaskStatus) (code : Option ℤ) (msg : Option String)
    (db : Database) (k : ℕ) (i j j' : JobRecord)
    → find (λ r. r.id == job_id) db.jobs ≡ some i
    → find (λ r. r.id == k) db.jobs ≡ some j
    → is_terminal i.status && is_running s ≡ false
    → is_terminal j.status ≡ true
    → map_option
        (λ r. if r.id == job_id then sync_row now seq s code msg r else r)
        (find (λ r. r.id == k) db.jobs)
      ≡ some j'
    → is_running j'.status ≡ false
unfolding sync_row
settled now job_id seq s code msg db k i j j' here before allowed ended after =
    ground (arith, find-holds (λ r. r.id == k) db.jobs before)

unmoved :
    (k : ℕ) (db : Database) (j j' : JobRecord)
    → find (λ r. r.id == k) db.jobs ≡ some j
    → is_terminal j.status ≡ true
    → find (λ r. r.id == k) db.jobs ≡ some j'
    → is_running j'.status ≡ false
unmoved k db j j' before ended after = ground arith

-- Whatever a report says, and for whichever job, no job that ended is running after it.
pub apply_job_sync-terminal :
    (now job_id : ℕ) (seq : ℤ) (status : String) (code : Option ℤ) (msg : Option String)
    (db : Database) (k : ℕ) (j j' : JobRecord)
    → find (λ r. r.id == k) db.jobs ≡ some j
    → is_terminal j.status ≡ true
    → find (λ r. r.id == k) (apply_job_sync now job_id seq status code msg db).1.jobs ≡ some j'
    → is_running j'.status ≡ false
apply_job_sync-terminal now job_id seq status code msg db k j j' before ended after =
    elim (applied_or_not (apply_job_sync now job_id seq status code msg db).0) [
      | inl ok ↦
          let (i, s, here, known, new, allowed) =
            apply_job_sync_checked now job_id seq status code msg db ok in
          settled now job_id seq s code msg db k i j j' here before allowed ended (
            sym (find-apply_job_sync now job_id seq status code msg db k i s here known ok) ∙ after)
      | inr not_ok ↦ unmoved k db j j' before ended (
          ap (λ (d : Database). find (λ r. r.id == k) d.jobs)
            (sym (apply_job_sync_unchanged now job_id seq status code msg db not_ok))
          ∙ after)
    ]

-- The guard against a rollback only looks for running: a new report of "pending" on a job that ended
-- is applied, and the job stands in the queue again, with the holder and the lease it had.
pub apply_job_sync-pending :
    (now job_id : ℕ) (seq : ℤ) (code : Option ℤ) (msg : Option String) (db : Database)
    (j : JobRecord)
    → find (λ r. r.id == job_id) db.jobs ≡ some j
    → is_terminal j.status ≡ true
    → int_leb seq (seq_of j) ≡ false
    → ((apply_job_sync now job_id seq "pending" code msg db).0 ≡ applied)
      × ((j' : JobRecord) × (find
              (λ r. r.id == job_id)
              (apply_job_sync now job_id seq "pending" code msg db).1.jobs
            ≡ some j')
          × (j'.status ≡ pending)
          × (j'.runner_id ≡ j.runner_id)
          × (j'.lease_token ≡ j.lease_token)
          × (j'.finished_at ≡ j.finished_at))
unfolding sync_row of_value
apply_job_sync-pending now job_id seq code msg db j here ended new =
    let (ok, found) =
      apply_job_sync_accepts now job_id seq "pending" code msg db j pending here refl new
        (ground arith) in
    (ok, (sync_row now seq pending code msg j, found, refl, refl, refl, refl))
