-- ===== src/System/Leases.antt =====
-- backend/app/database.py: the invariant of the jobs table over claims, extensions of leases and reports.
use crate_probe.Models.{TaskStatus, pending, is_running, status_eq}
use crate_probe.Table.{find, update, count}
use crate_probe.Table.Keys.{HasKeys-update, find-In_id}
use crate_probe.Table.Rows.{All-update-In, find-In}
use crate_probe.Database.Types.{JobRecord, TaskDefRecord, Database, seconds}
use crate_probe.Database.Jobs.{get_job}
use crate_probe.Database.Sync.{sync_row, apply_job_sync}
use crate_probe.Database.Claim.{
  refresh_snapshot, claim_row, take_job, claim_pending_job, next_pending, extend_runner_job_leases,
}
use crate_probe.System.Rows.{IsLeased, claim_row-IsLeased, sync_row-IsLeased}
use crate_probe.Prelude.{
  All, ℕ, Option, ◌≡◌, String, ℤ, ◌==◌, Option-cases, some, true, arith, inl, Bool-cases, ◌&&◌,
  none, inr, str_eq, opt_str_eq, refl, ◌+◌, is_some, In,
}
use crate_probe.Database.Sync.Laws.{
  applied_or_not, apply_job_sync_unchanged, apply_job_sync_checked, apply_job_sync_db,
}
use crate_probe.System.Jobs.{JobsSound, update-JobsSound}

refresh-JobsSound :
    (t : Option TaskDefRecord) (row : JobRecord) (db : Database)
    → JobsSound db
    → JobsSound (refresh_snapshot t row db)
unfolding refresh_snapshot
refresh-JobsSound none row db h = h
refresh-JobsSound (some t) row db h = elim (Bool-cases (str_eq t.sha256 row.task_sha256)) [
  | inl same ↦ rw same h
  | inr new ↦ rw new (
      update-JobsSound (λ j. j.id == row.id)
        (λ j. record j { task_name = t.name; task_sha256 = t.sha256; task_spec = t.spec })
        (λ j. refl) (λ j e h. ground arith) db h)
]

take_job-JobsSound :
    (now : ℕ) (token runner : String) (expires job_id : ℕ) (db : Database)
    → JobsSound db
    → JobsSound (take_job now token runner expires job_id db).1
unfolding take_job
take_job-JobsSound now token runner expires job_id db h =
    elim (Bool-cases
      (count (λ (j : JobRecord). j.id == job_id && status_eq pending j.status) db.jobs == 0)) [
        | inl none_here ↦ rw none_here h
        | inr here ↦ rw here (
            update-JobsSound (λ j. j.id == job_id && status_eq pending j.status)
              (claim_row now token runner expires) (λ j. refl)
              (λ j e h. claim_row-IsLeased now token runner expires j) db h)
      ]

pub claim_pending_job-JobsSound :
    (now : ℕ) (token runner : String) (ttl : ℕ) (db : Database)
    → JobsSound db
    → JobsSound (claim_pending_job now token runner ttl db).1
unfolding claim_pending_job
claim_pending_job-JobsSound now token runner ttl db h = elim (Option-cases (next_pending db)) [
  | inl empty ↦ rw (empty, claim_pending_job) h
  | inr (row, e) ↦
      rw (e, claim_pending_job)
        (take_job-JobsSound now token runner (now + seconds ttl) row.id _
          (refresh-JobsSound (find (λ t. t.id == row.task_id) db.tasks) row db h))
]

pub extend_runner_job_leases-JobsSound :
    (now : ℕ) (runner : String) (ttl : ℕ) (db : Database)
    → JobsSound db
    → JobsSound (extend_runner_job_leases now runner ttl db).1
unfolding extend_runner_job_leases
extend_runner_job_leases-JobsSound now runner ttl db =
    update-JobsSound (λ j. is_running j.status && opt_str_eq j.runner_id runner)
      (λ j. record j { lease_expires_at = some (now + seconds ttl) }) (λ j. refl)
      (λ j e h. ground arith) db

same_lease :
    (db : Database) (job_id : ℕ) (j : JobRecord)
    → find (λ r. r.id == job_id) db.jobs ≡ some j
    → is_some j.lease_token ≡ true
    → JobsSound db
    → (r : JobRecord) → In r db.jobs
    → (r.id == j.id) ≡ true
    → is_some r.lease_token ≡ true
same_lease db job_id j e held h r i t = ground (
  arith,
  find-In_id (λ (r : JobRecord). r.id) 0 db.jobs db.job_seq r h.keyed i,
  find-In_id (λ (r : JobRecord). r.id) 0 db.jobs db.job_seq j h.keyed
      (find-In (λ r. r.id == job_id) db.jobs e),
)

-- The rows that a report changes hold the lease that the job it names holds.
sync_rows :
    (now job_id : ℕ) (seq : ℤ) (s : TaskStatus) (code : Option ℤ) (msg : Option String)
    (j : JobRecord) (db : Database)
    → find (λ r. r.id == job_id) db.jobs ≡ some j
    → is_some j.lease_token ≡ true
    → JobsSound db
    → All IsLeased (update (λ r. r.id == j.id) (sync_row now seq s code msg) db.jobs)
sync_rows now job_id seq s code msg j db e held h =
    All-update-In IsLeased (λ r. r.id == j.id) (sync_row now seq s code msg) db.jobs
      (λ r i t l. sync_row-IsLeased now seq s code msg r (same_lease db job_id j e held h r i t) l)
      h.leased

-- A status report about a job that is leased, whatever its outcome, keeps the jobs sound.
pub apply_job_sync-JobsSound :
    (now job_id : ℕ) (seq : ℤ) (status : String) (code : Option ℤ) (msg : Option String)
    (j : JobRecord) (db : Database)
    → get_job job_id db ≡ some j
    → is_some j.lease_token ≡ true
    → JobsSound db
    → JobsSound (apply_job_sync now job_id seq status code msg db).1
unfolding get_job
apply_job_sync-JobsSound now job_id seq status code msg j db e held h =
    elim (applied_or_not (apply_job_sync now job_id seq status code msg db).0) [
      | inr refused ↦ rw (apply_job_sync_unchanged now job_id seq status code msg db refused) h
      | inl ok ↦
          let (i, s, here, known, new, allowed) =
            apply_job_sync_checked now job_id seq status code msg db ok in
          rw (apply_job_sync_db now job_id seq status code msg db i s here known ok) (record {
            keyed =
                HasKeys-update (λ (r : JobRecord). r.id) _ (sync_row now seq s code msg)
                  (λ r. unfold sync_row in refl) 0 db.jobs db.job_seq h.keyed;
            leased = sync_rows now job_id seq s code msg i db here (ground (arith)) h;
          })
    ]
