-- ===== src/Database/Claim/Laws.antt =====
-- backend/app/database.py, `claim_pending_job`: which job is claimed, and what is stored.
use crate_probe.Prelude.{
  ℕ, ◌≡◌, ◌≢◌, refl, Option, none, some, String, arith, if◌then◌else◌, ◌==◌, In, ◌+◌, Option-cases,
  inl, inr, ◌∙◌, ==-self, false, Bool-cases,
}
use crate_probe.Models.{pending}
use crate_probe.Table.{find}
use crate_probe.Table.Rows.{find-holds}
use crate_probe.Table.Keys.{find-In_id}
use crate_probe.Database.Types.{JobRecord, TaskDefRecord, Database, seconds}
use crate_probe.Database.Jobs.{get_job}
use crate_probe.Database.Claim.{
  next_pending, refresh_snapshot, take_job, claim_row, claim_pending_job,
}
use crate_probe.Database.Claim.Steps.{
  JobsHaveKeys, refreshed, IsNext, next_pending-IsNext, find-refresh_snapshot, take_job-pending,
  find-take_job, next_pending-none, claim_row-id, refreshed-status, find-refresh_snapshot-none,
  refreshed-id,
}

module _ (now : ℕ) (token runner : String) (ttl : ℕ) (db : Database) where
  -- The job that a claim of `j` hands out.
  unfoldable pub claimed : JobRecord → JobRecord
  claimed j =
      claim_row now token runner (now + seconds ttl)
        (refreshed (find (λ t. t.id == j.task_id) db.tasks) j)

  find-refreshed :
      JobsHaveKeys db
      → (j : JobRecord) → In j db.jobs
      → (t : Option TaskDefRecord)
      → find (λ r. r.id == j.id) (refresh_snapshot t j db).jobs ≡ some (refreshed t j)
  find-refreshed keyed j i t =
      find-refresh_snapshot t j db j.id j
        (find-In_id (λ (r : JobRecord). r.id) 0 db.jobs db.job_seq j keyed i) (λ e. refl)
      ∙ rw (==-self j.id) refl

  taken :
      JobsHaveKeys db
      → (j : JobRecord) → IsNext db j
      → (t : Option TaskDefRecord)
      → (take_job now token runner (now + seconds ttl) j.id (refresh_snapshot t j db)).0
        ≡ some (claim_row now token runner (now + seconds ttl) (refreshed t j))
  taken keyed j n t =
      take_job-pending now token runner (now + seconds ttl) j.id (refresh_snapshot t j db)
        (refreshed t j) (find-refreshed keyed j n.member t) (refreshed-status t j ∙ n.is_pending)

  find-taken_self :
      JobsHaveKeys db
      → (j : JobRecord) → IsNext db j
      → (t : Option TaskDefRecord)
      → find
          (λ r. r.id == j.id)
          (take_job now token runner (now + seconds ttl) j.id (refresh_snapshot t j db)).1.jobs
        ≡ some (claim_row now token runner (now + seconds ttl) (refreshed t j))
  find-taken_self keyed j n t = ground (
    arith,
    find-take_job now token runner (now + seconds ttl) j.id (refresh_snapshot t j db) j.id,
    find-refreshed keyed j n.member t,
    refreshed-status t j,
    refreshed-id t j,
    n.is_pending,
  )

  find-taken_other :
      (j : JobRecord) (t : Option TaskDefRecord) (k : ℕ)
      → (k == j.id) ≡ false
      → find
          (λ r. r.id == k)
          (take_job now token runner (now + seconds ttl) j.id (refresh_snapshot t j db)).1.jobs
        ≡ find (λ r. r.id == k) db.jobs
  find-taken_other j t k apart = elim (Option-cases (find (λ (r : JobRecord). r.id == k) db.jobs)) [
    | inl missing ↦ ground (
      arith,
      find-take_job now token runner (now + seconds ttl) j.id (refresh_snapshot t j db) k,
      find-refresh_snapshot-none t j db k missing,
    )
    | inr (r, e) ↦ ground (
      arith,
      find-take_job now token runner (now + seconds ttl) j.id (refresh_snapshot t j db) k,
      find-holds (λ (r : JobRecord). r.id == k) db.jobs e,
      find-refresh_snapshot t j db k r e,
    )
  ]

  -- A claim hands out the next job, as `claimed` makes it.
  pub claim_pending_job-claimed :
      {c : JobRecord}
      → JobsHaveKeys db
      → (claim_pending_job now token runner ttl db).0 ≡ some c
      → (j : JobRecord) × IsNext db j × (c ≡ claimed j)
  unfolding claim_pending_job claimed
  claim_pending_job-claimed {c} keyed e = elim (Option-cases (next_pending db)) [
    | inl empty ↦ absurd (ground arith)
    | inr (j, head) ↦
        let n = next_pending-IsNext db head in
        (j, n, ground (arith, taken keyed j n (find (λ t. t.id == j.task_id) db.tasks)))
  ]

  -- Where no job is claimed, none is pending, and nothing changes.
  pub claim_pending_job-none :
      JobsHaveKeys db
      → (claim_pending_job now token runner ttl db).0 ≡ none
      → ((k : JobRecord) → In k db.jobs → k.status ≢ pending)
        × ((claim_pending_job now token runner ttl db).1 ≡ db)
  unfolding claim_pending_job
  claim_pending_job-none keyed e = elim (Option-cases (next_pending db)) [
    | inl empty ↦ (next_pending-none db empty, ground arith)
    | inr (j, head) ↦ absurd (
        ground (
          arith,
          taken keyed j (next_pending-IsNext db head) (find (λ t. t.id == j.task_id) db.tasks),
        ))
  ]

  -- After a claim the claimed job is stored as it was handed out, and every other job is as it was.
  pub get_job-claim_pending_job :
      {c : JobRecord}
      → JobsHaveKeys db
      → (claim_pending_job now token runner ttl db).0 ≡ some c
      → (k : ℕ)
      → get_job k (claim_pending_job now token runner ttl db).1
        ≡ (if k == c.id then some c else get_job k db)
  unfolding claim_pending_job get_job
  get_job-claim_pending_job {c} keyed e k = elim (Option-cases (next_pending db)) [
    | inl empty ↦ absurd (ground arith)
    | inr (j, head) ↦
        let n = next_pending-IsNext db head in
        let t = find (λ (t : TaskDefRecord). t.id == j.task_id) db.tasks in
        elim (Bool-cases (k == j.id)) [
          | inl here ↦ ground (
            arith,
            taken keyed j n t,
            find-taken_self keyed j n t,
            claim_row-id now token runner (now + seconds ttl) (refreshed t j),
            refreshed-id t j,
          )
          | inr apart ↦ ground (
            arith,
            taken keyed j n t,
            find-taken_other j t k apart,
            claim_row-id now token runner (now + seconds ttl) (refreshed t j),
            refreshed-id t j,
          )
        ]
  ]
