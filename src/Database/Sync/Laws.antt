-- ===== src/Database/Sync/Laws.antt =====
-- backend/app/database.py, `apply_job_sync`: what a report does, by its sequence number, job and status.
use crate_probe.Prelude.{
  ℕ, ◌≡◌, ◌≢◌, ◌⊎◌, refl, sym, ap, ◌∙◌, Bool, true, false, Option, none, some, map_option, String,
  ℤ, pos, int_leb, int_leb_refl, int_leb_total, arith, if◌then◌else◌, ◌==◌, ◌&&◌, ==→eq, coalesce,
  Option-cases, inl, inr,
}
use crate_probe.Models.{TaskStatus, of_value, is_terminal, is_running}
use crate_probe.Table.{find, update}
use crate_probe.Table.Rows.{find-update, find-holds}
use crate_probe.Database.Types.{JobRecord, Database, DbResult, done, raised}
use crate_probe.Database.Sync.{sync_row, apply_job_sync}

-- the sequence number that a report must exceed
abbrev pub seq_of : JobRecord → ℤ
seq_of j = coalesce j.last_sync_seq (pos 0)

abbrev pub applied : DbResult (Option Bool)
applied = done (some true)

module _ (now job_id : ℕ) (seq : ℤ) (status : String) (code : Option ℤ) (msg : Option String)
    (db : Database) where
  -- A report that is not applied, whatever the reason, leaves the database as it was.
  pub apply_job_sync_unchanged :
      (apply_job_sync now job_id seq status code msg db).0 ≢ applied
      → (apply_job_sync now job_id seq status code msg db).1 ≡ db
  unfolding apply_job_sync
  apply_job_sync_unchanged h = ground arith

  pub apply_job_sync_db :
      (j : JobRecord) (s : TaskStatus)
      → find (λ r. r.id == job_id) db.jobs ≡ some j
      → of_value status ≡ some s
      → (apply_job_sync now job_id seq status code msg db).0 ≡ applied
      → (apply_job_sync now job_id seq status code msg db).1
        ≡ record db { jobs = update (λ r. r.id == j.id) (sync_row now seq s code msg) db.jobs }
  unfolding apply_job_sync
  apply_job_sync_db j s here known ok = ground arith

  -- Which jobs a report changes: at most the one it names, which gets the reported columns.
  pub find-apply_job_sync :
      (k : ℕ) (j : JobRecord) (s : TaskStatus)
      → find (λ r. r.id == job_id) db.jobs ≡ some j
      → of_value status ≡ some s
      → (apply_job_sync now job_id seq status code msg db).0 ≡ applied
      → find (λ r. r.id == k) (apply_job_sync now job_id seq status code msg db).1.jobs
        ≡ map_option
            (λ r. if r.id == job_id then sync_row now seq s code msg r else r)
            (find (λ r. r.id == k) db.jobs)
  unfolding apply_job_sync
  find-apply_job_sync k j s here known ok =
      let e : j.id ≡ job_id = ==→eq j.id job_id (find-holds (λ r. r.id == job_id) db.jobs here) in
      ground (
        arith,
        e,
        find-update (λ r. r.id == k) (λ r. r.id == job_id) (sync_row now seq s code msg) (λ r. refl)
            db.jobs,
      )

  accepted :
      (j : JobRecord) (s : TaskStatus)
      → find (λ r. r.id == job_id) db.jobs ≡ some j
      → of_value status ≡ some s
      → int_leb seq (seq_of j) ≡ false
      → is_terminal j.status && is_running s ≡ false
      → (apply_job_sync now job_id seq status code msg db).0 ≡ applied
  unfolding apply_job_sync
  accepted j s here known new allowed = ground arith

  -- A report with a new sequence number, a known status and an allowed transition is applied, and
  -- the job then has exactly the reported columns.
  pub apply_job_sync_accepts :
      (j : JobRecord) (s : TaskStatus)
      → find (λ r. r.id == job_id) db.jobs ≡ some j
      → of_value status ≡ some s
      → int_leb seq (seq_of j) ≡ false
      → is_terminal j.status && is_running s ≡ false
      → ((apply_job_sync now job_id seq status code msg db).0 ≡ applied)
        × (find (λ r. r.id == job_id) (apply_job_sync now job_id seq status code msg db).1.jobs
            ≡ some (sync_row now seq s code msg j))
  apply_job_sync_accepts j s here known new allowed =
      let ok = accepted j s here known new allowed in
      (
        ok,
        ground (
          arith,
          find-apply_job_sync job_id j s here known ok,
          find-holds (λ r. r.id == job_id) db.jobs here,
        ),
      )

  -- What an applied report was checked for.
  pub apply_job_sync_checked :
      (apply_job_sync now job_id seq status code msg db).0 ≡ applied
      → (j : JobRecord) × (s : TaskStatus) × (find (λ r. r.id == job_id) db.jobs ≡ some j)
        × (of_value status ≡ some s)
        × (int_leb seq (seq_of j) ≡ false)
        × (is_terminal j.status && is_running s ≡ false)
  unfolding apply_job_sync
  apply_job_sync_checked h = elim (Option-cases (find (λ r. r.id == job_id) db.jobs)) [
    | inl missing ↦ absurd (ground arith)
    | inr (j, here) ↦ elim (Option-cases (of_value status)) [
      | inl unknown ↦ absurd (ground arith)
      | inr (s, known) ↦ (j, s, here, known, ground arith, ground arith)
    ]
  ]

pub dropped :
    (now job_id : ℕ) (seq : ℤ) (status : String) (code : Option ℤ) (msg : Option String)
    (db : Database) (j : JobRecord)
    → find (λ r. r.id == job_id) db.jobs ≡ some j
    → int_leb seq (seq_of j) ≡ true
    → apply_job_sync now job_id seq status code msg db ≡ (done (some false), db)
unfolding apply_job_sync
dropped now job_id seq status code msg db j here old = ground arith

grown :
    (now job_id : ℕ) (seq : ℤ) (code : Option ℤ) (msg : Option String) (db : Database) (k : ℕ)
    (i j j' : JobRecord) (s : TaskStatus)
    → find (λ r. r.id == job_id) db.jobs ≡ some i
    → find (λ r. r.id == k) db.jobs ≡ some j
    → int_leb seq (seq_of i) ≡ false
    → map_option
        (λ r. if r.id == job_id then sync_row now seq s code msg r else r)
        (find (λ r. r.id == k) db.jobs)
      ≡ some j'
    → int_leb (seq_of j) (seq_of j') ≡ true
unfolding sync_row
grown now job_id seq code msg db k i j j' s here before new after = ground (
  arith,
  find-holds (λ r. r.id == k) db.jobs before,
  int_leb_total seq (seq_of i) new,
  int_leb_refl (seq_of j),
)

same :
    (k : ℕ) (db : Database) (j j' : JobRecord)
    → find (λ r. r.id == k) db.jobs ≡ some j
    → find (λ r. r.id == k) db.jobs ≡ some j'
    → int_leb (seq_of j) (seq_of j') ≡ true
same k db j j' before after = ground (arith, int_leb_refl (seq_of j))

pub applied_or_not : (r : DbResult (Option Bool)) → (r ≡ applied) ⊎ (r ≢ applied)
applied_or_not (done none) = inr (λ e. cc)
applied_or_not (done (some true)) = inl refl
applied_or_not (done (some false)) = inr (λ e. cc)
applied_or_not (raised e) = inr (λ e. cc)

-- Over any report, whatever its outcome, the sequence number of every job only grows.
pub seq_of-apply_job_sync :
    (now job_id : ℕ) (seq : ℤ) (status : String) (code : Option ℤ) (msg : Option String)
    (db : Database) (k : ℕ) (j j' : JobRecord)
    → find (λ r. r.id == k) db.jobs ≡ some j
    → find (λ r. r.id == k) (apply_job_sync now job_id seq status code msg db).1.jobs ≡ some j'
    → int_leb (seq_of j) (seq_of j') ≡ true
seq_of-apply_job_sync now job_id seq status code msg db k j j' before after =
    elim (applied_or_not (apply_job_sync now job_id seq status code msg db).0) [
      | inl ok ↦
          let (i, s, here, known, new, allowed) =
            apply_job_sync_checked now job_id seq status code msg db ok in
          grown now job_id seq code msg db k i j j' s here before new (
            sym (find-apply_job_sync now job_id seq status code msg db k i s here known ok) ∙ after)
      | inr not_ok ↦ same k db j j' before (
          ap (λ (d : Database). find (λ r. r.id == k) d.jobs)
            (sym (apply_job_sync_unchanged now job_id seq status code msg db not_ok))
          ∙ after)
    ]

-- A report that is sent again after it was applied is dropped, at whatever time and with whatever
-- status, and changes nothing.
pub apply_job_sync_again :
    (now later job_id : ℕ) (seq : ℤ) (status again : String) (code code' : Option ℤ)
    (msg msg' : Option String) (db : Database)
    → (apply_job_sync now job_id seq status code msg db).0 ≡ applied
    → let db' = (apply_job_sync now job_id seq status code msg db).1 in
      apply_job_sync later job_id seq again code' msg' db' ≡ (done (some false), db')
apply_job_sync_again now later job_id seq status again code code' msg msg' db ok =
    let (j, s, here, known, new, allowed) =
      apply_job_sync_checked now job_id seq status code msg db ok in
    dropped later job_id seq again code' msg' (apply_job_sync now job_id seq status code msg db).1
      (sync_row now seq s code msg j)
      (apply_job_sync_accepts now job_id seq status code msg db j s here known new allowed).1
      (unfold sync_row in int_leb_refl seq)
