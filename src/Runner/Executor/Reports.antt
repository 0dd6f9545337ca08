-- ===== src/Runner/Executor/Reports.antt =====
-- backend/app/main.py, `ingest_runner_job_sync`: a report that a runner repeats over a network that loses
-- requests and replies.
use crate_probe.Prelude.{
  ℕ, Bool, true, false, ◌&&◌, Option, none, some, String, ◌≡◌, ℤ, arith, refl, int_leb,
  int_leb_refl, ap, ◌∙◌, subst, sym,
}
use crate_probe.FilePath.{Text}
use crate_probe.Models.{TaskStatus, of_value, is_running, is_terminal}
use crate_probe.Database.Types.{JobRecord, Database, done, DbResult, raised}
use crate_probe.Database.Jobs.{get_job}
use crate_probe.Database.Sync.{apply_job_sync, sync_row}
use crate_probe.Database.Sync.Laws.{seq_of, apply_job_sync_accepts, dropped}
use crate_probe.Api.Types.{Env, Server, Answer}
use crate_probe.Api.Auth.{require_runner_auth, require_job_lease, holds_lease}
use crate_probe.Api.Runner.{SyncReply, ingest_runner_job_sync, sync_reply}
use crate_probe.Database.Runners.{get_runner_by_runner_id}

module _ (env : Env) (runner : String) (auth : Option Text) (job_id : ℕ) (lease : String) where
  -- The runner is let in, and stands at the job with its lease.
  pub record Holds (j : JobRecord) (db : Database) : Type 0 where
    pub authenticated : require_runner_auth env runner auth db ≡ true
    pub found : get_job job_id db ≡ some j
    pub leased : holds_lease j runner lease ≡ true

  module _ (seq : ℤ) (status : String) (code : Option ℤ) (msg : Option String) where
    abbrev pub report : ℕ → Server → Answer SyncReply
    report now s = ingest_runner_job_sync env now runner auth job_id lease seq status code msg s

    -- A report with a new number, whose status the job may take.
    abbrev pub Reportable : TaskStatus → JobRecord → Server → Type 0
    Reportable new_status j s =
        Holds j s.db
        × (of_value status ≡ some new_status)
        × (int_leb seq (seq_of j) ≡ false)
        × (is_terminal j.status && is_running new_status ≡ false)

    -- The job once it was reported, at some time: it has the columns of the report.
    abbrev pub Reported : TaskStatus → JobRecord → Server → Type 0
    Reported new_status j s = (now : ℕ) × Holds (sync_row now seq new_status code msg j) s.db

    pub report-held :
        (now : ℕ) (s : Server) (j : JobRecord)
        → Holds j s.db
        → report now s
          ≡ sync_reply job_id status s (apply_job_sync now job_id seq status code msg s.db)
    unfolding ingest_runner_job_sync require_job_lease
    report-held now s j h = ground (arith, h.authenticated, h.found, h.leased)

    sync_reply-db :
        (s : Server) (r : DbResult (Option Bool)) (db : Database)
        → (sync_reply job_id status s (r, db)).1.db ≡ db
    unfolding sync_reply
    sync_reply-db s (raised e) db = refl
    sync_reply-db s (done none) db = refl
    sync_reply-db s (done (some b)) db = refl

    pub report-db :
        (now : ℕ) (s : Server) (j : JobRecord)
        → Holds j s.db
        → (report now s).1.db ≡ (apply_job_sync now job_id seq status code msg s.db).1
    report-db now s j h =
        ap (λ (a : Answer SyncReply). a.1.db) (report-held now s j h)
        ∙ sync_reply-db s (apply_job_sync now job_id seq status code msg s.db).0 _

    sync_row-kept :
        (now : ℕ) (new_status : TaskStatus) (j : JobRecord)
        → holds_lease (sync_row now seq new_status code msg j) runner lease
          ≡ holds_lease j runner lease
    unfolding holds_lease sync_row
    sync_row-kept now new_status j = refl

    runners-kept :
        (now : ℕ) (db : Database)
        → require_runner_auth env runner auth (apply_job_sync now job_id seq status code msg db).1
          ≡ require_runner_auth env runner auth db
    unfolding require_runner_auth get_runner_by_runner_id apply_job_sync
    runners-kept now db = ground arith

    pub report-Reported :
        (new_status : TaskStatus) (j : JobRecord) (now : ℕ) (s : Server)
        → Reportable new_status j s
        → Reported new_status j (report now s).1
    unfolding get_job
    report-Reported new_status j now s (h, known, new, allowed) =
        let db' = (apply_job_sync now job_id seq status code msg s.db).1 in
        let row = sync_row now seq new_status code msg j in
        let accepts =
          apply_job_sync_accepts now job_id seq status code msg s.db j new_status h.found known new
            allowed in
        let held : Holds row db' = record {
          authenticated = runners-kept now s.db ∙ h.authenticated;
          found = accepts.1;
          leased = sync_row-kept now new_status j ∙ h.leased;
        } in
        (now, subst (Holds row) (sym (report-db now s j h)) held)

    pub report-again :
        (new_status : TaskStatus) (j : JobRecord) (now : ℕ) (s : Server)
        → Reported new_status j s
        → Reported new_status j (report now s).1
    unfolding get_job
    report-again new_status j now s (then_, h) =
        let row = sync_row then_ seq new_status code msg j in
        let same =
          dropped now job_id seq status code msg s.db row h.found
            (unfold sync_row in int_leb_refl seq) in
        (
          then_,
          subst (Holds row)
              (sym
                (report-db now s row h ∙ ap (λ (r : DbResult (Option Bool) × Database). r.1) same))
              h,
        )
