-- ===== src/System/Untouched.antt =====
-- backend/app/main.py: the jobs table over the endpoints of task definitions, runners and files.
use crate_probe.Database.Types.{Database, DbResult, TaskDefRecord, raised, done}
use crate_probe.Api.Types.{Env, Server}
use crate_probe.Database.Tasks.{
  create_task_definition, update_task_definition, delete_task_definition, get_task_definition,
}
use crate_probe.Database.Chunks.{record_job_file_chunk}
use crate_probe.Database.Runners.{create_runner, delete_runner, disable_runner, enable_runner}
use crate_probe.Api.Files.{
  Mode, push_chunk, push_safe, push_runner_job_file, upload_runner_job_artifact,
}
use crate_probe.Api.Tasks.{
  ingest_task_upload, upload_checked, upload_task, update_checked, update_task, delete_task, reread,
  created, replaced,
}
use crate_probe.Api.Admin.{
  create_runner_endpoint, delete_runner_endpoint, disable_runner_endpoint, enable_runner_endpoint,
  switched,
}
use crate_probe.TaskStore.{Upload}
use crate_probe.System.Safety.{SameJobs, Reply-cases}
use crate_probe.Prelude.{
  ℕ, String, ◌≡◌, Option, List, arith, Bool, Option-cases, ℤ, inl, some, inr, none, false, refl,
  true,
}
use crate_probe.FilePath.{Text}
use crate_probe.TaskSpec.{TaskSpec}
use crate_probe.JobFiles.{Read}

push_chunk-jobs :
    (env : Env) (job_id : ℕ) (path : String) (content : List ℕ) (seq : ℤ) (s : Server)
    → SameJobs s.db (push_chunk env job_id path content seq s).1.db
unfolding push_chunk record_job_file_chunk
push_chunk-jobs env job_id path content seq s = ground arith

push_safe-jobs :
    (env : Env) (job_id : ℕ) (path : String) (mode : Mode) (content : List ℕ) (seq : Option ℤ)
    (s : Server)
    → SameJobs s.db (push_safe env job_id path mode content seq s).1.db
unfolding push_safe
push_safe-jobs env job_id path Mode.append content none s = (refl, refl)
push_safe-jobs env job_id path Mode.append content (some seq) s =
    push_chunk-jobs env job_id path content seq s
push_safe-jobs env job_id path Mode.full content seq s = (refl, refl)

pub push-jobs :
    (env : Env) (runner : String) (auth : Option Text) (job_id : ℕ) (lease path : String)
    (mode : Mode) (content : List ℕ) (seq : Option ℤ) (s : Server)
    → SameJobs s.db (push_runner_job_file env runner auth job_id lease path mode content seq s).1.db
unfolding push_runner_job_file
push-jobs env runner auth job_id lease path mode content seq s =
    ground (arith, push_safe-jobs env job_id path mode content seq s)

pub artifact-jobs :
    (env : Env) (runner : String) (auth : Option Text) (job_id : ℕ) (lease path : String)
    (stream : List Read) (s : Server)
    → SameJobs s.db (upload_runner_job_artifact env runner auth job_id lease path stream s).1.db
unfolding upload_runner_job_artifact
artifact-jobs env runner auth job_id lease path stream s = ground arith

ingest-db : (env : Env) (u : Upload) (s : Server) → (ingest_task_upload env u s).1.db ≡ s.db
unfolding ingest_task_upload
ingest-db env u s = ground arith

pub create_task-jobs :
    (now : ℕ) (name : String) (desc : Option String) (sha path spec : String) (db : Database)
    → SameJobs db (create_task_definition now name desc sha path spec db).1
unfolding create_task_definition
create_task-jobs now name desc sha path spec db = ground arith

pub update_task_row-jobs :
    (now task_id : ℕ) (name : String) (desc : Option String) (sha path spec : String)
    (db : Database)
    → SameJobs db (update_task_definition now task_id name desc sha path spec db).1
unfolding update_task_definition
update_task_row-jobs now task_id name desc sha path spec db = ground arith

pub delete_task_row-jobs :
    (task_id : ℕ) (db : Database) → SameJobs db (delete_task_definition task_id db).1
unfolding delete_task_definition
delete_task_row-jobs task_id db = ground arith

reread-db : (task_id : ℕ) (s : Server) → (reread task_id s).1.db ≡ s.db
reread-db task_id s = ground arith

created-db : (s : Server) (r : DbResult ℕ × Database) → (created s r).1.db ≡ r.1
created-db s (raised e, db) = refl
created-db s (done task_id, db) = reread-db task_id (record s { db = db })

replaced-db :
    (task_id : ℕ) (sha : String) (s : Server) (r : DbResult Bool × Database)
    → (replaced task_id sha s r).1.db ≡ r.1
replaced-db task_id sha s (raised e, db) = refl
replaced-db task_id sha s (done false, db) = refl
replaced-db task_id sha s (done true, db) = reread-db task_id _

upload_checked-jobs :
    (env : Env) (now : ℕ) (sha : String) (spec : TaskSpec) (s : Server)
    → SameJobs s.db (upload_checked env now sha spec s).1.db
unfolding upload_checked
upload_checked-jobs env now sha spec s = ground (
  arith,
  created-db s
      (create_task_definition now spec.name spec.desc sha (env.zip_path sha) (env.dumps spec) s.db),
  create_task-jobs now spec.name spec.desc sha (env.zip_path sha) (env.dumps spec) s.db,
)

update_checked-jobs :
    (env : Env) (now : ℕ) (old : TaskDefRecord) (task_id : ℕ) (sha : String) (spec : TaskSpec)
    (s : Server)
    → SameJobs s.db (update_checked env now old task_id sha spec s).1.db
unfolding update_checked
update_checked-jobs env now old task_id sha spec s = ground (
  arith,
  replaced-db task_id old.sha256 s (
      update_task_definition now task_id spec.name spec.desc sha (env.zip_path sha) (env.dumps spec)
        s.db),
  update_task_row-jobs now task_id spec.name spec.desc sha (env.zip_path sha) (env.dumps spec) s.db,
)

pub upload_task-jobs :
    (env : Env) (now : ℕ) (admin : Option String) (u : Upload) (s : Server)
    → SameJobs s.db (upload_task env now admin u s).1.db
unfolding upload_task
upload_task-jobs env now admin u s = elim (Reply-cases (ingest_task_upload env u s).0) [
  | inl (n, e) ↦ ground (arith, ingest-db env u s)
  | inr (spec, e) ↦ ground (
    arith,
    ingest-db env u s,
    upload_checked-jobs env now u.sha256 spec (ingest_task_upload env u s).1,
  )
]

pub update_task-jobs :
    (env : Env) (now : ℕ) (admin : Option String) (task_id : ℕ) (u : Upload) (s : Server)
    → SameJobs s.db (update_task env now admin task_id u s).1.db
unfolding update_task
update_task-jobs env now admin task_id u s =
    elim (Option-cases (get_task_definition task_id s.db)) [
      | inl missing ↦ ground arith
      | inr (old, found) ↦ elim (Reply-cases (ingest_task_upload env u s).0) [
        | inl (n, e) ↦ ground (arith, ingest-db env u s)
        | inr (spec, e) ↦ ground (
          arith,
          ingest-db env u s,
          update_checked-jobs env now old task_id u.sha256 spec (ingest_task_upload env u s).1,
        )
      ]
    ]

pub delete_task-jobs :
    (env : Env) (admin : Option String) (task_id : ℕ) (s : Server)
    → SameJobs s.db (delete_task env admin task_id s).1.db
unfolding delete_task
delete_task-jobs env admin task_id s = ground (arith, delete_task_row-jobs task_id s.db)

pub create_runner-jobs :
    (env : Env) (now : ℕ) (token : Text) (salt encoded : String) (admin : Option String)
    (runner : String) (s : Server)
    → SameJobs s.db (create_runner_endpoint env now token salt encoded admin runner s).1.db
unfolding create_runner_endpoint create_runner
create_runner-jobs env now token salt encoded admin runner s = ground arith

pub delete_runner-jobs :
    (env : Env) (admin : Option String) (runner : String) (s : Server)
    → SameJobs s.db (delete_runner_endpoint env admin runner s).1.db
unfolding delete_runner_endpoint delete_runner
delete_runner-jobs env admin runner s = ground arith

switched-db :
    (runner : String) (s : Server) (r : Bool × Database) → (switched runner s r).1.db ≡ r.1
switched-db runner s (found, db) = ground arith

disable-jobs : (runner : String) (db : Database) → SameJobs db (disable_runner runner db).1
unfolding disable_runner
disable-jobs runner db = ground arith

enable-jobs : (runner : String) (db : Database) → SameJobs db (enable_runner runner db).1
unfolding enable_runner
enable-jobs runner db = ground arith

pub disable_runner-jobs :
    (env : Env) (admin : Option String) (runner : String) (s : Server)
    → SameJobs s.db (disable_runner_endpoint env admin runner s).1.db
unfolding disable_runner_endpoint
disable_runner-jobs env admin runner s =
    ground (arith, switched-db runner s (disable_runner runner s.db), disable-jobs runner s.db)

pub enable_runner-jobs :
    (env : Env) (admin : Option String) (runner : String) (s : Server)
    → SameJobs s.db (enable_runner_endpoint env admin runner s).1.db
unfolding enable_runner_endpoint
enable_runner-jobs env admin runner s =
    ground (arith, switched-db runner s (enable_runner runner s.db), enable-jobs runner s.db)
