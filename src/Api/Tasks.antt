-- ===== src/Api/Tasks.antt =====
-- backend/app/main.py: the endpoints of task definitions.
use crate_probe.Prelude.{
  ℕ, ◌*◌, Bool, true, false, not, Option, none, some, String, str_eq, if◌then◌else◌, ltb, ◌==◌,
}
use crate_probe.TaskSpec.{TaskSpec}
use crate_probe.TaskStore.{Upload, valid, rejected, ingest_zip, delete_zip, has_zip}
use crate_probe.Database.Types.{TaskDefRecord, Database, DbResult, done, raised}
use crate_probe.Database.Tasks.{
  get_task_definition, get_task_definition_by_sha256, create_task_definition,
  update_task_definition, delete_task_definition,
}
use crate_probe.Api.Types.{Env, Server, Answer, Reply, ok, http_error}
use crate_probe.Api.Auth.{require_admin_token, require_runner_auth}
use crate_probe.FilePath.{Text}

unfoldable pub ingest_task_upload : Env → Upload → Server → Answer TaskSpec
ingest_task_upload env upload s =
    let (checked, zips') = ingest_zip env.numbers upload s.zips in
    if ltb (env.config.task_upload_max_mb * 1048576) upload.size
    then (http_error 413, s)
    else elim checked [
      | rejected e ↦ (http_error 422, record s { zips = zips' })
      | valid spec ↦ (ok spec, record s { zips = zips' })
    ]

-- the record of an id that was just written; it is there, and the code does not test it
abbrev pub reread : ℕ → Server → Answer TaskDefRecord
reread task_id s = elim (get_task_definition task_id s.db) [
  | none ↦ (http_error 500, s)
  | some r ↦ (ok r, s)
]

abbrev pub created : Server → DbResult ℕ × Database → Answer TaskDefRecord
created s (raised e, db') = (http_error 500, record s { db = db' })
created s (done task_id, db') = reread task_id (record s { db = db' })

unfoldable pub upload_checked : Env → ℕ → String → TaskSpec → Server → Answer TaskDefRecord
upload_checked env now sha spec s =
    let fresh = created s (
      create_task_definition now spec.name spec.desc sha (env.zip_path sha) (env.dumps spec)
        s.db) in
    elim (get_task_definition_by_sha256 sha s.db) [
      | some existing ↦ (ok existing, s)
      | none ↦ fresh
    ]

unfoldable pub upload_task : Env → ℕ → Option String → Upload → Server → Answer TaskDefRecord
unfolding upload_checked
upload_task env now admin_token upload s =
    let (reply, s') = ingest_task_upload env upload s in
    if not (require_admin_token env admin_token) then (http_error 403, s) else elim reply [
      | http_error code ↦ (http_error code, s')
      | ok spec ↦ upload_checked env now upload.sha256 spec s'
    ]

abbrev pub replaced : ℕ → String → Server → DbResult Bool × Database → Answer TaskDefRecord
replaced task_id old_sha s (raised e, db') = (http_error 500, record s { db = db' })
replaced task_id old_sha s (done false, db') = (http_error 404, record s { db = db' })
replaced task_id old_sha s (done true, db') =
    reread task_id (record s { db = db'; zips = delete_zip old_sha s.zips })

-- another definition holds this content
abbrev pub conflicts : ℕ → Option TaskDefRecord → Bool
conflicts task_id none = false
conflicts task_id (some t) = not (t.id == task_id)

-- `old` is the definition before the upload was read
unfoldable pub update_checked :
    Env → ℕ → TaskDefRecord → ℕ → String → TaskSpec → Server → Answer TaskDefRecord
update_checked env now old task_id sha spec s =
    let done_update = replaced task_id old.sha256 s (
      update_task_definition now task_id spec.name spec.desc sha (env.zip_path sha) (env.dumps spec)
        s.db) in
    if str_eq sha old.sha256
    then (ok old, s)
    else if conflicts task_id (get_task_definition_by_sha256 sha s.db)
    then (http_error 409, s)
    else done_update

unfoldable pub update_task : Env → ℕ → Option String → ℕ → Upload → Server → Answer TaskDefRecord
unfolding update_checked
update_task env now admin_token task_id upload s =
    let (reply, s') = ingest_task_upload env upload s in
    if not (require_admin_token env admin_token)
    then (http_error 403, s)
    else elim (get_task_definition task_id s.db) [
      | none ↦ (http_error 404, s)
      | some old ↦ elim reply [
        | http_error code ↦ (http_error code, s')
        | ok spec ↦ update_checked env now old task_id upload.sha256 spec s'
      ]
    ]

unfoldable pub delete_task : Env → Option String → ℕ → Server → Answer TaskDefRecord
delete_task env admin_token task_id s =
    let (deleted, db') = delete_task_definition task_id s.db in
    if not (require_admin_token env admin_token) then (http_error 403, s) else elim deleted [
      | none ↦ (http_error 404, record s { db = db' })
      | some r ↦ (ok r, record s { db = db'; zips = delete_zip r.sha256 s.zips })
    ]

-- the zip that a download answers with, by its fingerprint
unfoldable pub task_zip_file : ℕ → Server → Reply TaskDefRecord
task_zip_file task_id s = elim (get_task_definition task_id s.db) [
  | none ↦ http_error 404
  | some r ↦ if has_zip r.sha256 s.zips then ok r else http_error 404
]

unfoldable pub download_runner_task_zip :
    Env → String → Option Text → ℕ → Server → Reply TaskDefRecord
unfolding task_zip_file
download_runner_task_zip env runner_id authorization task_id s =
    if require_runner_auth env runner_id authorization s.db
    then task_zip_file task_id s
    else http_error 403
