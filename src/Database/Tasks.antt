-- ===== src/Database/Tasks.antt =====
-- backend/app/database.py, the task definitions. `sha256` is UNIQUE: an insert or update that would
-- repeat one raises and changes nothing.
use crate_probe.Prelude.{
  ℕ, suc, Bool, not, ◌&&◌, Option, none, some, List, [], ◌∷◌, ◌++◌, String, str_eq, if◌then◌else◌,
  leb, ltb, ◌==◌, is_some,
}
use crate_probe.Table.{find, update, delete, count, order_by}
use crate_probe.Database.Types.{TaskDefRecord, Database, DbResult, done, raised, integrity_error}

unfoldable pub get_task_definition : ℕ → Database → Option TaskDefRecord
get_task_definition task_id db = find (λ t. t.id == task_id) db.tasks

unfoldable pub get_task_definition_by_sha256 : String → Database → Option TaskDefRecord
get_task_definition_by_sha256 sha db = find (λ t. str_eq t.sha256 sha) db.tasks

-- ORDER BY created_at DESC
unfoldable pub list_task_definitions : Database → List TaskDefRecord
list_task_definitions db = order_by (λ a b. leb b.created_at a.created_at) db.tasks

-- returns the new id
unfoldable pub create_task_definition :
    ℕ → String → Option String → String → String → String → Database → DbResult ℕ × Database
create_task_definition now name desc sha zip_path spec db =
    let row : TaskDefRecord = record {
      id = suc db.task_seq;
      name = name;
      desc = desc;
      sha256 = sha;
      zip_path = zip_path;
      spec = spec;
      created_at = now;
      updated_at = none;
    } in
    if is_some (find (λ t. str_eq t.sha256 sha) db.tasks) then (raised integrity_error, db) else (
      done (suc db.task_seq),
      record db { tasks = db.tasks ++ row ∷ []; task_seq = suc db.task_seq },
    )

-- returns whether the row exists
unfoldable pub update_task_definition :
    ℕ → ℕ → String → Option String → String → String → String → Database → DbResult Bool × Database
update_task_definition now task_id name desc sha zip_path spec db =
    let rows =
      update (λ (t : TaskDefRecord). t.id == task_id)
        (λ t. record t {
          name = name;
          desc = desc;
          sha256 = sha;
          zip_path = zip_path;
          spec = spec;
          updated_at = some now;
        })
        db.tasks in
    if is_some (find (λ t. t.id == task_id) db.tasks)
      && is_some (find (λ t. str_eq t.sha256 sha && not (t.id == task_id)) db.tasks)
    then (raised integrity_error, db)
    else (done (ltb 0 (count (λ t. t.id == task_id) db.tasks)), record db { tasks = rows })

-- returns the deleted record
unfoldable pub delete_task_definition : ℕ → Database → Option TaskDefRecord × Database
unfolding get_task_definition
delete_task_definition task_id db = elim (get_task_definition task_id db) [
  | none ↦ (none, db)
  | some r ↦ (some r, record db { tasks = delete (λ t. t.id == task_id) db.tasks })
]
