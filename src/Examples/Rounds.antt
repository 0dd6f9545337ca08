-- ===== src/Examples/Rounds.antt =====
-- Rounds of the scheduler, restarts, and sequences of requests.
use crate_probe.Models.{running}
use crate_probe.Database.Types.{JobRecord}
use crate_probe.Scheduler.{schedule_tasks, recover_orphaned_tasks}
use crate_probe.Scheduler.Rounds.{
  IsDue, IsSilent, queued_again, given_up, get_job-schedule_tasks-some,
}
use crate_probe.Database.Jobs.{get_job}
use crate_probe.Scheduler.Recovery.{recover_orphaned_tasks-none_running}
use crate_probe.Api.Jobs.{Lookup}
use crate_probe.System.{Request, init, serve, serve_all}
use crate_probe.System.Jobs.{JobsSound}
use crate_probe.System.Live.{IsLive, tick-IsLive, serve_all-JobsSound}
use crate_probe.TaskStore.{Upload}
use crate_probe.TaskSpec.TomlValue.{Fields, field, end, text}
use crate_probe.Database.Types.{TaskDefRecord}
use crate_probe.Database.Tasks.{
  create_task_definition, get_task_definition, get_task_definition_by_sha256,
}
use crate_probe.TaskStore.{
  ingest_zip, validate, bad_name, get_entry, read_toml, parse_toml, store_zip,
}
use crate_probe.TaskSpec.{
  parse_task_spec, required_str, check_workspace, parse_desc, rel_path_list, parse_limits,
  parse_env,
}
use crate_probe.TaskSpec.TomlValue.{get_field}
use crate_probe.FilePath.{parts, split_slash, keep_components}
use crate_probe.Api.Auth.{require_admin_token}
use crate_probe.Api.Tasks.{upload_task, ingest_task_upload, upload_checked, task_zip_file}
use crate_probe.Api.Types.{ok}
use crate_probe.System.Zips.Reach.{task_zip_file-found}
use crate_probe.Examples.{env, config, db, header, held}
use crate_probe.FilePath.{codes}
use crate_probe.Prelude.{some, List, All, ◌≡◌, ◌∷◌, ◌≢◌, refl, [], pos, none}

abbrev toml : Fields
toml = field "name" (text "build") (
    field "image" (text "rust")
      (field "cmd" (text "cargo build") (field "workspace" (text "/work") end)))

abbrev zip : Upload
zip = record {
  size = 100;
  sha256 = "abc";
  archive = some ((record { name = "task.toml"; size = some 90; toml = some toml }) ∷ []);
}

-- a runner and a task are added, a job is made, and the runner claims it and reports
abbrev requests : List Request
requests =
    Request.add_runner 1 (codes "secret") "salt" "salt" (some "admin") "east"
    ∷ Request.upload 2 (some "admin") zip
    ∷ Request.create 3 "serde" 1 (Lookup.version "1.0.0")
    ∷ Request.claim 4 "token" "east" header 0 1
    ∷ Request.sync 5 "east" header 1 "token" (pos 1) "running" none none
    ∷ []

serve_all-JobsSound_example : JobsSound (serve_all env requests init).db
serve_all-JobsSound_example = serve_all-JobsSound env requests

tick-IsLive_example :
    All
      (λ j. j.status ≡ running → IsLive 6 7 env.config j)
      (serve env (Request.tick 6 7) (serve_all env requests init)).db.jobs
tick-IsLive_example = tick-IsLive env requests 6 7

held_there : get_job 2 db ≡ some held
unfolding get_job
held_there = refl

get_job-schedule_tasks-some_example :
    let after = get_job 2 (schedule_tasks 1000 1001 config db) in
    (IsDue 1000 held → after ≡ some (queued_again held))
    × (¬ IsDue 1000 held → IsSilent 1001 config held → after ≡ some (given_up 1001 held))
    × (¬ IsDue 1000 held → ¬ IsSilent 1001 config held → after ≡ some held)
get_job-schedule_tasks-some_example =
    get_job-schedule_tasks-some 1000 1001 config db 2 held held_there

recover_orphaned_tasks-none_running_example :
    All (λ (r : JobRecord). r.status ≢ running) (recover_orphaned_tasks (λ j. 1000) db).jobs
recover_orphaned_tasks-none_running_example = recover_orphaned_tasks-none_running (λ j. 1000) db

abbrev uploads : List Request
uploads = Request.upload 2 (some "admin") zip ∷ []

abbrev build : TaskDefRecord
build = record {
  id = 1;
  name = "build";
  desc = none;
  sha256 = "abc";
  zip_path = "abc";
  spec = "{}";
  created_at = 2;
  updated_at = none;
}

build_there : get_task_definition 1 (serve_all env uploads init).db ≡ some build
unfolding serve_all serve upload_task require_admin_token ingest_task_upload ingest_zip validate
    bad_name get_entry read_toml parse_toml store_zip upload_checked create_task_definition
    get_task_definition get_task_definition_by_sha256 parse_task_spec required_str check_workspace
    parse_desc rel_path_list parse_limits parse_env get_field parts split_slash keep_components
build_there = refl

task_zip_file-found_example : task_zip_file 1 (serve_all env uploads init) ≡ ok build
task_zip_file-found_example = task_zip_file-found env uploads 1 build build_there
