-- ===== src/Api/Readers.antt =====
-- backend/app/main.py: the endpoints that read the list of jobs and the files of a job. A body that the framework
-- refuses (a page below 1, a page size that is not between 1 and 1000, a filter that is too long) is the status
-- 422.
pub mod Tail
use crate_probe.Prelude.{
  ℕ, ◌-◌, ◌*◌, Bool, ◌&&◌, Option, List, String, ℤ, if◌then◌else◌, leb, map, map_option, is_some,
  true, some, length, none,
}
use crate_probe.FilePath.{Text, FilePath, codes}
use crate_probe.Models.{TaskStatus, value}
use crate_probe.JobFiles.{read, joined, unsafe, artifact_file_path}
use crate_probe.JobFiles.Reading.{
  Found, found, unsafe_path, not_found, read_tail, read_raw, ListedFile, list_files, list_artifacts,
}
use crate_probe.Database.Types.{JobRecord}
use crate_probe.Database.Jobs.{get_job}
use crate_probe.Database.Query.{SortColumn, query_jobs}
use crate_probe.Api.Types.{Env, Server, Reply, ok, http_error}

-- `JobListItemResponse`; a time is its number
pub record JobListItem : Type 0 where
  pub id : ℕ
  pub crate_name : String
  pub version : String
  pub status : String
  pub exit_code : Option ℤ
  pub created_at : ℕ
  pub started_at : Option ℕ
  pub finished_at : Option ℕ
  pub runner_id : Option String
  pub task_id : ℕ
  pub task_name : String

abbrev pub item_of : JobRecord → JobListItem
item_of job = record {
  id = job.id;
  crate_name = job.crate_name;
  version = job.version;
  status = value job.status;
  exit_code = job.exit_code;
  created_at = job.created_at;
  started_at = job.started_at;
  finished_at = job.finished_at;
  runner_id = job.runner_id;
  task_id = job.task_id;
  task_name = job.task_name;
}

pub record JobList : Type 0 where
  pub items : List JobListItem
  pub total : ℕ
  pub page : ℕ
  pub page_size : ℕ

-- `max_length=200` of a filter
abbrev pub is_short : Option String → Bool
is_short none = true
is_short (some text) = leb (length (codes text)) 200

unfoldable pub get_all_jobs_endpoint :
    ((JobRecord → JobRecord → Bool) → List JobRecord → List JobRecord)
    → ℕ
    → ℕ
    → ℕ
    → Option TaskStatus
    → Option String
    → Option String
    → SortColumn
    → Bool
    → Server
    → Reply JobList
get_all_jobs_endpoint sort now page page_size status crate_name task_name sort_by ascending s =
    let (total, jobs) =
      query_jobs sort now (map_option value status) crate_name task_name sort_by ascending page_size
        ((page - 1) * page_size) s.db in
    if leb 1 page
      && leb 1 page_size
      && leb page_size 1000
      && is_short crate_name
      && is_short task_name
    then ok (record { items = map item_of jobs; total = total; page = page; page_size = page_size })
    else http_error 422

-- for a job that is not there, the status 404
abbrev pub of_job : {A : Type 0} → ℕ → Reply A → Server → Reply A
of_job job_id reply s = if is_some (get_job job_id s.db) then reply else http_error 404

unfoldable pub list_job_files : Env → ℕ → Server → Reply (List ListedFile)
list_job_files env job_id s = of_job job_id (ok (list_files env.store job_id s.disk)) s

unfoldable pub list_job_artifacts : Env → ℕ → Server → Reply (List ListedFile)
list_job_artifacts env job_id s = of_job job_id (ok (list_artifacts env.store job_id s.disk)) s

-- the lines of a file as JSON, or its text
pub data FileContent : Type 0 where
  lines_of : List Text → FileContent
  text_of : Text → FileContent

abbrev pub found_reply : {A B : Type 0} → (A → B) → Found A → Reply B
found_reply f (found a) = ok (f a)
found_reply f unsafe_path = http_error 400
found_reply f not_found = http_error 404

-- a read that fails on the way is the status 500, and is not modelled
unfoldable pub get_job_file :
    (List ℕ → Text) → Env → ℕ → Text → ℕ → Bool → Server → Reply FileContent
get_job_file decode env job_id path lines raw s =
    let text = found_reply text_of (read_raw decode env.resolve env.store job_id path s.disk) in
    let tail =
      found_reply lines_of (read_tail decode env.resolve env.store job_id path lines s.disk) in
    of_job job_id (if raw then text else tail) s

-- the file that is sent
unfoldable pub download_job_artifact : Env → ℕ → Text → Server → Reply FilePath
download_job_artifact env job_id path s =
    let reply : Reply FilePath = elim (artifact_file_path env.resolve env.store job_id path) [
      | unsafe e ↦ http_error 400
      | joined target ↦ if is_some (read target s.disk) then ok target else http_error 404
    ] in
    of_job job_id reply s
