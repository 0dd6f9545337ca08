-- ===== src/Examples.antt =====
-- A small control plane, on which the theorems are applied: a job that ended, one that a runner holds,
-- and two in the queue.
pub mod Jobs
pub mod Reports
pub mod Files
pub mod Rounds
pub mod Specs
pub mod Metrics
pub mod Uploads
pub mod Executions
pub mod Runners
pub mod Queries
use crate_probe.Prelude.{
  ℕ, Bool, true, false, ◌&&◌, Option, none, some, List, [], ◌∷◌, String, ℤ, pos, leb, ltb,
}
use crate_probe.FilePath.{Text, FilePath, codes}
use crate_probe.Config.{Config}
use crate_probe.Models.{TaskStatus, pending, running, completed}
use crate_probe.JobFiles.{JobFileStore, Disk}
use crate_probe.TaskSpec.Regex.{Numbers}
use crate_probe.Database.Types.{JobRecord, RunnerRecord, Database}
use crate_probe.Api.Types.{Env, Server}

abbrev pub config : Config
config = record {
  lease_ttl_seconds = 45;
  runner_offline_seconds = 30;
  claim_max_jobs_hard_limit = 64;
  max_state_sync_interval_seconds = 180;
  admin_token = "admin";
  task_upload_max_mb = 50;
  file_push_max_mb = 10;
  artifact_max_mb = 100;
}

abbrev pub store : JobFileStore
store = record { workspace = codes "srv" ∷ []; full_mode_max_bytes = 4; artifact_max_bytes = 3 }

abbrev pub numbers : Numbers
numbers = record {
  is_digit = λ c. leb 48 c && leb c 57;
  round_product = λ n multiplier. multiplier;
}

abbrev pub env : Env
env = record {
  config = config;
  store = store;
  resolve = λ p. p;
  numbers = numbers;
  dumps = λ spec. "{}";
  zip_path = λ sha. sha;
  hash_token = λ token salt. "digest";
  decode_salt = some;
}

abbrev pub job : ℕ → TaskStatus → JobRecord
job id status = record {
  id = id;
  crate_name = "serde";
  version = "1.0.0";
  task_id = 1;
  task_name = "build";
  task_sha256 = "abc";
  task_spec = "{}";
  status = status;
  created_at = 100;
  started_at = none;
  finished_at = none;
  pid = none;
  exit_code = none;
  error_message = none;
  message = none;
  memory_used_mb = none;
  priority = some (pos 0);
  runner_id = none;
  lease_token = none;
  lease_expires_at = none;
  attempt = some 0;
  last_sync_seq = some (pos 0);
  cancel_requested = false;
  last_state_sync_at = none;
}

abbrev pub held : JobRecord
held = record (job 2 running) {
  started_at = some 200;
  runner_id = some "east";
  lease_token = some "token";
  lease_expires_at = some 900;
  last_sync_seq = some (pos 3);
  last_state_sync_at = some 300;
}

abbrev pub ended : JobRecord
ended = record (job 1 completed) {
  started_at = some 110;
  finished_at = some 150;
  last_sync_seq = some (pos 3);
}

abbrev pub urgent : JobRecord
urgent = record (job 4 pending) { priority = some (pos 5) }

abbrev pub east : RunnerRecord
east = record {
  id = 1;
  runner_id = "east";
  token_hash = "digest";
  token_salt = "salt";
  enabled = true;
  created_at = 50;
  last_seen_at = none;
}

abbrev pub db : Database
db = record {
  tasks = [];
  task_seq = 0;
  jobs = ended ∷ held ∷ job 3 pending ∷ urgent ∷ [];
  job_seq = 4;
  runners = east ∷ [];
  runner_seq = 1;
  chunks = [];
}

-- the header of the runner's requests
abbrev pub header : Option Text
header = some (codes "Bearer secret")

-- the file that the runner pushes as "log.txt"
abbrev pub log_file : FilePath
log_file = codes "srv" ∷ codes "jobs" ∷ codes "2" ∷ codes "files" ∷ codes "log.txt" ∷ []

abbrev pub disk : Disk
disk = (record { path = log_file; bytes = 1 ∷ 2 ∷ [] }) ∷ []

abbrev pub server : Server
server = record { db = db; zips = []; disk = disk; sent = [] }

-- the test of `raise_for_status`
abbrev pub is_success : ℕ → Bool
is_success status_code = leb 200 status_code && ltb status_code 300
