-- ===== src/Database/Types.antt =====
-- backend/app/database.py: the records of the four tables. Times are microseconds since a fixed
-- instant, ids are natural numbers, and a column that may be NULL is an option.
use crate_probe.Prelude.{ℕ, ◌*◌, Bool, Option, List, [], String, ℤ}
use crate_probe.Models.{TaskStatus}

-- `timedelta(seconds=n)`
unfoldable pub seconds : ℕ → ℕ
seconds n = n * 1000000

pub record TaskDefRecord : Type 0 where
  pub id : ℕ
  pub name : String
  pub desc : Option String
  pub sha256 : String
  pub zip_path : String
  pub spec : String
  pub created_at : ℕ
  pub updated_at : Option ℕ

-- `memory_used_mb` is REAL and no statement reads or writes it: its integer part.
pub record JobRecord : Type 0 where
  pub id : ℕ
  pub crate_name : String
  pub version : String
  pub task_id : ℕ
  pub task_name : String
  pub task_sha256 : String
  pub task_spec : String
  pub status : TaskStatus
  pub created_at : ℕ
  pub started_at : Option ℕ
  pub finished_at : Option ℕ
  pub pid : Option ℕ
  pub exit_code : Option ℤ
  pub error_message : Option String
  pub message : Option String
  pub memory_used_mb : Option ℤ
  pub priority : Option ℤ
  pub runner_id : Option String
  pub lease_token : Option String
  pub lease_expires_at : Option ℕ
  pub attempt : Option ℕ
  pub last_sync_seq : Option ℤ
  pub cancel_requested : Bool
  pub last_state_sync_at : Option ℕ

pub record RunnerRecord : Type 0 where
  pub id : ℕ
  pub runner_id : String
  pub token_hash : String
  pub token_salt : String
  pub enabled : Bool
  pub created_at : ℕ
  pub last_seen_at : Option ℕ

-- a row of job_file_chunk_sequences
pub record ChunkRow : Type 0 where
  pub job_id : ℕ
  pub path : String
  pub last_chunk_seq : ℤ

-- Each table in rowid order, with the last id that AUTOINCREMENT gave out.
pub record Database : Type 0 where
  pub tasks : List TaskDefRecord
  pub task_seq : ℕ
  pub jobs : List JobRecord
  pub job_seq : ℕ
  pub runners : List RunnerRecord
  pub runner_seq : ℕ
  pub chunks : List ChunkRow

-- sqlite3.IntegrityError, or the ValueError that `TaskStatus(...)` raises
pub data DbError : Type 0 where
  integrity_error value_error : DbError

-- A method that may raise.
pub data DbResult (A : Type 0) : Type 0 where
  done : A → DbResult A
  raised : DbError → DbResult A

abbrev pub empty : Database
empty = record {
  tasks = [];
  task_seq = 0;
  jobs = [];
  job_seq = 0;
  runners = [];
  runner_seq = 0;
  chunks = [];
}
