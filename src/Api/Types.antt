-- ===== src/Api/Types.antt =====
-- backend/app/main.py: what the endpoints share. A reply is a value or the status code of an
-- HTTPException; an exception that no handler catches is the status 500.
use crate_probe.Prelude.{ℕ, Option, List, String}
use crate_probe.Config.{Config}
use crate_probe.FilePath.{Text, FilePath}
use crate_probe.JobFiles.{JobFileStore, Disk}
use crate_probe.TaskSpec.{TaskSpec}
use crate_probe.TaskSpec.Regex.{Numbers}
use crate_probe.TaskStore.{Zips}
use crate_probe.Database.Types.{Database}

pub data Reply (A : Type 0) : Type 0 where
  ok : A → Reply A
  http_error : ℕ → Reply A

-- a message of the WebSocket manager: to the watchers of a job, or to the dashboards
pub data Message : Type 0 where
  job_update dashboard_update dashboard_completed dashboard_created : ℕ → Message

-- the state that the endpoints share: the database, the zips under tasks/, the files under jobs/, and
-- the messages sent, the latest first
pub record Server : Type 0 where
  pub db : Database
  pub zips : Zips
  pub disk : Disk
  pub sent : List Message

-- What does not change while the server runs: the settings, the job file store, and functions of
-- code that is not modelled: links on the disk, `json.dumps` of a specification's dictionary, the path
-- of a fingerprint's zip, the
-- PBKDF2 digest in base64, and the decoding of a stored salt.
pub record Env : Type 0 where
  pub config : Config
  pub store : JobFileStore
  pub resolve : FilePath → FilePath
  pub numbers : Numbers
  pub dumps : TaskSpec → String
  pub zip_path : String → String
  pub hash_token : Text → String → String
  pub decode_salt : String → Option String

-- An endpoint's reply and the state after it.
abbrev pub Answer : Type 0 → Type 0
Answer A = Reply A × Server
