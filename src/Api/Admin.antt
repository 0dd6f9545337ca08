-- ===== src/Api/Admin.antt =====
-- backend/app/main.py: the endpoints that administer runners, and a runner's health.
use crate_probe.Prelude.{ℕ, ◌+◌, Bool, not, Option, none, some, String, if◌then◌else◌, is_some, ltb}
use crate_probe.FilePath.{Text}
use crate_probe.Database.Types.{RunnerRecord, Database, DbResult, done, raised, seconds}
use crate_probe.Database.Runners.{
  create_runner, get_runner_by_runner_id, disable_runner, enable_runner, delete_runner,
}
use crate_probe.Api.Types.{Env, Server, Answer, ok, http_error}
use crate_probe.Api.Auth.{require_admin_token}

abbrev pub created : Server → DbResult RunnerRecord × Database → Answer RunnerRecord
created s (raised e, db') = (http_error 500, record s { db = db' })
created s (done runner, db') = (ok runner, record s { db = db' })

-- `token` and `salt` are the two random values; the runner is told the token, the salt is stored
-- encoded
unfoldable pub create_runner_endpoint :
    Env → ℕ → Text → String → String → Option String → String → Server → Answer RunnerRecord
create_runner_endpoint env now token salt encoded_salt admin_token runner_id s =
    let fresh =
      created s (create_runner now runner_id (env.hash_token token salt) encoded_salt s.db) in
    if not (require_admin_token env admin_token)
    then (http_error 403, s)
    else if is_some (get_runner_by_runner_id runner_id s.db)
    then (http_error 409, s)
    else fresh

unfoldable pub delete_runner_endpoint : Env → Option String → String → Server → Answer RunnerRecord
delete_runner_endpoint env admin_token runner_id s =
    let (deleted, db') = delete_runner runner_id s.db in
    if not (require_admin_token env admin_token)
    then (http_error 403, s)
    else elim (get_runner_by_runner_id runner_id s.db) [
      | none ↦ (http_error 404, s)
      | some runner ↦
          if deleted
          then (ok runner, record s { db = db' })
          else (http_error 404, record s { db = db' })
    ]

-- the common part of the two switches: the runner is read again after the update
abbrev pub switched : String → Server → Bool × Database → Answer RunnerRecord
switched runner_id s (found, db') = elim (get_runner_by_runner_id runner_id db') [
  | none ↦ (http_error 404, record s { db = db' })
  | some runner ↦ (ok runner, record s { db = db' })
]

unfoldable pub disable_runner_endpoint : Env → Option String → String → Server → Answer RunnerRecord
disable_runner_endpoint env admin_token runner_id s =
    let answer = switched runner_id s (disable_runner runner_id s.db) in
    if not (require_admin_token env admin_token)
    then (http_error 403, s)
    else if is_some (get_runner_by_runner_id runner_id s.db)
    then answer
    else (http_error 404, s)

unfoldable pub enable_runner_endpoint : Env → Option String → String → Server → Answer RunnerRecord
enable_runner_endpoint env admin_token runner_id s =
    let answer = switched runner_id s (enable_runner runner_id s.db) in
    if not (require_admin_token env admin_token)
    then (http_error 403, s)
    else if is_some (get_runner_by_runner_id runner_id s.db)
    then answer
    else (http_error 404, s)

pub data Health : Type 0 where
  online offline disabled : Health

-- `(now - last_seen_at).total_seconds() > runner_offline_seconds`
unfoldable pub health_status : Env → ℕ → RunnerRecord → Health
health_status env now runner = if not runner.enabled then disabled else elim runner.last_seen_at [
  | none ↦ offline
  | some t ↦ if ltb (t + seconds env.config.runner_offline_seconds) now then offline else online
]
