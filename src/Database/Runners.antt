-- ===== src/Database/Runners.antt =====
-- backend/app/database.py, the runners. `runner_id` is UNIQUE.
use crate_probe.Prelude.{
  ℕ, suc, Bool, true, false, Option, none, some, List, [], ◌∷◌, ◌++◌, String, str_eq, if◌then◌else◌,
  leb, ltb, is_some,
}
use crate_probe.Table.{find, update, delete, count, order_by}
use crate_probe.Database.Types.{RunnerRecord, Database, DbResult, done, raised, integrity_error}

-- WHERE runner_id = ?
abbrev pub named : String → RunnerRecord → Bool
named runner_id r = str_eq r.runner_id runner_id

unfoldable pub create_runner :
    ℕ → String → String → String → Database → DbResult RunnerRecord × Database
create_runner now runner_id token_hash token_salt db =
    let row : RunnerRecord = record {
      id = suc db.runner_seq;
      runner_id = runner_id;
      token_hash = token_hash;
      token_salt = token_salt;
      enabled = true;
      created_at = now;
      last_seen_at = none;
    } in
    if is_some (find (named runner_id) db.runners)
    then (raised integrity_error, db)
    else (done row, record db { runners = db.runners ++ row ∷ []; runner_seq = suc db.runner_seq })

unfoldable pub get_runner_by_runner_id : String → Database → Option RunnerRecord
get_runner_by_runner_id runner_id db = find (named runner_id) db.runners

unfoldable pub list_runners : Database → List RunnerRecord
list_runners db = order_by (λ a b. leb b.created_at a.created_at) db.runners

-- the UPDATE of `disable_runner` and `enable_runner`
unfoldable pub set_enabled : Bool → String → Database → Database
set_enabled on runner_id db = record db {
  runners = update (named runner_id) (λ r. record r { enabled = on }) db.runners;
}

unfoldable pub disable_runner : String → Database → Bool × Database
unfolding set_enabled
disable_runner runner_id db =
    if is_some (find (named runner_id) db.runners)
    then (true, set_enabled false runner_id db)
    else (false, db)

unfoldable pub enable_runner : String → Database → Bool × Database
unfolding set_enabled
enable_runner runner_id db =
    if is_some (find (named runner_id) db.runners)
    then (true, set_enabled true runner_id db)
    else (false, db)

unfoldable pub delete_runner : String → Database → Bool × Database
delete_runner runner_id db = (
  ltb 0 (count (named runner_id) db.runners),
  record db { runners = delete (named runner_id) db.runners },
)

unfoldable pub touch_runner_heartbeat : ℕ → String → Database → Bool × Database
touch_runner_heartbeat now runner_id db = (
  ltb 0 (count (named runner_id) db.runners),
  record db {
    runners = update (named runner_id) (λ r. record r { last_seen_at = some now }) db.runners;
  },
)
