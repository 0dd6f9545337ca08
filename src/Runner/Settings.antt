-- ===== src/Runner/Settings.antt =====
-- backend/runner/config.py, `RunnerConfig.from_env`: the settings of a runner. `environ` is os.environ;
-- `parse_float` and `parse_int` are Python's `float` and `int` of a text.
pub mod Checks
use crate_probe.Prelude.{
  ℕ, zero, suc, [], ◌∷◌, ◌++◌, Bool, true, false, ◌||◌, Option, none, some, List, String, str_eq,
  if◌then◌else◌, ℤ, pos, int_ltb, coalesce,
}
use crate_probe.TaskSpec.TomlValue.{Float}

pub record RunnerConfig : Type 0 where
  pub server_url : String
  pub runner_id : String
  pub runner_token : String
  pub poll_interval_seconds : Float
  pub metrics_interval_seconds : Float
  pub log_flush_interval_seconds : Float
  pub log_sync_interval_seconds : Float
  pub request_timeout_seconds : Float
  pub state_sync_interval_seconds : Float
  pub max_jobs : ℤ
  pub docker_pull_policy : String
  pub workspace_dir : String
  pub crates_io_user_agent : String
  pub crates_io_rate_limit_rps : Float
  pub crates_io_cache_ttl_seconds : Float
  pub crates_io_max_concurrent_downloads : ℤ

-- the reasons of a ValueError, with the names of the variables
pub data ConfigError : Type 0 where
  missing : List String → ConfigError
  not_a_number not_an_integer : String → ConfigError
  no_jobs : ConfigError

pub data Loaded (A : Type 0) : Type 0 where
  ok : A → Loaded A
  error : ConfigError → Loaded A

infixl 5 ◌>>=◌ ◌>>◌
abbrev pub ◌>>=◌ : {A B : Type 0} → Loaded A → (A → Loaded B) → Loaded B
ok a >>= f = f a
error e >>= f = error e

abbrev pub ◌>>◌ : {B : Type 0} → Loaded (Unit {0}) → Loaded B → Loaded B
m >> k = m >>= λ _. k

-- `not value`: the variable is not set, or is empty
abbrev pub is_missing : Option String → Bool
is_missing none = true
is_missing (some value) = str_eq value ""

abbrev pub noted : Bool → String → List String
noted absent name = if absent then name ∷ [] else []

abbrev pub require_all : List String → Loaded (Unit {0})
require_all [] = ok tt
require_all (name ∷ names) = error (missing (name ∷ names))

module _ (environ : String → Option String) (parse_float : String → Option Float)
    (parse_int : String → Option ℤ) where
  -- `_float` and `_int`, of the variable or of its default
  unfoldable pub float_of : String → String → Loaded Float
  float_of name default = elim (parse_float (coalesce (environ name) default)) [
    | none ↦ error (not_a_number name)
    | some x ↦ ok x
  ]

  unfoldable pub int_of : String → String → Loaded ℤ
  int_of name default = elim (parse_int (coalesce (environ name) default)) [
    | none ↦ error (not_an_integer name)
    | some n ↦ ok n
  ]

  abbrev pub at_least_one : ℤ → Loaded (Unit {0})
  at_least_one n = if int_ltb n (pos 1) then error no_jobs else ok tt

  unfoldable pub required : Loaded (Unit {0})
  required = require_all (
      noted (is_missing (environ "RUNNER_SERVER_URL")) "RUNNER_SERVER_URL"
      ++ noted (is_missing (environ "RUNNER_ID")) "RUNNER_ID"
      ++ noted (is_missing (environ "RUNNER_TOKEN")) "RUNNER_TOKEN")

  -- the settings once the number of jobs was read; the number of downloads defaults to its text
  unfoldable pub with_jobs : ℤ → Loaded RunnerConfig
  unfolding float_of int_of
  with_jobs max_jobs = do
    poll ← float_of "RUNNER_POLL_INTERVAL_SECONDS" "3"
    metrics ← float_of "RUNNER_METRICS_INTERVAL_SECONDS" "10"
    log_flush ← float_of "RUNNER_LOG_FLUSH_INTERVAL_SECONDS" "3"
    log_sync ← float_of "RUNNER_LOG_SYNC_INTERVAL_SECONDS" "2"
    request_timeout ← float_of "RUNNER_REQUEST_TIMEOUT_SECONDS" "10"
    state_sync ← float_of "RUNNER_STATE_SYNC_INTERVAL_SECONDS" "30"
    rate_limit ← float_of "CRATES_IO_RATE_LIMIT_RPS" "1.0"
    cache_ttl ← float_of "CRATES_IO_CACHE_TTL_SECONDS" "300.0"
    downloads ←
        int_of "CRATES_IO_MAX_CONCURRENT_DOWNLOADS" (coalesce (environ "RUNNER_MAX_JOBS") "3")
    ok (record {
      server_url = coalesce (environ "RUNNER_SERVER_URL") "";
      runner_id = coalesce (environ "RUNNER_ID") "";
      runner_token = coalesce (environ "RUNNER_TOKEN") "";
      poll_interval_seconds = poll;
      metrics_interval_seconds = metrics;
      log_flush_interval_seconds = log_flush;
      log_sync_interval_seconds = log_sync;
      request_timeout_seconds = request_timeout;
      state_sync_interval_seconds = state_sync;
      max_jobs = max_jobs;
      docker_pull_policy = coalesce (environ "RUNNER_DOCKER_PULL_POLICY") "if-not-present";
      workspace_dir = coalesce (environ "RUNNER_WORKSPACE_DIR") "/workspace";
      crates_io_user_agent = coalesce (environ "CRATES_IO_USER_AGENT") "crateprobe-runner";
      crates_io_rate_limit_rps = rate_limit;
      crates_io_cache_ttl_seconds = cache_ttl;
      crates_io_max_concurrent_downloads = downloads;
    })

  unfoldable pub from_env : Loaded RunnerConfig
  unfolding required int_of with_jobs
  from_env = do
    required
    max_jobs ← int_of "RUNNER_MAX_JOBS" "3"
    at_least_one max_jobs
    with_jobs max_jobs
