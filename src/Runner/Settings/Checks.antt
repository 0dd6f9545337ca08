-- ===== src/Runner/Settings/Checks.antt =====
use crate_probe.Prelude.{
  String, Option, ℤ, ◌≡◌, some, ◌≢◌, int_leb, pos, coalesce, true, arith, ◌⊎◌, false, inl, ap, inr,
  sym, eq_iff, refl, none,
}
use crate_probe.TaskSpec.TomlValue.{Float}
use crate_probe.Runner.Settings.{
  from_env, required, RunnerConfig, ok, with_jobs, Loaded, is_missing, int_of, ConfigError, error,
}

-- backend/runner/config.py, `from_env`: what is checked of the settings.

Loaded-cases :
    {A : Type 0} (r : Loaded A) → ((a : A) × (r ≡ ok a)) ⊎ ((e : ConfigError) × (r ≡ error e))
Loaded-cases (ok a) = inl (a, refl)
Loaded-cases (error e) = inr (e, refl)

given :
    (value : Option String) (s : String)
    → s ≡ coalesce value ""
    → is_missing value ≡ false
    → (value ≡ some s) × (s ≢ "")
given none s e h = absurd (cc)
given (some v) s e h = (ap some (sym e), λ empty. ground (arith, eq_iff v ""))

module _ (environ : String → Option String) (parse_float : String → Option Float)
    (parse_int : String → Option ℤ) where
  with_jobs-fields :
      (n : ℤ) (c : RunnerConfig)
      → with_jobs environ parse_float parse_int n ≡ ok c
      → (c.max_jobs ≡ n)
        × (c.server_url ≡ coalesce (environ "RUNNER_SERVER_URL") "")
        × (c.runner_id ≡ coalesce (environ "RUNNER_ID") "")
        × (c.runner_token ≡ coalesce (environ "RUNNER_TOKEN") "")
  unfolding with_jobs
  with_jobs-fields n c e = ground arith

  required-set :
      required environ parse_float parse_int ≡ ok tt
      → (is_missing (environ "RUNNER_SERVER_URL") ≡ false)
        × (is_missing (environ "RUNNER_ID") ≡ false)
        × (is_missing (environ "RUNNER_TOKEN") ≡ false)
  unfolding required
  required-set e = ground arith

  steps :
      (c : RunnerConfig)
      → from_env environ parse_float parse_int ≡ ok c
      → (n : ℤ) × (required environ parse_float parse_int ≡ ok tt)
        × (int_leb (pos 1) n ≡ true)
        × (with_jobs environ parse_float parse_int n ≡ ok c)
  unfolding from_env
  steps c e = elim (Loaded-cases (int_of environ parse_float parse_int "RUNNER_MAX_JOBS" "3")) [
    | inl (n, r) ↦ (n, ground arith, ground arith, ground arith)
    | inr (x, r) ↦ absurd (ground arith)
  ]

  -- The settings that are accepted have a server, an id and a token that are not empty, and allow at least
  -- one job.
  pub from_env-checked :
      (c : RunnerConfig)
      → from_env environ parse_float parse_int ≡ ok c
      → (environ "RUNNER_SERVER_URL" ≡ some c.server_url)
        × (environ "RUNNER_ID" ≡ some c.runner_id)
        × (environ "RUNNER_TOKEN" ≡ some c.runner_token)
        × (c.server_url ≢ "")
        × (c.runner_id ≢ "")
        × (c.runner_token ≢ "")
        × (int_leb (pos 1) c.max_jobs ≡ true)
  unfolding from_env required
  from_env-checked c e =
      let (n, set_, jobs, rest) = steps c e in
      let (same, url, id, token) = with_jobs-fields n c rest in
      let (url_set, id_set, token_set) = required-set set_ in
      let a = given (environ "RUNNER_SERVER_URL") c.server_url url url_set in
      let b = given (environ "RUNNER_ID") c.runner_id id id_set in
      let d = given (environ "RUNNER_TOKEN") c.runner_token token token_set in
      (a.0, b.0, d.0, a.1, b.1, d.1, rw same jobs)
