-- ===== src/Api/Auth.antt =====
-- backend/app/main.py: who may call an endpoint. Header texts are code points below 256.
use crate_probe.Prelude.{
  ℕ, Bool, false, not, ◌&&◌, ◌||◌, Option, none, some, [], ◌∷◌, String, str_eq, opt_str_eq,
  if◌then◌else◌, leb, ◌==◌, ◌+◌,
}
use crate_probe.FilePath.{Text, codes, text_eq}
use crate_probe.Database.Types.{JobRecord, RunnerRecord, Database}
use crate_probe.Database.Jobs.{get_job}
use crate_probe.Database.Runners.{get_runner_by_runner_id}
use crate_probe.Api.Types.{Env, Reply, ok, http_error}

-- `require_admin_token`: true is a pass, false the status 403
unfoldable pub require_admin_token : Env → Option String → Bool
require_admin_token env given =
    not (str_eq env.config.admin_token "") && opt_str_eq given env.config.admin_token

-- the characters that `str.strip` removes
abbrev is_space : ℕ → Bool
is_space c = (leb 9 c && leb c 13) || (leb 28 c && leb c 32) || c == 133 || c == 160

unfoldable pub lstrip : Text → Text
lstrip [] = []
lstrip (c ∷ cs) = let rest = lstrip cs in if is_space c then rest else c ∷ cs

unfoldable pub rstrip : Text → Text
rstrip [] = []
rstrip (c ∷ cs) = elim (rstrip cs) [ [] ↦ if is_space c then [] else c ∷ [] | d ∷ ds ↦ c ∷ d ∷ ds ]

unfoldable pub strip : Text → Text
unfolding lstrip rstrip
strip t = rstrip (lstrip t)

-- `text.split(" ", 1)`: what stands before the first space, and what stands after it
unfoldable pub split_once : Text → Text × Option Text
split_once [] = ([], none)
split_once (c ∷ cs) =
    let (before, after) = split_once cs in if c == 32 then ([], some cs) else (c ∷ before, after)

abbrev lower : Text → Text
lower [] = []
lower (c ∷ cs) = (if leb b'A' c && leb c b'Z' then c + 32 else c) ∷ lower cs

abbrev or_none : Text → Option Text
or_none [] = none
or_none (c ∷ cs) = some (c ∷ cs)

abbrev bearer : Text × Option Text → Option Text
bearer (scheme, none) = none
bearer (scheme, some rest) =
    if text_eq (lower scheme) (codes "bearer") then or_none (strip rest) else none

unfoldable pub extract_bearer_token : Option Text → Option Text
unfolding strip split_once
extract_bearer_token none = none
extract_bearer_token (some header) = bearer (split_once (strip header))

-- `verify_token` of backend/app/security.py
unfoldable pub verify_token : Env → Text → String → String → Bool
verify_token env token salt expected_hash = str_eq (env.hash_token token salt) expected_hash

unfoldable pub verify_runner : Env → RunnerRecord → Option Text → Bool
unfolding verify_token
verify_runner env runner none = false
verify_runner env runner (some token) = elim (env.decode_salt runner.token_salt) [
  | none ↦ false
  | some salt ↦ verify_token env token salt runner.token_hash
]

-- `require_runner_auth`: true is a pass, false the status 403
unfoldable pub require_runner_auth : Env → String → Option Text → Database → Bool
unfolding verify_runner
require_runner_auth env runner_id authorization db = elim (get_runner_by_runner_id runner_id db) [
  | none ↦ false
  | some runner ↦ runner.enabled && verify_runner env runner (extract_bearer_token authorization)
]

unfoldable pub holds_lease : JobRecord → String → String → Bool
holds_lease job runner_id lease_token =
    opt_str_eq job.runner_id runner_id && opt_str_eq job.lease_token lease_token

unfoldable pub require_job_lease : ℕ → String → String → Database → Reply JobRecord
unfolding holds_lease
require_job_lease job_id runner_id lease_token db = elim (get_job job_id db) [
  | none ↦ http_error 404
  | some job ↦ if holds_lease job runner_id lease_token then ok job else http_error 409
]
