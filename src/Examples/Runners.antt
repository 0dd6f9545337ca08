-- ===== src/Examples/Runners.antt =====
-- The caches and the capacity of a runner.
use crate_probe.FilePath.{Text, codes}
use crate_probe.Database.Runners.{get_runner_by_runner_id}
use crate_probe.Api.Auth.{
  require_runner_auth, verify_runner, verify_token, extract_bearer_token, strip, lstrip, rstrip,
  split_once,
}
use crate_probe.Api.Runner.{claim_and_clear}
use crate_probe.TaskStore.{Upload}
use crate_probe.Runner.{body}
use crate_probe.Runner.TaskCache.{ensure, FetchError, ok, error, Dirs}
use crate_probe.Runner.TaskCache.Genuine.{IsGenuine, Provides, ensure-IsGenuine}
use crate_probe.Runner.Worker.{
  Worker, job, poll_and_schedule_one, drop_done, has_capacity, after_claim, idle,
}
use crate_probe.Runner.Worker.Capacity.{
  poll, ends, happen, start, executing-happen, claimed_of, claim, poll-claims,
}
use crate_probe.Runner.Cache.{TtlCache, get, key_of}
use crate_probe.Runner.Cache.History.{Call, gets, sets, last_set, run, get-run}
use crate_probe.Runner.RateLimiter.{Bucket, acquire, refill, take_token}
use crate_probe.Runner.RateLimiter.Bound.{ArePaced, acquire_all, acquire_all-le}
use crate_probe.Runner.CratesApi.{Response, request, attempts, attempts_loop}
use crate_probe.Runner.CratesApi.Cached.{request-again}
use crate_probe.Examples.{env, server, db, header, is_success}
use crate_probe.Prelude.{
  ℕ, zero, suc, ◌+◌, ◌-◌, ◌*◌, ◌≡◌, ◌≤◌, List, ◌∷◌, [], pos, refl, true, false, Option, some, none,
  arith, ◌⊎◌, length, if◌then◌else◌,
}

abbrev zip : Upload
zip = record { size = 9; sha256 = "abc"; archive = some [] }

abbrev no_dirs : Dirs
no_dirs task_id = none

ensure-IsGenuine_example :
    let (result, dirs') = ensure (λ dirs. dirs) (body zip) true 1 "abc" no_dirs in
    ((k : ℕ) → IsGenuine (dirs' k))
    × (((result ≡ ok tt) × Provides 1 "abc" dirs')
        ⊎ ((e : FetchError) × (result ≡ error e) × (dirs' ≡ no_dirs)))
ensure-IsGenuine_example =
    ensure-IsGenuine (λ dirs. dirs) (body zip) true 1 "abc" no_dirs (λ k. tt) (λ k. tt)

abbrev worker : Worker
worker = record {
  max_jobs = 2;
  inflight =
      (record { task = 1; job_id = 1; is_done = true })
      ∷ (record { task = 0; job_id = 2; is_done = false })
      ∷ [];
  is_executing = true;
  next_task = 2;
}

executing-happen_example :
    length
      (happen
        (poll (job 3) ∷ poll (job 3) ∷ poll (job 4) ∷ ends 0 ∷ poll (job 4) ∷ [])
        (start 2)).executing
    ≤ 2
executing-happen_example =
    executing-happen (poll (job 3) ∷ poll (job 3) ∷ poll (job 4) ∷ ends 0 ∷ poll (job 4) ∷ []) 2

east_authenticated : require_runner_auth env "east" header db ≡ true
unfolding require_runner_auth verify_runner verify_token extract_bearer_token strip lstrip rstrip
    split_once get_runner_by_runner_id
east_authenticated = refl

poll-claims_example :
    let free = drop_done worker in
    let (reply, s') = claim_and_clear env 500 "token'" "east" server in
    poll_and_schedule_one (claim env 500 "token'" "east" header) worker server ≡ (
      if has_capacity free
      then (after_claim (claimed_of reply) free, s')
      else ((idle, free), server))
poll-claims_example =
    poll-claims env 500 "token'" "east" header worker server east_authenticated (omega arith)

-- the latest call stands first
abbrev calls : List (Call ℕ)
calls =
    gets 70 (codes "b" ∷ [])
    ∷ sets 60 8 (codes "b" ∷ [])
    ∷ sets 50 7 (codes "a" ∷ [])
    ∷ sets 10 6 (codes "a" ∷ [])
    ∷ []

get-run_example :
    (get 80 (codes "a" ∷ []) (run 40 calls)).0 ≡ last_set 40 80 (key_of (codes "a" ∷ [])) calls
get-run_example =
    get-run 40 80 (codes "a" ∷ []) calls
      (omega arith, (omega arith, (omega arith, (omega arith, tt))))

-- three parts make a token, and one comes in at each tick
abbrev bucket : Bucket
bucket = record { token = 3; rate = 1; capacity = 6; tokens = pos 4; last_update = 100 }

paced : ArePaced ((101, 101) ∷ (102, 103) ∷ []) bucket
unfolding acquire refill take_token
paced = ((omega arith, omega arith, omega arith), ((omega arith, omega arith, omega arith), tt))

acquire_all-le_example :
    2 * 3 ≤ 6 + ((acquire_all ((101, 101) ∷ (102, 103) ∷ []) bucket).last_update - 100) * 1
acquire_all-le_example =
    acquire_all-le ((101, 101) ∷ (102, 103) ∷ []) 4 bucket
      (record { level = refl; bounded = omega arith; room = omega arith }) paced

abbrev answer : Response
answer = record {
  status_code = 200;
  retry_after = none;
  max_version = "1.0.0";
  versions = "1.0.0" ∷ [];
  content = [];
}

-- crates.io, which fails a number of times
abbrev crates_io : ℕ → Option Response × ℕ
crates_io zero = (some answer, zero)
crates_io (suc n) = (none, n)

abbrev empty_cache : TtlCache Response
empty_cache = record { ttl = 300; store = [] }

abbrev serde : Text
serde = codes "crates/serde"

answered_once :
    (request is_success crates_io (λ t s. s) (λ s. s) 1000 1001 serde empty_cache 1).0 ≡ body answer
unfolding request attempts attempts_loop get
answered_once = refl

first_missed : (get 1000 (codes "api" ∷ serde ∷ []) empty_cache).0 ≡ none
unfolding get
first_missed = refl

request-again_example :
    let (result, (cache', s')) =
      request is_success crates_io (λ t s. s) (λ s. s) 1000 1001 serde empty_cache 1 in
    request is_success crates_io (λ t s. s) (λ s. s) 1200 1201 serde cache' s'
    ≡ (body answer, (cache', s'))
request-again_example =
    request-again is_success crates_io (λ t s. s) (λ s. s) 1000 1001 1200 1201 serde empty_cache 1
      answer first_missed answered_once (λ e. omega arith) (omega arith)
