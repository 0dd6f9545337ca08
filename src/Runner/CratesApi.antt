-- ===== src/Runner/CratesApi.antt =====
-- backend/runner/crates_api.py and backend/runner/crate_downloader.py: the requests to crates.io. `send`
-- is one request, with `none` for an HTTPError; `sleep` waits for so many seconds; both map the state of the world. `is_success` is the
-- test of httpx's `raise_for_status`.
pub mod Cached
use crate_probe.Prelude.{
  ℕ, zero, suc, ◌+◌, ◌*◌, [], ◌∷◌, Bool, true, false, not, Option, none, some, List, String,
  if◌then◌else◌, ◌==◌, leb, ltb, min, coalesce, str_eq, ◌||◌,
}
use crate_probe.FilePath.{Text, codes}
use crate_probe.Runner.{
  Exchange, response, request_error, HttpResult, body, status_error, network_error, exhausted,
}
use crate_probe.Runner.Cache.{TtlCache, get, set}

-- A response by what the code reads of it: its status, the number of seconds in `Retry-After` if there is
-- one, and of the JSON the latest version and the versions. Its content goes to a file.
pub record Response : Type 0 where
  pub status_code : ℕ
  pub retry_after : Option ℕ
  pub max_version : String
  pub versions : List String
  pub content : List ℕ

-- an error of an attempt: an HTTPStatusError, another HTTPError, or none so far
pub data Failure : Type 0 where
  bad_status : ℕ → Failure
  http_failure no_failure : Failure

-- how a loop of attempts ends: with a response, with an error that is raised at once, or with the last
-- error after all attempts
pub data Outcome : Type 0 where
  got : Response → Outcome
  raised_at_once gave_up : Failure → Outcome

abbrev pub max_retries : ℕ
max_retries = 3

abbrev pub error_of : Failure → HttpResult Response
error_of (bad_status status_code) = status_error status_code
error_of http_failure = network_error
error_of no_failure = exhausted

abbrev pub result_of : Outcome → HttpResult Response
result_of (got r) = body r
result_of (raised_at_once e) = error_of e
result_of (gave_up e) = error_of e

-- what goes into the cache: a response that is not a 404
abbrev pub remember : ℕ → List Text → Outcome → TtlCache Response → TtlCache Response
remember now key (got r) cache = if r.status_code == 404 then cache else set now r key cache
remember now key (raised_at_once e) cache = cache
remember now key (gave_up e) cache = cache

module _ {S : Type 0} (is_success : ℕ → Bool) (send : S → Option Response × S)
    (sleep : ℕ → S → S) where
  -- what the loop does with a response: it is returned, it is an error, or another attempt is made after a
  -- wait, with the error that is kept if no attempt is left
  unfoldable pub attempts_loop : ℕ → ℕ → Failure → S → Outcome × S
  attempts_loop zero backoff last_error s = (gave_up last_error, s)
  attempts_loop (suc left) backoff last_error s =
      let (reply, s') = send s in
      elim reply [
        | none ↦
            let again =
              attempts_loop left (if ltb 0 left then backoff * 2 else backoff) http_failure
                (if ltb 0 left then sleep (min backoff 60) s' else s') in
            again
        | some r ↦
            let limited =
              attempts_loop left (if ltb 0 left then backoff * 2 else backoff)
                (if ltb 0 left then last_error else bad_status 429)
                (if ltb 0 left then sleep (coalesce r.retry_after (min backoff 60)) s' else s') in
            let failed =
              attempts_loop left (if ltb 0 left then backoff * 2 else backoff)
                (bad_status r.status_code) (if ltb 0 left then sleep (min backoff 60) s' else s') in
            if r.status_code == 429
            then limited
            else if r.status_code == 404
            then (got r, s')
            else if is_success r.status_code
            then (got r, s')
            else if leb 500 r.status_code
            then failed
            else (raised_at_once (bad_status r.status_code), s')
      ]

  -- the loops of `_request` and `_download_with_retry`
  unfoldable pub attempts : S → Outcome × S
  unfolding attempts_loop
  attempts s = attempts_loop max_retries 1 no_failure s

  -- `_request`: at the time `now`, with what is got kept from the time `stored` on. `acquire` is the
  -- rate limiter.
  unfoldable pub request :
      (S → S) → ℕ → ℕ → Text → TtlCache Response → S → HttpResult Response × (TtlCache Response × S)
  unfolding attempts
  request acquire now stored url cache s =
      let key = codes "api" ∷ url ∷ [] in
      let (cached, cache') = get now key cache in
      elim cached [
        | some r ↦ (body r, (cache', s))
        | none ↦
            let (outcome, s') = attempts (acquire s) in
            (result_of outcome, (remember stored key outcome cache', s'))
      ]

-- what a lookup of a crate ends with
pub data Lookup (A : Type 0) : Type 0 where
  found : A → Lookup A
  crate_not_found version_not_found : Lookup A
  lookup_failed : HttpResult Response → Lookup A

-- `get_latest_version`, from the result of its request
unfoldable pub get_latest_version : HttpResult Response → Lookup String
get_latest_version (body r) = if r.status_code == 404 then crate_not_found else found r.max_version
get_latest_version e = lookup_failed e

abbrev pub mem_text : String → List String → Bool
mem_text v [] = false
mem_text v (x ∷ xs) = str_eq x v || mem_text v xs

unfoldable pub verify_version_exists : String → HttpResult Response → Lookup Bool
verify_version_exists version (body r) =
    if r.status_code == 404 then crate_not_found else found (mem_text version r.versions)
verify_version_exists version e = lookup_failed e

-- `resolve_version`
unfoldable pub resolve_version : Option String → HttpResult Response → Lookup String
unfolding get_latest_version verify_version_exists
resolve_version none reply = get_latest_version reply
resolve_version (some version) reply = elim (verify_version_exists version reply) [
  | found exists ↦ if exists then found version else version_not_found
  | crate_not_found ↦ crate_not_found
  | version_not_found ↦ version_not_found
  | lookup_failed e ↦ lookup_failed e
]

-- `_download_with_retry`: the content for the file, or an error; after the last attempt it is a RuntimeError
unfoldable pub downloaded : Outcome → Lookup (List ℕ)
downloaded (got r) = if r.status_code == 404 then version_not_found else found r.content
downloaded (raised_at_once e) = lookup_failed (error_of e)
downloaded (gave_up e) = lookup_failed exhausted
