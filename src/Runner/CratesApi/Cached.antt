-- ===== src/Runner/CratesApi/Cached.antt =====
-- backend/runner/crates_api.py, `_request`: what is kept, and how often crates.io is asked.
use crate_probe.Prelude.{
  ℕ, zero, suc, ◌*◌, Bool, true, Option, ◌≡◌, ◌⊎◌, inl, inr, arith, ◌==◌, if◌then◌else◌,
  Option-cases, Bool-cases, ltb, leb, min, coalesce, List, All, none, some, ◌∷◌, [], ◌≢◌, ◌<◌, ◌+◌,
  refl, ap, sym, ◌∙◌,
}
use crate_probe.Runner.{HttpResult, body}
use crate_probe.Runner.CratesApi.{
  bad_status, http_failure, no_failure, Response, got, attempts_loop, request, attempts, result_of,
  remember, max_retries, Outcome, raised_at_once, gave_up, Failure,
}
use crate_probe.FilePath.{Text, codes}
use crate_probe.Runner.Cache.{TtlCache, get, Entry, set, at_key, key_of}
use crate_probe.Table.{find}
use crate_probe.Table.Rows.{All-delete}
use crate_probe.FilePath.Prefix.{text_eq_refl}

module _ {S : Type 0} (is_success : ℕ → Bool) (send : S → Option Response × S) (sleep : ℕ → S → S)
    (acquire : S → S) where
  -- A response that a loop of attempts returns is a success, or says that there is no such crate.
  attempts_loop-got :
      (left backoff : ℕ) (last_error : Failure) (s : S) (r : Response)
      → (attempts_loop is_success send sleep left backoff last_error s).0 ≡ got r
      → (r.status_code ≡ 404) ⊎ (is_success r.status_code ≡ true)
  unfolding attempts_loop
  attempts_loop-got zero backoff last_error s r e = absurd (cc)
  attempts_loop-got (suc left) backoff last_error s r e = elim (Option-cases (send s).0) [
    | inl none_ ↦
        attempts_loop-got left (if ltb 0 left then backoff * 2 else backoff) http_failure
          (if ltb 0 left then sleep (min backoff 60) (send s).1 else (send s).1) r (ground arith)
    | inr (x, here) ↦ elim (Bool-cases (x.status_code == 429)) [
      | inl limited ↦
          attempts_loop-got left (if ltb 0 left then backoff * 2 else backoff)
            (if ltb 0 left then last_error else bad_status 429)
            (if ltb 0 left
              then sleep (coalesce x.retry_after (min backoff 60)) (send s).1
              else (send s).1)
            r (ground arith)
      | inr other ↦ elim (Bool-cases (x.status_code == 404)) [
        | inl missing ↦ inl (ground arith)
        | inr there ↦ elim (Bool-cases (is_success x.status_code)) [
          | inl good ↦ inr (ground arith)
          | inr bad ↦ elim (Bool-cases (leb 500 x.status_code)) [
            | inl failed ↦
                attempts_loop-got left (if ltb 0 left then backoff * 2 else backoff)
                  (bad_status x.status_code)
                  (if ltb 0 left then sleep (min backoff 60) (send s).1 else (send s).1) r
                  (ground arith)
            | inr refused ↦ absurd (ground arith)
          ]
        ]
      ]
    ]
  ]

  -- The key of a request.
  abbrev pub url_key : Text → List Text
  url_key url = codes "api" ∷ url ∷ []

  -- Every response that is kept is a success.
  abbrev pub AllGood : TtlCache Response → Type 0
  AllGood cache = All (λ (e : Entry Response). is_success e.value.status_code ≡ true) cache.store

  request-missed :
      (now stored : ℕ) (url : Text) (cache : TtlCache Response) (s : S)
      → (get now (url_key url) cache).0 ≡ none
      → request is_success send sleep acquire now stored url cache s ≡ (
          let (outcome, s') = attempts is_success send sleep (acquire s) in
          (
            result_of outcome,
            (remember stored (url_key url) outcome (get now (url_key url) cache).1, s'),
          ))
  unfolding request
  request-missed now stored url cache s miss = rw (miss, request) refl

  request-kept :
      (now stored : ℕ) (url : Text) (cache : TtlCache Response) (s : S) (r : Response)
      → (get now (url_key url) cache).0 ≡ some r
      → request is_success send sleep acquire now stored url cache s
        ≡ (body r, ((get now (url_key url) cache).1, s))
  unfolding request
  request-kept now stored url cache s r hit = rw (hit, request) refl

  attempts-got :
      (s : S) (r : Response)
      → (attempts is_success send sleep s).0 ≡ got r
      → (r.status_code ≡ 404) ⊎ (is_success r.status_code ≡ true)
  unfolding attempts
  attempts-got s r e = attempts_loop-got max_retries 1 no_failure s r e

  remember-AllGood :
      (now : ℕ) (key : List Text) (outcome : Outcome) (cache : TtlCache Response)
      → ((r : Response)
          → outcome ≡ got r
          → (r.status_code ≡ 404) ⊎ (is_success r.status_code ≡ true))
      → AllGood cache
      → AllGood (remember now key outcome cache)
  unfolding set
  remember-AllGood now key (got r) cache good h = elim (Bool-cases (r.status_code == 404)) [
    | inl missing ↦ rw missing h
    | inr there ↦ rw there (elim (good r refl) [
      | inl no_crate ↦ absurd (ground arith)
      | inr ok ↦ (ok, All-delete _ (at_key (key_of key)) cache.store h)
    ])
  ]
  remember-AllGood now key (raised_at_once e) cache good h = h
  remember-AllGood now key (gave_up e) cache good h = h

  get-AllGood :
      (now : ℕ) (key : List Text) (cache : TtlCache Response)
      → AllGood cache
      → AllGood (get now key cache).1
  unfolding get
  get-AllGood now key cache h = elim (Option-cases (find (at_key (key_of key)) cache.store)) [
    | inl none_ ↦ rw (none_, get) h
    | inr (e, found) ↦ elim (Bool-cases (leb e.expires_at now)) [
      | inl over ↦ rw (found, get) (rw over (All-delete _ (at_key (key_of key)) cache.store h))
      | inr fresh ↦ rw (found, get) (rw fresh h)
    ]
  ]

  -- A request keeps only responses that are successes: no answer that a crate does not exist, and no
  -- error, is kept for later requests.
  pub request-AllGood :
      (now stored : ℕ) (url : Text) (cache : TtlCache Response) (s : S)
      → AllGood cache
      → AllGood (request is_success send sleep acquire now stored url cache s).1.0
  request-AllGood now stored url cache s h = elim (Option-cases (get now (url_key url) cache).0) [
    | inr (r, hit) ↦
        rw (request-kept now stored url cache s r hit) (get-AllGood now (url_key url) cache h)
    | inl miss ↦ rw (request-missed now stored url cache s miss) (
        remember-AllGood stored (url_key url) (attempts is_success send sleep (acquire s)).0
          (get now (url_key url) cache).1 (attempts-got (acquire s))
          (get-AllGood now (url_key url) cache h))
  ]

  get-set :
      (t later : ℕ) (v : Response) (parts : List Text) (cache : TtlCache Response)
      → later < t + cache.ttl
      → get later parts (set t v parts cache) ≡ (some v, set t v parts cache)
  unfolding get set
  get-set t later v parts cache h = ground (arith, text_eq_refl (key_of parts))

  get-ttl :
      (now : ℕ) (parts : List Text) (cache : TtlCache Response)
      → (get now parts cache).1.ttl ≡ cache.ttl
  unfolding get
  get-ttl now parts cache = ground arith

  result_of-body : (outcome : Outcome) (r : Response) → result_of outcome ≡ body r → outcome ≡ got r
  result_of-body (got x) r e = ground arith
  result_of-body (raised_at_once (bad_status c)) r e = absurd (cc)
  result_of-body (raised_at_once http_failure) r e = absurd (cc)
  result_of-body (raised_at_once no_failure) r e = absurd (cc)
  result_of-body (gave_up (bad_status c)) r e = absurd (cc)
  result_of-body (gave_up http_failure) r e = absurd (cc)
  result_of-body (gave_up no_failure) r e = absurd (cc)

  remember-got :
      (now : ℕ) (key : List Text) (outcome : Outcome) (cache : TtlCache Response) (r : Response)
      → outcome ≡ got r
      → r.status_code ≢ 404
      → remember now key outcome cache ≡ set now r key cache
  remember-got now key outcome cache r e there = rw e (ground arith)

  -- Once crates.io has answered a request with a success, the same request is answered from the
  -- cache, without another one, until the time to live is over.
  pub request-again :
      (now stored later stored' : ℕ) (url : Text) (cache : TtlCache Response) (s : S) (r : Response)
      → (get now (url_key url) cache).0 ≡ none
      → (request is_success send sleep acquire now stored url cache s).0 ≡ body r
      → r.status_code ≢ 404
      → later < stored + cache.ttl
      → let (result, (cache', s')) = request is_success send sleep acquire now stored url cache s in
        request is_success send sleep acquire later stored' url cache' s' ≡ (body r, (cache', s'))
  request-again now stored later stored' url cache s r miss e there fresh =
      let first = request-missed now stored url cache s miss in
      let key = url_key url in
      let p = attempts is_success send sleep (acquire s) in
      let old = (get now key cache).1 in
      let kept : remember stored key p.0 old ≡ set stored r key old =
        remember-got stored key p.0 old r
          (result_of-body p.0 r
            (ap (λ (a : HttpResult Response × (TtlCache Response × S)). a.0) (sym first) ∙ e))
          there in
      let hit : get later key (set stored r key old) ≡ (some r, set stored r key old) =
        get-set stored later r key old (omega (arith, get-ttl now key cache)) in
      rw (first, kept)
        (request-kept later stored' url (set stored r key old) p.1 r
            (ap (λ (a : Option Response × TtlCache Response). a.0) hit)
          ∙ ap
              (λ (a : Option Response × TtlCache Response).
                (let out : HttpResult Response × (TtlCache Response × S) = (body r, (a.1, p.1)) in
                  out))
              hit)
