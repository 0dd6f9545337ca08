-- ===== src/Runner/RateLimiter.antt =====
-- backend/runner/rate_limiter.py, `AsyncTokenBucket`. A time is a number of clock ticks. Tokens are counted
-- in parts of a token, `token` of which make one, such that `rate` parts come in at each tick; floats are
-- taken to be exact.
pub mod Bound
use crate_probe.Prelude.{
  ℕ, suc, ◌+◌, ◌-◌, ◌*◌, Bool, Option, none, some, if◌then◌else◌, leb, ltb, ℤ, pos, negsuc, int_leb,
  int_ltb, coalesce,
}

pub record Bucket : Type 0 where
  pub token : ℕ
  pub rate : ℕ
  pub capacity : ℕ
  pub tokens : ℤ
  pub last_update : ℕ

-- `z + n` and `z - n`
abbrev pub int_plus : ℤ → ℕ → ℤ
int_plus (pos a) n = pos (a + n)
int_plus (negsuc a) n = if ltb a n then pos (n - suc a) else negsuc (a - n)

abbrev pub int_minus : ℤ → ℕ → ℤ
int_minus (pos a) n = if leb n a then pos (a - n) else negsuc (n - suc a)
int_minus (negsuc a) n = negsuc (a + n)

abbrev pub int_min : ℤ → ℤ → ℤ
int_min a b = if int_leb a b then a else b

-- what `z` lacks to `n`
abbrev pub short_of : ℕ → ℤ → ℕ
short_of n (pos a) = n - a
short_of n (negsuc a) = n + suc a

-- `__init__`; the default capacity is what comes in within a second, `ticks` of the clock
unfoldable pub new_bucket : ℕ → ℕ → ℕ → Option ℕ → ℕ → Bucket
new_bucket token ticks rate capacity now = record {
  token = token;
  rate = rate;
  capacity = coalesce capacity (rate * ticks);
  tokens = pos (coalesce capacity (rate * ticks));
  last_update = now;
}

unfoldable pub refill : ℕ → Bucket → Bucket
refill now b = record b {
  tokens = int_min (pos b.capacity) (int_plus b.tokens ((now - b.last_update) * b.rate));
  last_update = now;
}

unfoldable pub take_token : Bucket → Bucket
take_token b = record b { tokens = int_minus b.tokens b.token }

-- `acquire` at the time `now`; `woken` is the time after the sleep, if there is one. The first result is
-- the wait by the parts that come in meanwhile, so that it lasts as many ticks over `rate`.
unfoldable pub acquire : ℕ → ℕ → Bucket → ℕ × Bucket
unfolding refill take_token
acquire now woken b =
    let full = refill now b in
    if int_ltb full.tokens (pos b.token)
    then (short_of b.token full.tokens, take_token (refill woken full))
    else (0, take_token full)
