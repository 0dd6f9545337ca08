-- ===== src/Runner/RateLimiter/Bound.antt =====
-- backend/runner/rate_limiter.py, `acquire`: how many tokens are handed out.
use crate_probe.Prelude.{
  ℕ, suc, ◌+◌, ◌-◌, ◌*◌, ◌≤◌, [], ◌∷◌, true, false, List, ◌≡◌, arith, refl, ℤ, pos, int_ltb,
  Bool-cases, inl, inr, length, ap, min, subst, ◌∙◌,
}
use crate_probe.Runner.RateLimiter.{Bucket, refill, take_token, acquire, short_of, int_min}

-- `k` parts are in the bucket, no more than it holds, and it holds a token.
pub record Holds (k : ℕ) (b : Bucket) : Type 0 where
  pub level : b.tokens ≡ pos k
  pub bounded : k ≤ b.capacity
  pub room : b.token ≤ b.capacity

gained : (a b rate : ℕ) → a ≤ b → (b - a) * rate + a * rate ≡ b * rate
gained a b rate h =
    let e : (b - a) + a ≡ b = omega arith in omega (arith, ap (λ (t : ℕ). t * rate) e)

int_min-pos : (a b : ℕ) → int_min (pos a) (pos b) ≡ pos (min a b)
int_min-pos a b = ground arith

refill-Holds :
    (now k : ℕ) (b : Bucket)
    → Holds k b
    → b.last_update ≤ now
    → let k' = min b.capacity (k + (now - b.last_update) * b.rate) in
      Holds k' (refill now b) × (k' + b.last_update * b.rate ≤ k + now * b.rate)
unfolding refill
refill-Holds now k b h later = (
  record {
    level = rw h.level (int_min-pos b.capacity (k + (now - b.last_update) * b.rate));
    bounded = omega arith;
    room = h.room;
  },
  omega (arith, gained b.last_update now b.rate later),
)

take_token-Holds :
    (k : ℕ) (b : Bucket) → Holds k b → b.token ≤ k → Holds (k - b.token) (take_token b)
unfolding take_token
take_token-Holds k b h enough = record {
  level = rw h.level (ground arith);
  bounded = omega (arith, h.bounded);
  room = h.room;
}

-- The times of a call: it is not earlier than the last one, and its sleep is as long as the wait.
abbrev pub IsPaced : ℕ → ℕ → Bucket → Type 0
IsPaced now woken b =
    (b.last_update ≤ now) × (now ≤ woken) × ((acquire now woken b).0 ≤ (woken - now) * b.rate)

-- What a call leaves: a token was taken, and no more came in than the rate allows.
abbrev Taken : ℕ → Bucket → Bucket → Type 0
Taken k b b' =
    (k' : ℕ) × Holds k' b'
    × (k' + b.token + b.last_update * b.rate ≤ k + b'.last_update * b.rate)
    × (b'.rate ≡ b.rate)
    × (b'.token ≡ b.token)
    × (b'.capacity ≡ b.capacity)

acquire-wait :
    (now woken : ℕ) (b : Bucket)
    → int_ltb (refill now b).tokens (pos b.token) ≡ true
    → (acquire now woken b).0 ≡ short_of b.token (refill now b).tokens
unfolding acquire
acquire-wait now woken b short = ground arith

short_of-pos : (n k : ℕ) (z : ℤ) → z ≡ pos k → short_of n z ≡ n - k
short_of-pos n k z e = rw e refl

holds_token : (k n : ℕ) (z : ℤ) → z ≡ pos k → int_ltb z (pos n) ≡ false → n ≤ k
holds_token k n z e h = ground arith

acquire-Taken :
    (now woken k : ℕ) (b : Bucket)
    → Holds k b
    → IsPaced now woken b
    → Taken k b (acquire now woken b).1
unfolding acquire
acquire-Taken now woken k b h (later, wakes, slept) =
    let (h1, in1) = refill-Holds now k b h later in
    let k1 = min b.capacity (k + (now - b.last_update) * b.rate) in
    let (h2, in2) = refill-Holds woken k1 (refill now b) h1 wakes in
    let k2 = min b.capacity (k1 + (woken - now) * b.rate) in
    elim (Bool-cases (int_ltb (refill now b).tokens (pos b.token))) [
      | inr enough ↦
          let some_left : b.token ≤ k1 = holds_token k1 b.token _ h1.level enough in
          rw enough (
            k1 - b.token,
            take_token-Holds k1 (refill now b) h1 some_left,
            omega arith,
            refl,
            refl,
            refl,
          )
      | inl short ↦
          let some_left : b.token ≤ k2 =
            omega
              (arith, h.room, acquire-wait now woken b short, short_of-pos b.token k1 _ h1.level) in
          rw short (
            k2 - b.token,
            take_token-Holds k2 (refill woken (refill now b)) h2 some_left,
            omega arith,
            refl,
            refl,
            refl,
          )
    ]

-- The tokens that calls at these times hand out, one each.
unfoldable pub acquire_all : List (ℕ × ℕ) → Bucket → Bucket
acquire_all [] b = b
acquire_all ((now, woken) ∷ times) b = acquire_all times (acquire now woken b).1

abbrev pub ArePaced : List (ℕ × ℕ) → Bucket → Type 0
ArePaced [] b = Unit
ArePaced ((now, woken) ∷ times) b = IsPaced now woken b × ArePaced times (acquire now woken b).1

suc_times : (n t : ℕ) → suc n * t ≡ n * t + t
suc_times n t = omega arith

acquire_all-Taken :
    (times : List (ℕ × ℕ)) (k rate token : ℕ) (b : Bucket)
    → b.rate ≡ rate
    → b.token ≡ token
    → Holds k b
    → ArePaced times b
    → length times * token + b.last_update * rate ≤ k + (acquire_all times b).last_update * rate
unfolding acquire_all
acquire_all-Taken [] k rate token b e f h p = omega arith
acquire_all-Taken ((now, woken) ∷ times) k rate token b e f h (p, ps) =
    let (k', h', took, same_rate, same_token, c) = acquire-Taken now woken k b h p in
    let b' = (acquire now woken b).1 in
    let took' : k' + token + b.last_update * rate ≤ k + b'.last_update * rate =
      subst (λ r. k' + token + b.last_update * r ≤ k + b'.last_update * r) e
        (subst (λ t. k' + t + b.last_update * b.rate ≤ k + b'.last_update * b.rate) f took) in
    let rest = acquire_all-Taken times k' rate token b' (same_rate ∙ e) (same_token ∙ f) h' ps in
    omega (arith, rest, took', suc_times (length times) token)

acquire-last :
    (now woken : ℕ) (b : Bucket)
    → b.last_update ≤ now
    → now ≤ woken
    → b.last_update ≤ (acquire now woken b).1.last_update
unfolding acquire refill take_token
acquire-last now woken b h w = ground arith

acquire_all-last :
    (times : List (ℕ × ℕ)) (b : Bucket)
    → ArePaced times b
    → b.last_update ≤ (acquire_all times b).last_update
unfolding acquire_all
acquire_all-last [] b p = omega arith
acquire_all-last ((now, woken) ∷ times) b (p, ps) =
    omega
      (arith, acquire-last now woken b p.0 p.1, acquire_all-last times (acquire now woken b).1 ps)

-- However often and whenever tokens are asked for, the calls that have returned by some time got no more
-- tokens than a full bucket holds and the rate brings in from the last update on. The bucket
-- has room for a token, and the sleeps last as long as they are asked to.
pub acquire_all-le :
    (times : List (ℕ × ℕ)) (k : ℕ) (b : Bucket)
    → Holds k b
    → ArePaced times b
    → length times * b.token
      ≤ b.capacity + ((acquire_all times b).last_update - b.last_update) * b.rate
acquire_all-le times k b h p = omega (
  arith,
  h.bounded,
  acquire_all-Taken times k b.rate b.token b refl refl h p,
  gained b.last_update (acquire_all times b).last_update b.rate (acquire_all-last times b p),
)
