-- ===== src/Runner/Client/Attempts.antt =====
-- backend/runner/client.py, `_request_with_retry`: how many requests it makes, and how it ends.
use crate_probe.Prelude.{
  ℕ, zero, suc, Bool, true, false, ◌≡◌, ◌⊎◌, inl, inr, ◌<◌, ◌≤◌, arith, Bool-cases, refl, ap, ◌+◌,
  ◌∙◌,
}
use crate_probe.Runner.{Exchange, response, request_error}
use crate_probe.Runner.Client.{is_server_error, settled, request_loop, request_with_retry}

-- An exchange after which another attempt is made, while one is left.
abbrev pub is_retried : {A : Type 0} → Exchange A → Bool
is_retried request_error = true
is_retried (response status_code content) = is_server_error status_code

module _ {A S : Type 0} (send : S → Exchange A × S) where
  -- The state after so many requests.
  abbrev pub after : ℕ → S → S
  after zero s = s
  after (suc n) s = after n (send s).1

  -- The first requests, so many of them, are to be retried.
  abbrev pub Retried : ℕ → S → Type 0
  Retried zero s = Unit
  Retried (suc n) s = (is_retried (send s).0 ≡ true) × Retried n (send s).1

module _ {A S : Type 0} (is_success : ℕ → Bool) (send : S → Exchange A × S) where
  request_loop-stop :
      (left : ℕ) (last_error : Bool) (s : S)
      → (is_retried (send s).0 ≡ false) ⊎ (left ≡ 0)
      → request_loop is_success send (suc left) last_error s
        ≡ (settled is_success (send s).0, (send s).1)
  unfolding request_loop
  request_loop-stop left last_error s stop = ground arith

  request_loop-again :
      (left : ℕ) (last_error : Bool) (s : S)
      → is_retried (send s).0 ≡ true
      → (b : Bool) × (request_loop is_success send (suc (suc left)) last_error s
          ≡ request_loop is_success send (suc left) b (send s).1)
  unfolding request_loop
  request_loop-again left last_error s more =
      (elim (send s).0 [ request_error ↦ true | response c a ↦ last_error ], ground arith)

  request_loop_lem :
      (left : ℕ) (last_error : Bool) (s : S)
      → (n : ℕ) × (n ≤ left)
        × Retried send n s
        × ((is_retried (send (after send n s)).0 ≡ false) ⊎ (n ≡ left))
        × (request_loop is_success send (suc left) last_error s
            ≡ (settled is_success (send (after send n s)).0, (send (after send n s)).1))
  request_loop_lem zero last_error s =
      (0, omega arith, tt, inr refl, request_loop-stop 0 last_error s (inr refl))
  request_loop_lem (suc left) last_error s = elim (Bool-cases (is_retried (send s).0)) [
    | inr stop ↦
        (0, omega arith, tt, inl stop, request_loop-stop (suc left) last_error s (inl stop))
    | inl more ↦
        let (b, e) = request_loop-again left last_error s more in
        let (n, le, retried, end, same) = request_loop_lem left b (send s).1 in
        (
          suc n,
          omega arith,
          (more, retried),
          elim end [ inl x ↦ inl x | inr y ↦ inr (ap suc y) ],
          e ∙ same,
        )
  ]

  -- With at least one attempt, a request is made once and is repeated after a RequestError or a server
  -- error, at most so many times in all; the result is what the last exchange says, which is one that
  -- is not to be retried, or the last that is allowed. The loop never runs out without a result.
  pub request_with_retry_lem :
      (max_attempts : ℕ) (s : S)
      → 0 < max_attempts
      → (n : ℕ) × (n < max_attempts)
        × Retried send n s
        × ((is_retried (send (after send n s)).0 ≡ false) ⊎ (n + 1 ≡ max_attempts))
        × (request_with_retry is_success send max_attempts s
            ≡ (settled is_success (send (after send n s)).0, (send (after send n s)).1))
  unfolding request_with_retry
  request_with_retry_lem zero s positive = absurd (omega arith)
  request_with_retry_lem (suc left) s positive =
      let (n, le, retried, end, same) = request_loop_lem left false s in
      (n, omega arith, retried, elim end [ inl x ↦ inl x | inr y ↦ inr (omega arith) ], same)
