-- ===== src/Runner/Network/Once.antt =====
-- backend/runner/client.py, `_post_with_retry`: what the server makes of a request that is repeated.
use crate_probe.Prelude.{ℕ, zero, suc, [], ◌∷◌, Bool, Option, List, ◌≡◌, ◌⊎◌, inl, inr, ◌<◌}
use crate_probe.Api.Types.{Server, Answer}
use crate_probe.Runner.{body}
use crate_probe.Runner.Client.{request_with_retry, settled}
use crate_probe.Runner.Client.Attempts.{after, request_with_retry_lem}
use crate_probe.Runner.Network.{Fate, lost, reply_lost, delivered, Network, send, transmit}

-- A request that takes a state before it to one after it, and leaves a state after it where it is.
module _ {A : Type 0} (serve : ℕ → Server → Answer A) (Before After : Server → Type 0)
    (serves : (now : ℕ) (s : Server) → Before s → After (serve now s).1)
    (repeats : (now : ℕ) (s : Server) → After s → After (serve now s).1) where
  Either-serve : (now : ℕ) (s : Server) → Before s ⊎ After s → After (serve now s).1
  Either-serve now s (inl b) = serves now s b
  Either-serve now s (inr a) = repeats now s a

  Either-transmit :
      (fates : List Fate) (s : Server)
      → Before s ⊎ After s
      → Before (transmit serve s fates).1.server ⊎ After (transmit serve s fates).1.server
  Either-transmit [] s h = h
  Either-transmit (lost ∷ fates) s h = h
  Either-transmit (reply_lost now ∷ fates) s h = inr (Either-serve now s h)
  Either-transmit (delivered now ∷ fates) s h = inr (Either-serve now s h)

  After-answered :
      (is_success : ℕ → Bool) (fates : List Fate) (s : Server) (a : Option A)
      → Before s ⊎ After s
      → settled is_success (transmit serve s fates).0 ≡ body a
      → After (transmit serve s fates).1.server
  After-answered is_success [] s a h e = absurd (cc)
  After-answered is_success (lost ∷ fates) s a h e = absurd (cc)
  After-answered is_success (reply_lost now ∷ fates) s a h e = absurd (cc)
  After-answered is_success (delivered now ∷ fates) s a h e = Either-serve now s h

  Either-after :
      (k : ℕ) (n : Network)
      → Before n.server ⊎ After n.server
      → Before (after (send serve) k n).server ⊎ After (after (send serve) k n).server
  Either-after zero n h = h
  Either-after (suc k) n h = Either-after k (send serve n).1 (Either-transmit n.fates n.server h)

  -- However many attempts are made, the server is before the request or after it, and it is after it
  -- where the call returns.
  pub request_with_retry-once :
      (is_success : ℕ → Bool) (max_attempts : ℕ) (n : Network)
      → 0 < max_attempts
      → Before n.server ⊎ After n.server
      → let (result, n') = request_with_retry is_success (send serve) max_attempts n in
        (Before n'.server ⊎ After n'.server) × ((a : Option A) → result ≡ body a → After n'.server)
  request_with_retry-once is_success max_attempts n positive h =
      let (k, below, retried, end, same) =
        request_with_retry_lem is_success (send serve) max_attempts n positive in
      let m = after (send serve) k n in
      rw same (
        Either-transmit m.fates m.server (Either-after k n h),
        λ a e. After-answered is_success m.fates m.server a (Either-after k n h) e,
      )
