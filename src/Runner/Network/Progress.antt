-- ===== src/Runner/Network/Progress.antt =====
-- backend/runner/client.py, `_request_with_retry`, over a network that answers an attempt in the end.
use crate_probe.Prelude.{
  ℕ, zero, suc, ◌<◌, [], ◌∷◌, ◌++◌, Bool, true, Option, some, List, ◌≡◌, ◌⊎◌, inl, inr, arith, refl,
  All, length, sym, subst,
}
use crate_probe.Api.Types.{Server, Answer, ok}
use crate_probe.Runner.{HttpResult, body, request_error}
use crate_probe.Runner.Client.{request_loop}
use crate_probe.Runner.Network.{Fate, lost, reply_lost, delivered, Network, send}

-- An attempt that is not answered.
abbrev pub IsLoss : Fate → Type 0
IsLoss lost = Unit
IsLoss (reply_lost now) = Unit
IsLoss (delivered now) = ⊥

-- The answered attempt is still to come, after fewer losses.
abbrev pub Nearer : ℕ → List Fate → List Fate → List Fate → Type 0
Nearer now rest losses fates =
    (losses' : List Fate) × All IsLoss losses'
    × (length losses' < length losses)
    × (fates ≡ losses' ++ delivered now ∷ rest)

-- A server that answers with what `P` holds of, and stays as `Inv` says.
module _ {A : Type 0} (serve : ℕ → Server → Answer A) (Inv : Server → Type 0) (P : A → Type 0)
    (keeps : (now : ℕ) (s : Server) → Inv s → Inv (serve now s).1)
    (answers : (now : ℕ) (s : Server) → Inv s → (a : A) × P a × ((serve now s).0 ≡ ok a))
    (is_success : ℕ → Bool) (success : is_success 200 ≡ true) (now : ℕ) (rest : List Fate) where
  abbrev pub Progress : List Fate → HttpResult (Option A) × Network → Type 0
  Progress losses (result, n) =
      ((a : A) × P a × (result ≡ body (some a))) ⊎ Nearer now rest losses n.fates

  Progress-more :
      (first : Fate) (losses : List Fate) (r : HttpResult (Option A) × Network)
      → Progress losses r
      → Progress (first ∷ losses) r
  Progress-more first losses r (inl a) = inl a
  Progress-more first losses r (inr (losses', l, shorter, e)) = inr (losses', l, omega arith, e)

  request_loop-lost :
      (left : ℕ) (b : Bool) (n : Network)
      → (send serve n).0 ≡ request_error
      → request_loop is_success (send serve) (suc (suc left)) b n
        ≡ request_loop is_success (send serve) (suc left) true (send serve n).1
  unfolding request_loop
  request_loop-lost left b n e = ground arith

  pub request_loop-Progress :
      (left : ℕ) (b : Bool) (losses : List Fate) (s : Server)
      → All IsLoss losses
      → Inv s
      → Progress losses (
          request_loop is_success
            (send serve)
            (suc left)
            b
            (record { server = s; fates = losses ++ delivered now ∷ rest }))
  unfolding request_loop
  request_loop-Progress left b [] s l h =
      let (a, p, e) = answers now s h in inl (a, p, ground arith)
  request_loop-Progress zero b (lost ∷ losses) s l h = inr (losses, l.1, omega arith, refl)
  request_loop-Progress zero b (reply_lost t ∷ losses) s l h = inr (losses, l.1, omega arith, refl)
  request_loop-Progress (suc left) b (lost ∷ losses) s l h =
      let n : Network = record { server = s; fates = lost ∷ losses ++ delivered now ∷ rest } in
      subst (Progress (lost ∷ losses)) (sym (request_loop-lost left b n refl)) (
        Progress-more lost losses
          (request_loop is_success (send serve) (suc left) true (send serve n).1)
          (request_loop-Progress left true losses s l.1 h))
  request_loop-Progress (suc left) b (reply_lost t ∷ losses) s l h =
      let n : Network = record {
        server = s;
        fates = reply_lost t ∷ losses ++ delivered now ∷ rest;
      } in
      subst (Progress (reply_lost t ∷ losses)) (sym (request_loop-lost left b n refl)) (
        Progress-more (reply_lost t) losses
          (request_loop is_success (send serve) (suc left) true (send serve n).1)
          (request_loop-Progress left true losses (serve t s).1 l.1 (keeps t s h)))
  request_loop-Progress zero b (delivered t ∷ losses) s l h = absurd l.0
  request_loop-Progress (suc left) b (delivered t ∷ losses) s l h = absurd l.0
