-- ===== src/Api/Batches.antt =====
-- backend/app/main.py, the batch endpoints: the lists they answer with, and the jobs after them.
pub mod Endpoints
use crate_probe.Table.{count}
use crate_probe.Database.Types.{JobRecord}
use crate_probe.Database.Jobs.{get_job}
use crate_probe.Api.Types.{Server}
use crate_probe.Api.Batch.{Results, no_results, batch_step, batch}
use crate_probe.Prelude.{
  ℕ, [], ◌∷◌, ◌++◌, List, ◌+◌, Bool, ◌==◌, ◌≡◌, Option, arith, some, true, if◌then◌else◌, none,
  refl, ltb, Option-cases, ◌∙◌, inl, inr,
}

-- How often an id stands in a list.
abbrev pub times : ℕ → List ℕ → ℕ
times k ids = count (λ i. i == k) ids

times-append : (k : ℕ) (a b : List ℕ) → times k (a ++ b) ≡ times k a + times k b
times-append k [] b = omega arith
times-append k (x ∷ a) b = ground (arith, times-append k a b)

-- How often an id stands in the three lists together.
abbrev pub reported : ℕ → Results → ℕ
reported k r = times k r.acted + times k r.skipped + times k r.not_found

module _ (accepts : JobRecord → Server → Bool) (act : ℕ → Server → Server) where
  batch_step-reported :
      (k job_id : ℕ) (r : Results) (s : Server)
      → reported k (batch_step accepts act job_id (r, s)).0 ≡ reported k r + times k (job_id ∷ [])
  unfolding batch_step
  batch_step-reported k job_id r s = ground (
    arith,
    times-append k r.acted (job_id ∷ []),
    times-append k r.skipped (job_id ∷ []),
    times-append k r.not_found (job_id ∷ []),
  )

  batch-reported :
      (k : ℕ) (job_ids : List ℕ) (r : Results) (s : Server)
      → reported k (batch accepts act job_ids (r, s)).0 ≡ reported k r + times k job_ids
  unfolding batch
  batch-reported k [] r s = omega arith
  batch-reported k (i ∷ ids) r s =
      let (r', s') = batch_step accepts act i (r, s) in
      ground (arith, batch-reported k ids r' s', batch_step-reported k i r s)

  -- Every id of the request stands in the three lists of the answer as often as in the request.
  pub batch-times :
      (k : ℕ) (job_ids : List ℕ) (s : Server)
      → reported k (batch accepts act job_ids (no_results, s)).0 ≡ times k job_ids
  batch-times k job_ids s = ground (arith, batch-reported k job_ids no_results s)

-- What one turn makes of the job with the id: nothing if the test refuses it.
abbrev pub turn :
    (JobRecord → Bool) → (JobRecord → Option JobRecord) → Option JobRecord → Option JobRecord
turn test g none = none
turn test g (some j) = if test j then g j else some j

-- An action on the job `k` only, which it turns by `g`.
abbrev pub ActsBy :
    (JobRecord → Bool) → (ℕ → Server → Server) → (ℕ → JobRecord → Option JobRecord) → Type 0
ActsBy test act g =
    (i k : ℕ) (s : Server) (j : JobRecord)
    → get_job i s.db ≡ some j
    → test j ≡ true
    → get_job k (act i s).db ≡ (if k == i then g i j else get_job k s.db)

both_turns :
    (f : Option JobRecord → Option JobRecord) (k i : ℕ) (ids : List ℕ) (o o' : Option JobRecord)
    → o' ≡ (if k == i then f o else o)
    → f (f o) ≡ f o
    → (if ltb 0 (times k ids) then f o' else o') ≡ (if ltb 0 (times k (i ∷ ids)) then f o else o)
both_turns f k i ids o o' e twice = ground arith

module _ (test : JobRecord → Bool) (act : ℕ → Server → Server)
    (g : ℕ → JobRecord → Option JobRecord) (by : ActsBy test act g)
    (once : (k : ℕ) (j : JobRecord) → test j ≡ true → turn test (g k) (g k j) ≡ g k j) where
  step_job :
      (k i : ℕ) (r : Results) (s : Server)
      → get_job k (batch_step (λ j t. test j) act i (r, s)).1.db
        ≡ (if k == i then turn test (g k) (get_job k s.db) else get_job k s.db)
  unfolding batch_step
  step_job k i r s = elim (Option-cases (get_job i s.db)) [
    | inl missing ↦ ground (arith, missing)
    | inr (j, e) ↦ ground (arith, e, by i k s j e)
  ]

  turn_again :
      (k : ℕ) (o : Option JobRecord) → turn test (g k) (turn test (g k) o) ≡ turn test (g k) o
  turn_again k none = refl
  turn_again k (some j) = ground (arith, once k j)

  -- After a batch each listed job was turned, once, and no other changed.
  pub get_job-batch :
      (k : ℕ) (job_ids : List ℕ) (r : Results) (s : Server)
      → get_job k (batch (λ j t. test j) act job_ids (r, s)).1.db
        ≡ (if ltb 0 (times k job_ids) then turn test (g k) (get_job k s.db) else get_job k s.db)
  unfolding batch
  get_job-batch k [] r s = refl
  get_job-batch k (i ∷ ids) r s =
      let (r', s') = batch_step (λ j t. test j) act i (r, s) in
      get_job-batch k ids r' s'
      ∙ both_turns (turn test (g k)) k i ids (get_job k s.db) (get_job k s'.db) (step_job k i r s)
          (turn_again k (get_job k s.db))
