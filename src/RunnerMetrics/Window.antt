-- ===== src/RunnerMetrics/Window.antt =====
-- backend/app/services/runner_metrics_store.py: which readings a query returns.
use crate_probe.Table.{select}
use crate_probe.RunnerMetrics.{
  RunnerMetricPoint, Bucket, Buckets, bucket_of, prune_bucket, get_series,
}
use crate_probe.Prelude.{[], ◌∷◌, ℕ, All, ◌≤◌, ◌≡◌, String, ◌+◌, leb, arith, ap, refl}

-- No reading is older than the one before it.
abbrev pub InOrder : Bucket → Type 0
InOrder [] = Unit
InOrder (p ∷ bucket) = All (λ (q : RunnerMetricPoint). p.ts ≤ q.ts) bucket × InOrder bucket

All-recent :
    (max_age now : ℕ) (p : RunnerMetricPoint) (bucket : Bucket)
    → now ≤ p.ts + max_age
    → All (λ (q : RunnerMetricPoint). p.ts ≤ q.ts) bucket
    → select (λ (q : RunnerMetricPoint). leb now (q.ts + max_age)) bucket ≡ bucket
All-recent max_age now p [] h a = refl
All-recent max_age now p (q ∷ bucket) h a = ground (arith, All-recent max_age now p bucket h a.1)

-- Readings that come in the order of time are pruned exactly when they are too old.
prune_bucket-select :
    (max_age now : ℕ) (bucket : Bucket)
    → InOrder bucket
    → prune_bucket max_age now bucket
      ≡ select (λ (q : RunnerMetricPoint). leb now (q.ts + max_age)) bucket
unfolding prune_bucket
prune_bucket-select max_age now [] h = refl
prune_bucket-select max_age now (p ∷ bucket) h = ground (
  arith,
  prune_bucket-select max_age now bucket h.1,
  λ (e : now ≤ p.ts + max_age). All-recent max_age now p bucket e h.0,
)

-- For a runner whose readings came in the order of time, a series is all readings that are neither
-- older than the retention time nor outside the window.
pub get_series-select :
    (max_age now later window : ℕ) (runner_id : String) (buckets : Buckets)
    → InOrder (bucket_of runner_id buckets)
    → (get_series max_age now later window runner_id buckets).0
      ≡ select
          (λ (p : RunnerMetricPoint). leb later (p.ts + window))
          (select
            (λ (p : RunnerMetricPoint). leb now (p.ts + max_age))
            (bucket_of runner_id buckets))
unfolding get_series
get_series-select max_age now later window runner_id buckets h =
    ap (select (λ (p : RunnerMetricPoint). leb later (p.ts + window)))
      (prune_bucket-select max_age now (bucket_of runner_id buckets) h)
