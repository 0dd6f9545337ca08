-- ===== src/RunnerMetrics.antt =====
-- backend/app/services/runner_metrics_store.py: the recent readings of each runner. The lock makes each
-- call one step; the two readings of the clock in `get_series` are arguments.
pub mod Window
use crate_probe.TaskSpec.TomlValue.{Float}
use crate_probe.Table.{select}
use crate_probe.Prelude.{
  ℕ, ◌+◌, Bool, Option, none, some, List, [], ◌∷◌, ◌++◌, String, str_eq, if◌then◌else◌, ltb, leb,
}

pub record RunnerMetricPoint : Type 0 where
  pub ts : ℕ
  pub cpu_percent : Float
  pub memory_percent : Float
  pub disk_percent : Float
  pub active_tasks : ℕ

-- a deque, the oldest append first
abbrev pub Bucket : Type 0
Bucket = List RunnerMetricPoint

-- the dictionary of the buckets
abbrev pub Buckets : Type 0
Buckets = List (String × Bucket)

-- `self._data.get(runner_id)`; a missing bucket is read as an empty one
unfoldable pub bucket_of : String → Buckets → Bucket
bucket_of runner_id [] = []
bucket_of runner_id ((id, bucket) ∷ rest) =
    if str_eq id runner_id then bucket else bucket_of runner_id rest

unfoldable pub put_bucket : String → Bucket → Buckets → Buckets
put_bucket runner_id bucket [] = (runner_id, bucket) ∷ []
put_bucket runner_id bucket ((id, old) ∷ rest) =
    let kept = put_bucket runner_id bucket rest in
    if str_eq id runner_id then (id, bucket) ∷ rest else (id, old) ∷ kept

-- `_prune_bucket`: `ts < now - max_age`, from the front while it holds
unfoldable pub prune_bucket : ℕ → ℕ → Bucket → Bucket
prune_bucket max_age now [] = []
prune_bucket max_age now (p ∷ bucket) =
    let rest = prune_bucket max_age now bucket in
    if ltb (p.ts + max_age) now then rest else p ∷ bucket

unfoldable pub append : ℕ → ℕ → String → RunnerMetricPoint → Buckets → Buckets
unfolding prune_bucket bucket_of put_bucket
append max_age now runner_id point buckets =
    put_bucket runner_id (prune_bucket max_age now (bucket_of runner_id buckets ++ point ∷ []))
      buckets

-- `bucket[-1] if bucket else None`
abbrev pub last : Bucket → Option RunnerMetricPoint
last [] = none
last (p ∷ bucket) = elim (last bucket) [ none ↦ some p | some q ↦ some q ]

-- the bucket of an unknown runner is not made
abbrev pub pruned : ℕ → ℕ → String → Buckets → Buckets
pruned max_age now runner_id buckets = elim (bucket_of runner_id buckets) [
  | [] ↦ buckets
  | p ∷ bucket ↦ put_bucket runner_id (prune_bucket max_age now (p ∷ bucket)) buckets
]

unfoldable pub get_latest : ℕ → ℕ → String → Buckets → Option RunnerMetricPoint × Buckets
unfolding prune_bucket bucket_of put_bucket
get_latest max_age now runner_id buckets = (
  last (prune_bucket max_age now (bucket_of runner_id buckets)),
  pruned max_age now runner_id buckets,
)

-- `ts >= later - window`
unfoldable pub get_series : ℕ → ℕ → ℕ → ℕ → String → Buckets → List RunnerMetricPoint × Buckets
unfolding prune_bucket bucket_of put_bucket
get_series max_age now later window runner_id buckets = (
  select (λ (p : RunnerMetricPoint). leb later (p.ts + window))
      (prune_bucket max_age now (bucket_of runner_id buckets)),
  pruned max_age now runner_id buckets,
)
