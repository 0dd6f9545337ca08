-- ===== src/Examples/Metrics.antt =====
-- Readings of two runners.
use crate_probe.TaskSpec.TomlValue.{of_int}
use crate_probe.Table.{select}
use crate_probe.RunnerMetrics.{RunnerMetricPoint, Buckets, bucket_of, get_series}
use crate_probe.RunnerMetrics.Window.{InOrder, get_series-select}
use crate_probe.Prelude.{ℕ, [], ◌∷◌, pos, arith, ◌≡◌, leb, ◌+◌}

abbrev reading : ℕ → RunnerMetricPoint
reading ts = record {
  ts = ts;
  cpu_percent = of_int (pos 50);
  memory_percent = of_int (pos 40);
  disk_percent = of_int (pos 30);
  active_tasks = 1;
}

abbrev buckets : Buckets
buckets = ("west", []) ∷ ("east", reading 10 ∷ reading 20 ∷ reading 90 ∷ []) ∷ []

in_order : InOrder (bucket_of "east" buckets)
unfolding bucket_of
in_order = ground arith

get_series-select_example :
    (get_series 85 100 101 30 "east" buckets).0
    ≡ select
        (λ (p : RunnerMetricPoint). leb 101 (p.ts + 30))
        (select (λ (p : RunnerMetricPoint). leb 100 (p.ts + 85)) (bucket_of "east" buckets))
get_series-select_example = get_series-select 85 100 101 30 "east" buckets in_order
