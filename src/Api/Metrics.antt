-- ===== src/Api/Metrics.antt =====
-- backend/app/main.py: the endpoints that take and show the readings of runners, over the store of readings.
-- The clock and the greatest age of a reading are arguments.
use crate_probe.Prelude.{
  ℕ, Bool, Option, none, some, List, [], ◌∷◌, String, str_eq, if◌then◌else◌, leb, coalesce, true,
}
use crate_probe.FilePath.{Text}
use crate_probe.Table.{order_by}
use crate_probe.Database.Types.{RunnerRecord, Database, seconds}
use crate_probe.Database.Runners.{get_runner_by_runner_id, list_runners}
use crate_probe.RunnerMetrics.{RunnerMetricPoint, Buckets, append, get_latest, get_series}
use crate_probe.Api.Types.{Env, Reply, ok, http_error}
use crate_probe.Api.Auth.{require_runner_auth, require_admin_token}
use crate_probe.Api.Admin.{Health, health_status}

-- `_parse_metric_timestamp`: `parsed` is what fromisoformat makes of the text, if it is one
unfoldable pub parse_metric_timestamp : (String → Option ℕ) → ℕ → Option String → ℕ
parse_metric_timestamp parsed now none = now
parse_metric_timestamp parsed now (some text) =
    if str_eq text "" then now else coalesce (parsed text) now

-- `_window_to_timedelta`
unfoldable pub window_to_timedelta : String → Option ℕ
window_to_timedelta window =
    if str_eq window "1h"
    then some (seconds 3600)
    else if str_eq window "6h"
    then some (seconds 21600)
    else if str_eq window "24h"
    then some (seconds 86400)
    else none

-- `require_runner_auth` stands before it
unfoldable pub ingest_runner_metrics :
    Env
    → ℕ
    → ℕ
    → String
    → Option Text
    → RunnerMetricPoint
    → Database
    → Buckets
    → Reply Bool × Buckets
ingest_runner_metrics env max_age now runner_id authorization point db buckets =
    if require_runner_auth env runner_id authorization db
    then (ok true, append max_age now runner_id point buckets)
    else (http_error 403, buckets)

-- `RunnerOverviewResponse`
pub record RunnerOverview : Type 0 where
  pub runner : RunnerRecord
  pub health : Health
  pub latest_metrics : Option RunnerMetricPoint

-- the overview of each runner; a read of the latest reading drops those that are too old
unfoldable pub overviews : Env → ℕ → ℕ → List RunnerRecord → Buckets → List RunnerOverview × Buckets
overviews env max_age now [] buckets = ([], buckets)
overviews env max_age now (runner ∷ runners) buckets =
    let (latest, buckets') = get_latest max_age now runner.runner_id buckets in
    let (rest, buckets'') = overviews env max_age now runners buckets' in
    (
      (record { runner = runner; health = health_status env now runner; latest_metrics = latest })
          ∷ rest,
      buckets'',
    )

unfoldable pub get_runner_overview :
    Env → ℕ → ℕ → Option String → Database → Buckets → Reply (List RunnerOverview) × Buckets
unfolding overviews
get_runner_overview env max_age now admin_token db buckets =
    let (result, buckets') = overviews env max_age now (list_runners db) buckets in
    if require_admin_token env admin_token then (ok result, buckets') else (http_error 403, buckets)

-- `RunnerMetricsQueryResponse`
pub record MetricsQuery : Type 0 where
  pub overview : RunnerOverview
  pub window : String
  pub series : List RunnerMetricPoint

abbrev pub queried :
    Env → ℕ → ℕ → ℕ → String → ℕ → RunnerRecord → Buckets → Reply MetricsQuery × Buckets
queried env max_age now later window delta runner buckets =
    let (latest, buckets') = get_latest max_age now runner.runner_id buckets in
    let (series, buckets'') = get_series max_age now later delta runner.runner_id buckets' in
    (
      ok (record {
        overview = record {
          runner = runner;
          health = health_status env later runner;
          latest_metrics = latest;
        };
        window = window;
        series = order_by (λ (a b : RunnerMetricPoint). leb a.ts b.ts) series;
      }),
      buckets'',
    )

-- `now` and `later` are readings of the clock; the framework checks the window before the endpoint is called
unfoldable pub get_runner_metrics :
    Env
    → ℕ
    → ℕ
    → ℕ
    → Option String
    → String
    → String
    → Database
    → Buckets
    → Reply MetricsQuery × Buckets
unfolding window_to_timedelta
get_runner_metrics env max_age now later admin_token runner_id window db buckets =
    let reply : Reply MetricsQuery × Buckets = elim (window_to_timedelta window) [
      | none ↦ (http_error 422, buckets)
      | some delta ↦ elim (get_runner_by_runner_id runner_id db) [
        | none ↦ (http_error 404, buckets)
        | some runner ↦ queried env max_age now later window delta runner buckets
      ]
    ] in
    if require_admin_token env admin_token then reply else (http_error 403, buckets)
