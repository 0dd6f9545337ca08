-- ===== src/Api/Dashboard.antt =====
-- backend/app/main.py: the numbers and lists that the dashboard shows.
use crate_probe.Models.{TaskStatus}
use crate_probe.Database.Types.{JobRecord}
use crate_probe.Database.Jobs.{get_all_jobs, get_pending_jobs_ordered, newest_first}
use crate_probe.Database.Claim.{next_pending}
use crate_probe.Table.{first}
use crate_probe.Api.Types.{Server}
use crate_probe.Api.Jobs.{count_status, get_dashboard_stats, get_queue}
use crate_probe.Prelude.{[], ◌∷◌, List, ◌≡◌, length, refl, ◌+◌, arith}
use crate_probe.Table.Sorting.{length-order_by}

sums :
    (js : List JobRecord)
    → length js
      ≡ count_status TaskStatus.pending js
        + count_status TaskStatus.running js
        + count_status TaskStatus.completed js
        + count_status TaskStatus.failed js
        + count_status TaskStatus.cancelled js
        + count_status TaskStatus.timeout js
        + count_status TaskStatus.oom js
        + count_status TaskStatus.runner_failed js
sums [] = omega arith
sums (j ∷ js) = ground (arith, sums js)

-- The counts of the dashboard by status add up to its total, which is the number of jobs.
pub get_dashboard_stats-total :
    (s : Server)
    → let t = get_dashboard_stats s in
      (t.total ≡ length s.db.jobs)
      × (t.total
          ≡ t.pending + t.running + t.completed + t.failed + t.cancelled + t.timeout + t.oom
            + t.runner_failed)
unfolding get_dashboard_stats get_all_jobs
get_dashboard_stats-total s = (length-order_by newest_first s.db.jobs, sums (get_all_jobs s.db))

-- The job that a claim takes is the first one of the queue that the dashboard shows.
pub get_queue-next_pending : (s : Server) → first (get_queue s).pending ≡ next_pending s.db
unfolding get_queue get_pending_jobs_ordered next_pending
get_queue-next_pending s = refl
