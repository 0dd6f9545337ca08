-- ===== src/Examples/Jobs.antt =====
-- Claims and leases of the sample.
use crate_probe.Database.Types.{JobRecord, seconds}
use crate_probe.Database.Jobs.{get_job, queue_before, priority_leb}
use crate_probe.Database.Claim.{
  next_pending, claim_pending_job, claim_row, refresh_snapshot, take_job,
}
use crate_probe.Database.Claim.Steps.{JobsHaveKeys}
use crate_probe.Database.Claim.Laws.{claimed, get_job-claim_pending_job}
use crate_probe.Database.Claim.Given.{Given, Precedes, claim_pending_job-some}
use crate_probe.Models.{pending}
use crate_probe.Table.{find}
use crate_probe.Scheduler.{schedule_tasks}
use crate_probe.Api.Types.{ok, http_error}
use crate_probe.Api.Auth.{require_job_lease}
use crate_probe.Api.Leases.{claim_pending_job-fences, schedule_tasks-fences}
use crate_probe.Examples.{db, held, urgent, config}
use crate_probe.Prelude.{arith, ◌≡◌, if◌then◌else◌, ◌↔◌, some, ◌==◌, refl, String, In, ◌+◌}

keyed : JobsHaveKeys db
keyed = ground arith

abbrev given : JobRecord
given = claimed 1000 "fresh" "west" 45 db urgent

given_out : (claim_pending_job 1000 "fresh" "west" 45 db).0 ≡ some given
unfolding claim_pending_job claimed claim_row next_pending refresh_snapshot take_job queue_before
    priority_leb get_job
given_out = refl

claim_pending_job-some_example :
    (j : JobRecord) × In j db.jobs
    × (j.status ≡ pending)
    × ((k : JobRecord) → In k db.jobs → k.status ≡ pending → Precedes j k)
    × Given 1000 "fresh" "west" (1000 + seconds 45) (find (λ t. t.id == j.task_id) db.tasks) j given
claim_pending_job-some_example =
    claim_pending_job-some 1000 "fresh" "west" 45 db {c = given} keyed given_out

get_job-claim_pending_job_example :
    get_job 2 (claim_pending_job 1000 "fresh" "west" 45 db).1
    ≡ (if 2 == given.id then some given else get_job 2 db)
get_job-claim_pending_job_example =
    get_job-claim_pending_job 1000 "fresh" "west" 45 db {c = given} keyed given_out 2

claim_pending_job-fences_example :
    (require_job_lease given.id "east" "token" (claim_pending_job 1000 "fresh" "west" 45 db).1
      ≡ ok given)
    ↔ ((◌≡◌ {A = String} "east" "west") × (◌≡◌ {A = String} "token" "fresh") × (given ≡ given))
claim_pending_job-fences_example =
    claim_pending_job-fences 1000 "fresh" "west" 45 db {c = given} keyed given_out "east" "token"
      given

held_there : get_job 2 db ≡ some held
unfolding get_job
held_there = refl

schedule_tasks-fences_example :
    require_job_lease 2 "east" "token" (schedule_tasks 1000 1001 config db) ≡ http_error 409
schedule_tasks-fences_example =
    schedule_tasks-fences 1000 1001 config db 2 900 held held_there refl refl (omega arith) "east"
      "token"
