-- ===== src/Examples/Reports.antt =====
-- Status reports on the sample.
use crate_probe.Models.{is_running, of_value, pending, failed}
use crate_probe.Database.Types.{JobRecord, Database, done}
use crate_probe.Database.Sync.{apply_job_sync, sync_row}
use crate_probe.Database.Sync.Laws.{seq_of, applied, seq_of-apply_job_sync, apply_job_sync_again}
use crate_probe.Database.Sync.Transitions.{apply_job_sync-terminal, apply_job_sync-pending}
use crate_probe.Table.{find}
use crate_probe.Examples.{db, held, ended}
use crate_probe.Prelude.{pos, ◌==◌, int_leb, ◌≡◌, some, true, none, false, refl}

was_applied : (apply_job_sync 400 2 (pos 4) "failed" (some (pos 1)) none db).0 ≡ applied
unfolding apply_job_sync of_value
was_applied = refl

abbrev after : Database
after = (apply_job_sync 400 2 (pos 4) "failed" (some (pos 1)) none db).1

abbrev reported_job : JobRecord
reported_job = sync_row 400 (pos 4) failed (some (pos 1)) none held

found_after : find (λ r. r.id == 2) after.jobs ≡ some reported_job
unfolding apply_job_sync of_value sync_row
found_after = refl

seq_of-apply_job_sync_example : int_leb (seq_of held) (seq_of reported_job) ≡ true
seq_of-apply_job_sync_example =
    seq_of-apply_job_sync 400 2 (pos 4) "failed" (some (pos 1)) none db 2 held reported_job refl
      found_after

apply_job_sync_again_example :
    apply_job_sync 500 2 (pos 4) "completed" none none after ≡ (done (some false), after)
apply_job_sync_again_example =
    apply_job_sync_again 400 500 2 (pos 4) "failed" "completed" (some (pos 1)) none none none db
      was_applied

ended_stays :
    find (λ r. r.id == 1) (apply_job_sync 400 1 (pos 9) "running" none none db).1.jobs ≡ some ended
unfolding apply_job_sync of_value
ended_stays = refl

apply_job_sync-terminal_example : is_running ended.status ≡ false
apply_job_sync-terminal_example =
    apply_job_sync-terminal 400 1 (pos 9) "running" none none db 1 ended ended refl refl ended_stays

apply_job_sync-pending_example :
    ((apply_job_sync 400 1 (pos 9) "pending" none none db).0 ≡ applied)
    × ((j' : JobRecord) × (find
            (λ r. r.id == 1)
            (apply_job_sync 400 1 (pos 9) "pending" none none db).1.jobs
          ≡ some j')
        × (j'.status ≡ pending)
        × (j'.runner_id ≡ ended.runner_id)
        × (j'.lease_token ≡ ended.lease_token)
        × (j'.finished_at ≡ ended.finished_at))
apply_job_sync-pending_example =
    apply_job_sync-pending 400 1 (pos 9) none none db ended refl refl refl
