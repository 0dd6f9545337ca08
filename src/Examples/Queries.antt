-- ===== src/Examples/Queries.antt =====
-- Lists of the jobs, who watches them, and the lines of a log.
use crate_probe.FilePath.{codes, Text}
use crate_probe.Table.{select, order_by}
use crate_probe.Table.Sorting.{IsSorted}
use crate_probe.Database.Types.{JobRecord}
use crate_probe.Database.Query.{
  like_filter, by_created_at, row_before, column_value, selected, tokens, matches, escape_like,
  escape_char, AreApart,
}
use crate_probe.Database.Query.Substrings.{Stands, like_filter-Stands}
use crate_probe.Database.Query.Pages.{rows}
use crate_probe.Sockets.{
  Manager, watchers, connect_job, disconnect_dashboard, reaches, raises, send_all, add,
  broadcast_job_update,
}
use crate_probe.Sockets.Broadcasts.{Stays, Reaches, watchers-broadcast_job_update}
use crate_probe.JobFiles.{read, Disk}
use crate_probe.JobFiles.Reading.Lines.{print_lines}
use crate_probe.Database.Jobs.{get_job}
use crate_probe.Api.Types.{ok}
use crate_probe.Api.Readers.{get_job_file, lines_of}
use crate_probe.Api.Readers.Tail.{get_job_file-print_lines}
use crate_probe.Examples.{db, env, server, log_file}
use crate_probe.Examples.Files.{log_path}
use crate_probe.Prelude.{
  ℕ, Bool, ◌↔◌, ◌≡◌, ◌∷◌, [], true, some, none, ◌==◌, if◌then◌else◌, List, is_some, false, refl,
}

like_filter-Stands_example :
    (like_filter (codes "E_1%") (codes "serde_1%") ≡ true)
    ↔ Stands (codes "E_1%") (codes "serde_1%")
like_filter-Stands_example = like_filter-Stands (codes "E_1%") (codes "serde_1%")

-- a sorter that sorts in the same way each time
abbrev sorter : ℕ → (JobRecord → JobRecord → Bool) → List JobRecord → List JobRecord
sorter i le rs = order_by le rs

abbrev serde_jobs : List JobRecord
serde_jobs = rows 900 none (some "serde") none by_created_at true db 3

abbrev by_creation : JobRecord → JobRecord → Bool
by_creation = row_before 900 by_created_at true

in_order :
    IsSorted by_creation (order_by by_creation serde_jobs)
    × AreApart (order_by by_creation serde_jobs)
unfolding row_before column_value selected like_filter tokens matches escape_like escape_char
in_order = (
  ((refl, (refl, (refl, tt))), ((refl, (refl, tt)), ((refl, tt), (tt, tt)))),
  ((refl, (refl, (refl, tt))), ((refl, (refl, tt)), ((refl, tt), (tt, tt)))),
)

-- two clients watch job 2, and one of them watches the dashboard too
abbrev manager : Manager
manager = record {
  job_connections = λ job_id. if job_id == 2 then some (7 ∷ 8 ∷ []) else none;
  dashboard_connections = 8 ∷ [];
}

-- the dashboard is disconnected while the message is sent to the job's watchers
abbrev meanwhile : List (Manager → Manager)
meanwhile = disconnect_dashboard 8 ∷ []

stays : Stays (watchers 2) (disconnect_dashboard 8)
unfolding disconnect_dashboard
stays m = refl

-- a client that comes to watch the job at that time makes the loop over the set raise
connect_raises : (broadcast_job_update (λ w. w == 7) (connect_job 2 9 ∷ []) 2 manager).0 ≡ raises
unfolding broadcast_job_update send_all connect_job add
connect_raises = refl

watchers-broadcast_job_update_example :
    let result = broadcast_job_update (λ w. w == 7) meanwhile 2 manager in
    Reaches
      (λ w. w == 7)
      2
      manager
      (broadcast_job_update (λ w. w == 7) (connect_job 2 9 ∷ []) 2 manager)
    × Reaches (λ w. w == 7) 2 manager result
    × (result.0 ≡ reaches (select (λ w. w == 7) (watchers 2 manager)))
watchers-broadcast_job_update_example =
    watchers-broadcast_job_update (λ w. w == 7) 2 manager (connect_job 2 9 ∷ []) meanwhile
      (stays, tt)

-- two lines, "a" and ""
abbrev printed : List Text
printed = codes "a" ∷ [] ∷ []

abbrev printed_disk : Disk
printed_disk = (record { path = log_file; bytes = 97 ∷ 10 ∷ 10 ∷ [] }) ∷ []

printed_job : is_some (get_job 2 db) ≡ true
unfolding get_job
printed_job = refl

printed_file : read log_file printed_disk ≡ some (97 ∷ 10 ∷ 10 ∷ [])
unfolding read
printed_file = refl

printed_text : 97 ∷ 10 ∷ 10 ∷ [] ≡ print_lines printed
unfolding print_lines
printed_text = refl

get_job_file-print_lines_example :
    get_job_file
      (λ bytes. bytes)
      env
      2
      (codes "log.txt")
      1
      false
      (record server { disk = printed_disk })
    ≡ ok (lines_of ([] ∷ []))
get_job_file-print_lines_example =
    get_job_file-print_lines (λ bytes. bytes) env 2 (codes "log.txt") 1
      (record server { disk = printed_disk }) log_file (97 ∷ 10 ∷ 10 ∷ []) printed printed_job
      log_path printed_file printed_text ((refl, tt), (tt, tt))
