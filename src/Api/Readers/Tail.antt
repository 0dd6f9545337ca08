-- ===== src/Api/Readers/Tail.antt =====
-- backend/app/main.py, `get_job_file`: the lines that are shown of a log.
use crate_probe.Prelude.{
  ℕ, ◌-◌, true, false, List, some, ◌≡◌, All, length, drop, ap, ◌∙◌, is_some, refl,
}
use crate_probe.FilePath.{Text, FilePath}
use crate_probe.JobFiles.{read, safe_join, joined, files_dir}
use crate_probe.JobFiles.Reading.{read_tail, read_last_n_lines, found}
use crate_probe.JobFiles.Reading.Lines.{IsLine, print_lines, read_last_n_lines-print_lines}
use crate_probe.Database.Jobs.{get_job}
use crate_probe.Api.Types.{Env, Server, ok}
use crate_probe.Api.Readers.{get_job_file, lines_of}

read_tail-read :
    (decode : List ℕ → Text) (env : Env) (job_id : ℕ) (path : Text) (n : ℕ) (s : Server)
    (target : FilePath) (bytes : List ℕ)
    → safe_join env.resolve (files_dir env.store job_id) path ≡ joined target
    → read target s.disk ≡ some bytes
    → read_tail decode env.resolve env.store job_id path n s.disk
      ≡ found (read_last_n_lines n (decode bytes))
unfolding read_tail
read_tail-read decode env job_id path n s target bytes safe there = rw (safe, read_tail, there) refl

-- Of a file of a job whose bytes are the lines that a program printed, a reader gets the last lines as
-- they were printed, as many as it asks for and there are.
pub get_job_file-print_lines :
    (decode : List ℕ → Text) (env : Env) (job_id : ℕ) (path : Text) (n : ℕ) (s : Server)
    (target : FilePath) (bytes : List ℕ) (lines : List Text)
    → is_some (get_job job_id s.db) ≡ true
    → safe_join env.resolve (files_dir env.store job_id) path ≡ joined target
    → read target s.disk ≡ some bytes
    → decode bytes ≡ print_lines lines
    → All IsLine lines
    → get_job_file decode env job_id path n false s ≡ ok (lines_of (drop (length lines - n) lines))
unfolding get_job_file
get_job_file-print_lines decode env job_id path n s target bytes lines job safe there printed
      are_lines =
    let e : read_last_n_lines n (decode bytes) ≡ drop (length lines - n) lines =
      ap (λ t. read_last_n_lines n t) printed ∙ read_last_n_lines-print_lines n lines are_lines in
    rw (job, read_tail-read decode env job_id path n s target bytes safe there)
      (ap (λ ls. ok (lines_of ls)) e)
