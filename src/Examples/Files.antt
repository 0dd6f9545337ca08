-- ===== src/Examples/Files.antt =====
-- Files and chunks of the sample.
use crate_probe.FilePath.{
  FilePath, codes, parts, has_parent, is_absolute, path_eq, split_slash, keep_components,
}
use crate_probe.FilePath.Decimal.{decimal}
use crate_probe.JobFiles.{
  read, safe_join, joined, files_dir, artifacts_dir, job_dir, clear, Read, chunk, saved,
  save_artifact, save_loop, settle,
}
use crate_probe.JobFiles.Safety.{IsBelow, safe_join-IsBelow}
use crate_probe.JobFiles.Contents.{save_artifact-saved, stream_bytes}
use crate_probe.JobFiles.Clearing.{is_of_job, read-clear_other}
use crate_probe.Database.Chunks.Laws.{last_chunk}
use crate_probe.Database.Jobs.{get_job}
use crate_probe.Database.Runners.{get_runner_by_runner_id}
use crate_probe.Api.Types.{http_error}
use crate_probe.Api.Auth.{
  require_runner_auth, require_job_lease, verify_runner, verify_token, extract_bearer_token, strip,
  lstrip, rstrip, split_once, holds_lease,
}
use crate_probe.Api.Files.{append, push_runner_job_file}
use crate_probe.Api.Pushes.{IsAdmitted, push-refused}
use crate_probe.Api.Pushes.Stream.{push_all, in_order, read-push_all}
use crate_probe.Examples.{env, store, db, server, header, held, disk, log_file}
use crate_probe.Prelude.{
  ℕ, ◌≡◌, List, coalesce, ◌∷◌, pos, length, refl, ℤ, [], if◌then◌else◌, false, ◌++◌, true, arith,
  some, ◌≤◌,
}

pub log_path : safe_join (λ p. p) (files_dir store 2) (codes "log.txt") ≡ joined log_file
unfolding safe_join files_dir job_dir decimal parts split_slash keep_components
log_path = refl

pub admitted : IsAdmitted env "east" header 2 "token" "log.txt" log_file db
unfolding require_runner_auth require_job_lease verify_runner verify_token extract_bearer_token
    strip lstrip rstrip split_once holds_lease get_job get_runner_by_runner_id
admitted = record { authenticated = refl; leased = (held, refl); safe = log_path }

-- the chunks 0 and 1, where the first is sent twice
abbrev chunks : List (List ℕ × ℤ)
chunks = (3 ∷ [], pos 0) ∷ (3 ∷ [], pos 0) ∷ (4 ∷ [], pos 1) ∷ []

read-push_all_example :
    coalesce (read log_file (push_all env "east" header 2 "token" "log.txt" chunks server).disk) []
    ≡ coalesce (read log_file disk) [] ++ in_order (last_chunk 2 "log.txt" db) chunks
read-push_all_example =
    read-push_all env "east" header 2 "token" "log.txt" chunks server log_file admitted

refused_push :
    (push_runner_job_file env "west" header 2 "token" "log.txt" append
      (3 ∷ [])
      (some (pos 0))
      server).0
    ≡ http_error 403
unfolding push_runner_job_file require_runner_auth get_runner_by_runner_id
refused_push = refl

push-refused_example :
    (push_runner_job_file env "west" header 2 "token" "log.txt" append
      (3 ∷ [])
      (some (pos 0))
      server).1
    ≡ server
push-refused_example =
    push-refused env "west" header 2 "token" "log.txt" append (3 ∷ []) (some (pos 0)) server 403
      refused_push

safe_join-IsBelow_example :
    IsBelow (files_dir store 2) log_file
    × (is_absolute (codes "log.txt") ≡ false)
    × (has_parent (parts (codes "log.txt")) ≡ false)
safe_join-IsBelow_example =
    safe_join-IsBelow (λ p. p) (files_dir store 2) (codes "log.txt") log_file log_path

abbrev report_file : FilePath
report_file = codes "srv" ∷ codes "jobs" ∷ codes "2" ∷ codes "artifacts" ∷ codes "a.txt" ∷ []

report_path : safe_join (λ p. p) (artifacts_dir store 2) (codes "a.txt") ≡ joined report_file
unfolding safe_join artifacts_dir job_dir decimal parts split_slash keep_components
report_path = refl

abbrev small : List Read
small = chunk (1 ∷ []) ∷ chunk (2 ∷ 3 ∷ []) ∷ []

small_saved : (save_artifact (λ p. p) store 2 (codes "a.txt") small disk).0 ≡ saved 3
unfolding save_artifact save_loop settle safe_join artifacts_dir job_dir decimal parts split_slash
    keep_components
small_saved = refl

save_artifact-saved_example :
    ((q : FilePath)
      → read q (save_artifact (λ p. p) store 2 (codes "a.txt") small disk).1
        ≡ (if path_eq report_file q then some (stream_bytes small) else read q disk))
    × (3 ≡ length (stream_bytes small))
    × (3 ≤ store.artifact_max_bytes)
save_artifact-saved_example =
    save_artifact-saved (λ p. p) store 2 (codes "a.txt") small disk report_file report_path {n = 3}
      small_saved

in_tree : is_of_job store 2 log_file ≡ true
unfolding files_dir artifacts_dir job_dir decimal
in_tree = refl

read-clear_other_example : read log_file (clear store 3 disk) ≡ read log_file disk
read-clear_other_example = read-clear_other store 2 3 log_file disk (λ e. omega arith) in_tree
