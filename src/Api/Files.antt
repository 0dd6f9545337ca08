-- ===== src/Api/Files.antt =====
-- backend/app/main.py: the endpoints that a runner pushes files and artifacts to. A pushed text is
-- given by its bytes, its path by the text of the request.
use crate_probe.Prelude.{
  ℕ, Bool, true, false, not, Option, none, some, List, String, ℤ, if◌then◌else◌,
}
use crate_probe.FilePath.{Text, codes}
use crate_probe.JobFiles.{
  joined, unsafe, safe_join, files_dir, Stored, stored, refused, append_file, write_full, Read,
  SaveResult, saved, too_large, stream_error, unsafe_path, save_artifact, Disk,
}
use crate_probe.Database.Chunks.{record_job_file_chunk}
use crate_probe.Api.Types.{Env, Server, Answer, Reply, ok, http_error}
use crate_probe.Api.Auth.{require_runner_auth, require_job_lease}

pub data Mode : Type 0 where
  append full : Mode

-- the disk after a store operation that `safe_join` let through
abbrev pub disk_after : Disk → Stored → Disk
disk_after old (stored disk) = disk
disk_after old (refused e) = old

-- the rest of `push_runner_job_file` once the path was found to be safe
unfoldable pub push_chunk : Env → ℕ → String → List ℕ → ℤ → Server → Answer Bool
push_chunk env job_id path content chunk_seq s =
    let (should_apply, db') = record_job_file_chunk job_id path chunk_seq s.db in
    if should_apply
    then (
      ok true,
      record s {
        db = db';
        disk =
            disk_after s.disk
              (append_file env.resolve env.store job_id (codes path) content s.disk);
      },
    )
    else (ok false, record s { db = db' })

unfoldable pub push_safe : Env → ℕ → String → Mode → List ℕ → Option ℤ → Server → Answer Bool
unfolding push_chunk
push_safe env job_id path append content none s = (http_error 422, s)
push_safe env job_id path append content (some chunk_seq) s =
    push_chunk env job_id path content chunk_seq s
push_safe env job_id path full content chunk_seq s = (
  ok true,
  record s {
    disk = disk_after s.disk (write_full env.resolve env.store job_id (codes path) content s.disk);
  },
)

-- `request.mode == "append" and request.chunk_seq is None`
abbrev pub lacks_seq : Mode → Option ℤ → Bool
lacks_seq append none = true
lacks_seq append (some seq) = false
lacks_seq full seq = false

unfoldable pub push_runner_job_file :
    Env
    → String
    → Option Text
    → ℕ
    → String
    → String
    → Mode
    → List ℕ
    → Option ℤ
    → Server
    → Answer Bool
unfolding push_safe
push_runner_job_file env runner_id authorization job_id lease_token path mode content chunk_seq s =
    if not (require_runner_auth env runner_id authorization s.db)
    then (http_error 403, s)
    else elim (require_job_lease job_id runner_id lease_token s.db) [
      | http_error code ↦ (http_error code, s)
      | ok job ↦
          if lacks_seq mode chunk_seq
          then (http_error 422, s)
          else elim (safe_join env.resolve (files_dir env.store job_id) (codes path)) [
            | unsafe e ↦ (http_error 400, s)
            | joined target ↦ push_safe env job_id path mode content chunk_seq s
          ]
    ]

abbrev pub save_reply : SaveResult → Reply ℕ
save_reply (saved size) = ok size
save_reply too_large = http_error 413
save_reply stream_error = http_error 500
save_reply (unsafe_path e) = http_error 400

unfoldable pub upload_runner_job_artifact :
    Env → String → Option Text → ℕ → String → String → List Read → Server → Answer ℕ
upload_runner_job_artifact env runner_id authorization job_id lease_token path stream s =
    let (result, disk') = save_artifact env.resolve env.store job_id (codes path) stream s.disk in
    if not (require_runner_auth env runner_id authorization s.db)
    then (http_error 403, s)
    else elim (require_job_lease job_id runner_id lease_token s.db) [
      | http_error code ↦ (http_error code, s)
      | ok job ↦ (save_reply result, record s { disk = disk' })
    ]
