-- ===== src/JobFiles.antt =====
-- backend/app/services/job_files.py: the files that a runner pushes for a job and the artifacts that
-- it uploads. The disk is a list of files by absolute path; `resolve`, which follows symbolic links,
-- is an argument. Contents are bytes, `content.encode("utf-8")` for a pushed text.
pub mod Safety
pub mod Contents
pub mod Clearing
pub mod Reading
use crate_probe.FilePath.Decimal.{decimal}
use crate_probe.FilePath.{Text, FilePath, codes, path_eq, is_parent, parts, is_absolute, has_parent}
use crate_probe.Table.{find, delete}
use crate_probe.Prelude.{
  ℕ, ◌+◌, ◌-◌, Bool, true, false, not, ◌&&◌, Option, none, some, List, [], ◌∷◌, ◌++◌, if◌then◌else◌,
  ltb, length, drop, map_option, String,
}

-- the messages of PathSafetyError
pub data UnsafePath : Type 0 where
  empty_path absolute_path parent_traversal escapes_base : UnsafePath

pub data Joined : Type 0 where
  joined : FilePath → Joined
  unsafe : UnsafePath → Joined

abbrev pub is_empty : {A : Type 0} → List A → Bool
is_empty [] = true
is_empty (x ∷ xs) = false

unfoldable pub safe_join : (FilePath → FilePath) → FilePath → Text → Joined
safe_join resolve base rel =
    let base_resolved = resolve base in
    let resolved = resolve (base_resolved ++ parts rel) in
    if is_empty rel
    then unsafe empty_path
    else if is_absolute rel
    then unsafe absolute_path
    else if has_parent (parts rel)
    then unsafe parent_traversal
    else if is_empty (parts rel)
    then unsafe empty_path
    else if not (path_eq resolved base_resolved) && not (is_parent base_resolved resolved)
    then unsafe escapes_base
    else joined resolved

pub record FileEntry : Type 0 where
  pub path : FilePath
  pub bytes : List ℕ

abbrev pub Disk : Type 0
Disk = List FileEntry

unfoldable pub read : FilePath → Disk → Option (List ℕ)
read p disk = map_option (λ (e : FileEntry). e.bytes) (find (λ e. path_eq e.path p) disk)

-- `path.unlink(missing_ok=True)`
unfoldable pub unlink : FilePath → Disk → Disk
unlink p disk = delete (λ e. path_eq e.path p) disk

-- `open(path, "wb")` and one write
unfoldable pub write : FilePath → List ℕ → Disk → Disk
unfolding unlink
write p bytes disk = (record { path = p; bytes = bytes }) ∷ unlink p disk

-- `open(path, "a")` and one write
unfoldable pub append : FilePath → List ℕ → Disk → Disk
unfolding read write
append p bytes disk = elim (read p disk) [
  | none ↦ write p bytes disk
  | some old ↦ write p (old ++ bytes) disk
]

-- `shutil.rmtree(directory, ignore_errors=True)`
unfoldable pub rmtree : FilePath → Disk → Disk
rmtree directory disk = delete (λ e. is_parent directory e.path) disk

-- `JobFileStore`: the workspace and its two limits
pub record JobFileStore : Type 0 where
  pub workspace : FilePath
  pub full_mode_max_bytes : ℕ
  pub artifact_max_bytes : ℕ

unfoldable pub job_dir : JobFileStore → ℕ → String → FilePath
job_dir store job_id tree = store.workspace ++ (codes "jobs" ∷ decimal job_id ∷ codes tree ∷ [])

unfoldable pub files_dir : JobFileStore → ℕ → FilePath
unfolding job_dir
files_dir store job_id = job_dir store job_id "files"

unfoldable pub artifacts_dir : JobFileStore → ℕ → FilePath
unfolding job_dir
artifacts_dir store job_id = job_dir store job_id "artifacts"

-- `data[-n:]`, which is all of `data` when n is 0
abbrev pub last_bytes : ℕ → List ℕ → List ℕ
last_bytes n xs = if ltb 0 n then drop (length xs - n) xs else xs

-- what `write_full` keeps
unfoldable pub kept : JobFileStore → List ℕ → List ℕ
kept store content =
    if ltb store.full_mode_max_bytes (length content)
    then last_bytes store.full_mode_max_bytes content
    else content

-- a disk after the operation, or the PathSafetyError that left it alone
pub data Stored : Type 0 where
  stored : Disk → Stored
  refused : UnsafePath → Stored

module _ (resolve : FilePath → FilePath) (store : JobFileStore) where
  unfoldable pub append_file : ℕ → Text → List ℕ → Disk → Stored
  append_file job_id path content disk = elim (safe_join resolve (files_dir store job_id) path) [
    | joined target ↦ stored (append target content disk)
    | unsafe e ↦ refused e
  ]

  unfoldable pub write_full : ℕ → Text → List ℕ → Disk → Stored
  unfolding kept
  write_full job_id path content disk = elim (safe_join resolve (files_dir store job_id) path) [
    | joined target ↦ stored (write target (kept store content) disk)
    | unsafe e ↦ refused e
  ]

-- one `stream.read(...)`: a chunk that is not empty, or an exception; the list's end is the stream's
pub data Read : Type 0 where
  chunk : List ℕ → Read
  broken : Read

pub data SaveResult : Type 0 where
  saved : ℕ → SaveResult
  too_large stream_error : SaveResult
  unsafe_path : UnsafePath → SaveResult

-- the loop: the total, and what was written so far
unfoldable pub save_loop : ℕ → ℕ → List ℕ → List Read → SaveResult × List ℕ
save_loop cap total written [] = (saved total, written)
save_loop cap total written (broken ∷ rest) = (stream_error, written)
save_loop cap total written (chunk bytes ∷ rest) =
    let next = save_loop cap (total + length bytes) (written ++ bytes) rest in
    if ltb cap (total + length bytes) then (too_large, written) else next

-- the file is removed unless the whole stream was written
unfoldable pub settle : FilePath → Disk → SaveResult × List ℕ → SaveResult × Disk
settle target disk (saved total, written) = (saved total, write target written disk)
settle target disk (e, written) = (e, unlink target (write target written disk))

unfoldable pub save_artifact :
    (FilePath → FilePath) → JobFileStore → ℕ → Text → List Read → Disk → SaveResult × Disk
unfolding save_loop settle
save_artifact resolve store job_id path stream disk =
    elim (safe_join resolve (artifacts_dir store job_id) path) [
      | unsafe e ↦ (unsafe_path e, disk)
      | joined target ↦ settle target disk (save_loop store.artifact_max_bytes 0 [] stream)
    ]

unfoldable pub artifact_file_path : (FilePath → FilePath) → JobFileStore → ℕ → Text → Joined
artifact_file_path resolve store job_id path = safe_join resolve (artifacts_dir store job_id) path

unfoldable pub clear : JobFileStore → ℕ → Disk → Disk
unfolding rmtree
clear store job_id disk = rmtree (artifacts_dir store job_id) (rmtree (files_dir store job_id) disk)
