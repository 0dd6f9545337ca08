-- ===== src/JobFiles/Reading.antt =====
-- backend/app/services/job_files.py: what is read of the files of a job; backend/app/utils/file_utils.py. `decode` is
-- the decoding of bytes from UTF-8 with errors="replace"; the times of files and failures of the disk are
-- not modelled.
pub mod Lines
use crate_probe.Prelude.{
  ℕ, ◌-◌, Bool, true, false, ◌&&◌, ◌||◌, Option, none, some, List, [], ◌∷◌, ◌++◌, if◌then◌else◌,
  leb, ◌==◌, length, drop, map,
}
use crate_probe.FilePath.{Text, FilePath, is_parent, text_leb}
use crate_probe.Table.{select, order_by}
use crate_probe.JobFiles.{
  FileEntry, Disk, JobFileStore, UnsafePath, Joined, joined, unsafe, read, safe_join, files_dir,
  artifacts_dir, is_empty,
}

-- text mode: `\r\n` and `\r` are read as `\n`; the first argument says whether a `\r` stands before
unfoldable pub universal_newlines : Bool → Text → Text
universal_newlines after_return [] = []
universal_newlines after_return (c ∷ cs) =
    let skipped = universal_newlines false cs in
    let ended = universal_newlines true cs in
    if c == b'\r'
    then b'\n' ∷ ended
    else if c == b'\n' && after_return
    then skipped
    else c ∷ skipped

abbrev pub prepend : ℕ → List Text → List Text
prepend c [] = (c ∷ []) ∷ []
prepend c (line ∷ lines) = (c ∷ line) ∷ lines

-- `readlines`: each line with its `\n`, the last one perhaps without
unfoldable pub readlines : Text → List Text
readlines [] = []
readlines (c ∷ cs) =
    let rest = readlines cs in if c == b'\n' then (c ∷ []) ∷ rest else prepend c rest

-- `line.rstrip("\n\r")`
unfoldable pub rstrip_newlines : Text → Text
rstrip_newlines [] = []
rstrip_newlines (c ∷ cs) =
    let rest = rstrip_newlines cs in
    if is_empty rest && (c == b'\n' || c == b'\r') then [] else c ∷ rest

abbrev pub last_n : ℕ → List Text → List Text
last_n n lines = if leb (length lines) n then lines else drop (length lines - n) lines

-- `read_last_n_lines`, from the decoded content
unfoldable pub read_last_n_lines : ℕ → Text → List Text
unfolding universal_newlines readlines rstrip_newlines
read_last_n_lines n content =
    if leb n 0
    then []
    else last_n n (map rstrip_newlines (readlines (universal_newlines false content)))

-- what a read ends with: a value, a PathSafetyError or a FileNotFoundError
pub data Found (A : Type 0) : Type 0 where
  found : A → Found A
  unsafe_path not_found : Found A

abbrev pub found_if : {A : Type 0} → (List ℕ → A) → Option (List ℕ) → Found A
found_if f none = not_found
found_if f (some bytes) = found (f bytes)

module _ (decode : List ℕ → Text) (resolve : FilePath → FilePath) (store : JobFileStore) where
  unfoldable pub read_tail : ℕ → Text → ℕ → Disk → Found (List Text)
  unfolding read_last_n_lines
  read_tail job_id path lines disk = elim (safe_join resolve (files_dir store job_id) path) [
    | unsafe e ↦ unsafe_path
    | joined target ↦ found_if (λ bytes. read_last_n_lines lines (decode bytes)) (read target disk)
  ]

  unfoldable pub read_raw : ℕ → Text → Disk → Found Text
  unfolding universal_newlines
  read_raw job_id path disk = elim (safe_join resolve (files_dir store job_id) path) [
    | unsafe e ↦ unsafe_path
    | joined target ↦ found_if (λ bytes. universal_newlines false (decode bytes)) (read target disk)
  ]

-- an entry of a listing: the path below the directory, and the size
pub record ListedFile : Type 0 where
  pub path : Text
  pub size : ℕ

-- `as_posix()`
unfoldable pub as_posix : FilePath → Text
as_posix [] = []
as_posix (p ∷ []) = p
as_posix (p ∷ q ∷ ps) = p ++ b'/' ∷ as_posix (q ∷ ps)

-- the files below a directory, sorted by path
unfoldable pub list_below : FilePath → Disk → List ListedFile
unfolding as_posix
list_below base disk =
    order_by (λ (a b : ListedFile). text_leb a.path b.path)
      (map
        (λ (e : FileEntry). record {
          path = as_posix (drop (length base) e.path);
          size = length e.bytes;
        })
        (select (λ (e : FileEntry). is_parent base e.path) disk))

unfoldable pub list_files : JobFileStore → ℕ → Disk → List ListedFile
unfolding list_below
list_files store job_id disk = list_below (files_dir store job_id) disk

unfoldable pub list_artifacts : JobFileStore → ℕ → Disk → List ListedFile
unfolding list_below
list_artifacts store job_id disk = list_below (artifacts_dir store job_id) disk
