-- ===== src/Api/Previews.antt =====
-- backend/app/main.py, the preview of a task's zip, with `read_member` of backend/app/services/task_store.py. `zip_of`
-- is what zipfile reads of the stored zip with a fingerprint, `none` where it is no archive; `utf8` is the
-- decoding from UTF-8, which may fail.
use crate_probe.Prelude.{
  ℕ, ◌+◌, Bool, false, Option, none, some, List, [], ◌∷◌, String, if◌then◌else◌, ltb, length, ◌==◌,
}
use crate_probe.FilePath.{Text, text_eq, text_leb}
use crate_probe.Table.{order_by}
use crate_probe.JobFiles.{is_empty}
use crate_probe.Database.Types.{TaskDefRecord}
use crate_probe.Api.Types.{Server, Reply, ok, http_error}
use crate_probe.Api.Tasks.{task_zip_file}

-- a ZipInfo, with its content if that can be read
pub record Member : Type 0 where
  pub filename : Text
  pub file_size : ℕ
  pub compress_size : ℕ
  pub content : Option (List ℕ)

-- `is_dir`: the name ends in a slash
abbrev pub is_dir : Text → Bool
is_dir [] = false
is_dir (c ∷ []) = c == b'/'
is_dir (c ∷ d ∷ cs) = is_dir (d ∷ cs)

-- `rstrip("/")`
unfoldable pub rstrip_slash : Text → Text
rstrip_slash [] = []
rstrip_slash (c ∷ cs) =
    let rest = rstrip_slash cs in
    if c == b'/' then (if is_empty rest then [] else c ∷ rest) else c ∷ rest

-- `TaskFileEntryResponse` and `TaskFilesResponse`
pub record TaskFileEntry : Type 0 where
  pub path : Text
  pub size : ℕ
  pub compressed_size : ℕ
  pub is_directory : Bool

pub record TaskFiles : Type 0 where
  pub entries : List TaskFileEntry
  pub total_size : ℕ

abbrev pub file_entry_of : Member → TaskFileEntry
file_entry_of info = record {
  path = if is_dir info.filename then rstrip_slash info.filename else info.filename;
  size = if is_dir info.filename then 0 else info.file_size;
  compressed_size = info.compress_size;
  is_directory = is_dir info.filename;
}

-- the entries in the order of the archive; one without a name is left out
unfoldable pub entries_of : List Member → List TaskFileEntry
unfolding rstrip_slash
entries_of [] = []
entries_of (info ∷ infos) =
    let rest = entries_of infos in
    if is_empty (file_entry_of info).path then rest else file_entry_of info ∷ rest

unfoldable pub size_of : List TaskFileEntry → ℕ
size_of [] = 0
size_of (e ∷ es) = e.size + size_of es

abbrev pub task_files : Option (List Member) → Reply TaskFiles
task_files none = http_error 500
task_files (some infos) = ok (record {
  entries = order_by (λ (a b : TaskFileEntry). text_leb a.path b.path) (entries_of infos);
  total_size = size_of (entries_of infos);
})

-- a reply for the zip of a task
abbrev pub of_zip : {A : Type 0} → (String → Reply A) → Reply TaskDefRecord → Reply A
of_zip f (ok r) = f r.sha256
of_zip f (http_error status_code) = http_error status_code

unfoldable pub get_task_definition_files :
    (String → Option (List Member)) → ℕ → Server → Reply TaskFiles
unfolding task_zip_file entries_of size_of
get_task_definition_files zip_of task_id s =
    of_zip (λ sha256. task_files (zip_of sha256)) (task_zip_file task_id s)

-- what `read_member` ends with; `unreadable` is an error of the archive
pub data Preview : Type 0 where
  bytes_of : List ℕ → Preview
  missing is_directory too_large unreadable : Preview

-- the last member of a name is the one that is opened
unfoldable pub getinfo : Text → List Member → Option Member
getinfo name [] = none
getinfo name (info ∷ infos) = elim (getinfo name infos) [
  | some later ↦ some later
  | none ↦ if text_eq info.filename name then some info else none
]

abbrev pub capped : ℕ → Option (List ℕ) → Preview
capped max_bytes none = unreadable
capped max_bytes (some bytes) = if ltb max_bytes (length bytes) then too_large else bytes_of bytes

unfoldable pub read_member : ℕ → Text → Option (List Member) → Preview
unfolding getinfo
read_member max_bytes member none = unreadable
read_member max_bytes member (some infos) = elim (getinfo member infos) [
  | none ↦ missing
  | some info ↦ if is_dir info.filename then is_directory else capped max_bytes info.content
]

-- 1 MiB
abbrev pub file_preview_max_bytes : ℕ
file_preview_max_bytes = 1048576

abbrev pub decoded : Option Text → Reply Text
decoded none = http_error 415
decoded (some content) = ok content

abbrev pub preview_reply : (List ℕ → Option Text) → Preview → Reply Text
preview_reply utf8 (bytes_of bytes) = decoded (utf8 bytes)
preview_reply utf8 missing = http_error 404
preview_reply utf8 is_directory = http_error 400
preview_reply utf8 too_large = http_error 413
preview_reply utf8 unreadable = http_error 500

unfoldable pub get_task_definition_file :
    (String → Option (List Member)) → (List ℕ → Option Text) → ℕ → Text → Server → Reply Text
unfolding task_zip_file read_member
get_task_definition_file zip_of utf8 task_id path s =
    of_zip (λ sha256. preview_reply utf8 (read_member file_preview_max_bytes path (zip_of sha256)))
      (task_zip_file task_id s)
