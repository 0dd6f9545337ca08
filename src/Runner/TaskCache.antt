-- ===== src/Runner/TaskCache.antt =====
-- backend/runner/task_cache.py, `TaskCache`: the task zips that a runner holds on its disk. The
-- bytes of a zip are an `Upload`, by what zipfile and sha256 make of them; an error of the extraction is an
-- argument.
pub mod Genuine
use crate_probe.Prelude.{
  ℕ, [], ◌∷◌, Bool, true, false, Option, none, some, List, String, str_eq, if◌then◌else◌, ◌==◌,
  opt_str_eq,
}
use crate_probe.TaskStore.{Upload, ZipEntry, ZipError, bad_name}
use crate_probe.Runner.{HttpResult, body, status_error, network_error, exhausted}

-- the directory of a task: the entries that were extracted, and the text of `.sha256` without the
-- white space around it
pub record TaskDir : Type 0 where
  pub marker : Option String
  pub entries : List ZipEntry

-- the directories under `cache_dir`, by task id
abbrev pub Dirs : Type 0
Dirs = ℕ → Option TaskDir

-- the reasons of a TaskFetchError
pub data FetchError : Type 0 where
  zip_not_found download_failed sha256_mismatch invalid_zip corrupted : FetchError
  bad_entry : ZipError → FetchError

pub data Fetched (A : Type 0) : Type 0 where
  ok : A → Fetched A
  error : FetchError → Fetched A

infixl 5 ◌>>=◌
abbrev pub ◌>>=◌ : {A B : Type 0} → Fetched A → (A → Fetched B) → Fetched B
ok a >>= f = f a
error e >>= f = error e

abbrev pub has_marker : Option TaskDir → String → Bool
has_marker none sha256 = false
has_marker (some dir) sha256 = opt_str_eq dir.marker sha256

unfoldable pub is_hit : ℕ → String → Dirs → Bool
is_hit task_id sha256 dirs = has_marker (dirs task_id) sha256

-- `_download`: the zip, or the error that the client raised
unfoldable pub download : HttpResult Upload → Fetched Upload
download (body zip) = ok zip
download (status_error status) = error (if status == 404 then zip_not_found else download_failed)
download network_error = error download_failed
download exhausted = error download_failed

unfoldable pub verify_sha256 : Upload → String → Fetched Upload
verify_sha256 zip expected = if str_eq zip.sha256 expected then ok zip else error sha256_mismatch

unfoldable pub validate_entries : List ZipEntry → Fetched (List ZipEntry)
validate_entries entries = elim (bad_name entries) [
  | some e ↦ error (bad_entry e)
  | none ↦ ok entries
]

abbrev pub open_zip : Option (List ZipEntry) → Fetched (List ZipEntry)
open_zip none = error invalid_zip
open_zip (some entries) = ok entries

abbrev pub extract : Bool → List ZipEntry → Fetched (List ZipEntry)
extract extracts entries = if extracts then ok entries else error corrupted

-- `_install` up to the rename: what stands in the temporary directory
unfoldable pub extracted : Bool → Upload → String → Fetched TaskDir
unfolding validate_entries
extracted extracts zip sha256 = do
  entries ← open_zip zip.archive
  entries' ← validate_entries entries
  entries'' ← extract extracts entries'
  ok (record { marker = some sha256; entries = entries'' })

unfoldable pub replace : ℕ → TaskDir → Dirs → Dirs
replace task_id dir dirs k = if k == task_id then some dir else dirs k

-- the fetch under the lock, from the reply of the client
unfoldable pub fetch : HttpResult Upload → Bool → String → Fetched TaskDir
unfolding download verify_sha256 extracted
fetch reply extracts sha256 = do
  zip ← download reply
  zip' ← verify_sha256 zip sha256
  extracted extracts zip' sha256

abbrev pub installed : ℕ → Dirs → Fetched TaskDir → Fetched (Unit {0}) × Dirs
installed task_id dirs (ok dir) = (ok tt, replace task_id dir dirs)
installed task_id dirs (error e) = (error e, dirs)

-- `ensure`. `waited` is what others do to the directories while it waits for the lock; `reply` is what
-- the client returns if it is asked.
unfoldable pub ensure :
    (Dirs → Dirs) → HttpResult Upload → Bool → ℕ → String → Dirs → Fetched (Unit {0}) × Dirs
unfolding is_hit fetch replace
ensure waited reply extracts task_id sha256 dirs =
    if is_hit task_id sha256 dirs
    then (ok tt, dirs)
    else if is_hit task_id sha256 (waited dirs)
    then (ok tt, waited dirs)
    else installed task_id (waited dirs) (fetch reply extracts sha256)
