-- ===== src/TaskStore.antt =====
-- backend/app/services/task_store.py: validation and storage of uploaded task zips. A zip is what
-- zipfile reads of its bytes; the disk is the list of the fingerprints whose zip is stored.
pub mod Laws
use crate_probe.FilePath.{codes, parts, is_absolute, has_parent}
use crate_probe.TaskSpec.TomlValue.{Fields}
use crate_probe.TaskSpec.Regex.{Numbers}
use crate_probe.TaskSpec.{TaskSpec, parse_task_spec}
use crate_probe.TaskSpec
use crate_probe.Prelude.{
  ℕ, Bool, true, false, not, ◌||◌, Option, none, some, List, [], ◌∷◌, String, str_eq, if◌then◌else◌,
  ltb,
}

-- An entry of the archive: its name, its decompressed size if it can be read, and its TOML table if
-- it is one in UTF-8.
pub record ZipEntry : Type 0 where
  pub name : String
  pub size : Option ℕ
  pub toml : Option Fields

-- The bytes of an upload by what the code asks of them: their number, their sha256, and the entries
-- of the archive, if they are one.
pub record Upload : Type 0 where
  pub size : ℕ
  pub sha256 : String
  pub archive : Option (List ZipEntry)

-- the reasons of a ZipValidationError
pub data ZipError : Type 0 where
  unreadable absolute_name escaping_name missing_toml toml_too_large invalid_spec : ZipError

pub data Checked (A : Type 0) : Type 0 where
  valid : A → Checked A
  rejected : ZipError → Checked A

abbrev pub task_toml_max_bytes : ℕ
task_toml_max_bytes = 1048576

-- `_validate_entry_name` over `namelist()`: the first error, if any
unfoldable pub bad_name : List ZipEntry → Option ZipError
bad_name [] = none
bad_name (e ∷ es) =
    let rest = bad_name es in
    if is_absolute (codes e.name)
    then some absolute_name
    else if has_parent (parts (codes e.name))
    then some escaping_name
    else rest

-- the last entry of a name is the one that is opened
unfoldable pub get_entry : String → List ZipEntry → Option ZipEntry
get_entry name [] = none
get_entry name (e ∷ es) = elim (get_entry name es) [
  | some later ↦ some later
  | none ↦ if str_eq e.name name then some e else none
]

unfoldable pub parse_toml : Numbers → Option Fields → Checked TaskSpec
parse_toml numbers none = rejected invalid_spec
parse_toml numbers (some raw) = elim (parse_task_spec numbers raw) [
  | TaskSpec.ok spec ↦ valid spec
  | TaskSpec.error e ↦ rejected invalid_spec
]

unfoldable pub read_toml : Numbers → Option ZipEntry → Checked TaskSpec
unfolding parse_toml
read_toml numbers none = rejected missing_toml
read_toml numbers (some e) = elim e.size [
  | none ↦ rejected unreadable
  | some n ↦
      if ltb task_toml_max_bytes n then rejected toml_too_large else parse_toml numbers e.toml
]

unfoldable pub validate : Numbers → Upload → Checked TaskSpec
unfolding bad_name get_entry read_toml
validate numbers upload = elim upload.archive [
  | none ↦ rejected unreadable
  | some entries ↦ elim (bad_name entries) [
    | some e ↦ rejected e
    | none ↦ read_toml numbers (get_entry "task.toml" entries)
  ]
]

abbrev pub Zips : Type 0
Zips = List String

abbrev pub has_zip : String → Zips → Bool
has_zip sha [] = false
has_zip sha (z ∷ zs) = str_eq z sha || has_zip sha zs

unfoldable pub delete_zip : String → Zips → Zips
delete_zip sha [] = []
delete_zip sha (z ∷ zs) = let rest = delete_zip sha zs in if str_eq z sha then rest else z ∷ rest

-- the zip is written unless it is there
unfoldable pub store_zip : String → Zips → Zips
store_zip sha zips = if has_zip sha zips then zips else sha ∷ zips

unfoldable pub ingest_zip : Numbers → Upload → Zips → Checked TaskSpec × Zips
unfolding validate store_zip
ingest_zip numbers upload zips = elim (validate numbers upload) [
  | rejected e ↦ (rejected e, zips)
  | valid spec ↦ (valid spec, store_zip upload.sha256 zips)
]
