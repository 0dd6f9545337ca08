-- ===== src/TaskSpec.antt =====
-- backend/core/task_spec.py: the task definition read from task.toml. The bytes are decoded and the
-- TOML parsed by the standard library; the model starts from the parsed table. Floating-point
-- arithmetic and Python's Unicode digits are an argument, `Numbers`.
pub mod TomlValue
pub mod Regex
pub mod Entries
pub mod Laws
pub mod Stored
use crate_probe.Prelude.{
  ℕ, zero, suc, Bool, true, false, not, Option, none, some, List, [], ◌∷◌, ℤ, pos, int_leb,
  if◌then◌else◌, ◌==◌, ltb, map_option, String, str_eq,
}
use crate_probe.FilePath.{Text, codes, text_eq, parts, is_absolute, has_parent}
use crate_probe.TaskSpec.TomlValue.{
  Toml, Items, Fields, text, int, float, bool, date, array, table, nil, cons, end, field, get_field,
  Float, of_int, is_positive,
}
use crate_probe.TaskSpec.Regex.{Numbers, mem_matches, timeout_match}

pub record TaskLimits : Type 0 where
  pub cpu : Option Float
  pub mem : Option String
  pub timeout_seconds : Option ℕ

pub record TaskSpec : Type 0 where
  pub name : String
  pub image : String
  pub cmd : String
  pub workspace : String
  pub desc : Option String
  pub artifacts : List String
  pub watch : List String
  pub limits : TaskLimits
  pub env : List (String × String)

-- the reasons of a TaskSpecError
pub data SpecError : Type 0 where
  required_string relative_workspace bad_desc not_a_list bad_entry empty_entry absolute_entry
        parent_entry bad_limit bad_cpu bad_mem bad_timeout bad_env :
      SpecError

pub data Parsed (A : Type 0) : Type 0 where
  ok : A → Parsed A
  error : SpecError → Parsed A

infixl 5 ◌>>=◌
abbrev pub ◌>>=◌ : {A B : Type 0} → Parsed A → (A → Parsed B) → Parsed B
ok a >>= f = f a
error e >>= f = error e

-- `not value`
abbrev pub no_text : String → Bool
no_text t = str_eq t ""

abbrev pub nonempty : String → Parsed String
nonempty t = if no_text t then error required_string else ok t

unfoldable pub required_str : Fields → String → Parsed String
required_str raw key = elim (get_field raw key) [
  | some (text t) ↦ nonempty t
  | _ ↦ error required_string
]

-- one entry of `artifacts` or `watch`
unfoldable pub rel_entry : Toml → Parsed String
rel_entry (text t) =
    if no_text t
    then error empty_entry
    else if is_absolute (codes t)
    then error absolute_entry
    else if has_parent (parts (codes t))
    then error parent_entry
    else ok t
rel_entry v = error bad_entry

unfoldable pub rel_entries : Items → Parsed (List String)
unfolding rel_entry
rel_entries nil = ok []
rel_entries (cons v vs) = do e ← rel_entry v; es ← rel_entries vs; ok (e ∷ es)

unfoldable pub rel_path_list : Fields → String → Parsed (List String)
unfolding rel_entries
rel_path_list raw key = elim (get_field raw key) [
  | none ↦ ok []
  | some (array items) ↦ rel_entries items
  | some _ ↦ error not_a_list
]

-- `isinstance(cpu, bool) or not isinstance(cpu, (int, float)) or cpu <= 0`; then `float(cpu)`
unfoldable pub parse_cpu : Option Toml → Parsed (Option Float)
parse_cpu none = ok none
parse_cpu (some (int n)) = if int_leb n (pos 0) then error bad_cpu else ok (some (of_int n))
parse_cpu (some (float x)) = if is_positive x then ok (some x) else error bad_cpu
parse_cpu (some _) = error bad_cpu

unfoldable pub parse_mem : Numbers → Option Toml → Parsed (Option String)
parse_mem numbers none = ok none
parse_mem numbers (some (text t)) =
    if mem_matches numbers (codes t) then ok (some t) else error bad_mem
parse_mem numbers (some _) = error bad_mem

abbrev pub positive_seconds : ℕ → Parsed ℕ
positive_seconds zero = error bad_timeout
positive_seconds (suc n) = ok (suc n)

abbrev int_seconds : ℤ → Parsed ℕ
int_seconds (pos n) = positive_seconds n
int_seconds n = error bad_timeout

unfoldable pub parse_timeout : Numbers → Toml → Parsed ℕ
parse_timeout numbers (int n) = int_seconds n
parse_timeout numbers (text t) = elim (timeout_match numbers (codes t)) [
  | none ↦ error bad_timeout
  | some seconds ↦ positive_seconds seconds
]
parse_timeout numbers v = error bad_timeout

unfoldable pub parse_optional_timeout : Numbers → Option Toml → Parsed (Option ℕ)
unfolding parse_timeout
parse_optional_timeout numbers none = ok none
parse_optional_timeout numbers (some v) = do s ← parse_timeout numbers v; ok (some s)

unfoldable pub parse_limits : Numbers → Option Toml → Parsed TaskLimits
unfolding parse_cpu parse_mem parse_optional_timeout
parse_limits numbers none = ok (record { cpu = none; mem = none; timeout_seconds = none })
parse_limits numbers (some (table raw)) = do
  cpu ← parse_cpu (get_field raw "cpu")
  mem ← parse_mem numbers (get_field raw "mem")
  timeout_seconds ← parse_optional_timeout numbers (get_field raw "timeout")
  ok (record { cpu = cpu; mem = mem; timeout_seconds = timeout_seconds })
parse_limits numbers (some _) = error bad_limit

unfoldable pub env_fields : Fields → Parsed (List (String × String))
env_fields end = ok []
env_fields (field key (text v) rest) = do es ← env_fields rest; ok ((key, v) ∷ es)
env_fields (field key _ rest) = error bad_env

unfoldable pub parse_env : Option Toml → Parsed (List (String × String))
unfolding env_fields
parse_env none = ok []
parse_env (some (table raw)) = env_fields raw
parse_env (some _) = error bad_env

unfoldable pub parse_desc : Option Toml → Parsed (Option String)
parse_desc none = ok none
parse_desc (some (text t)) = ok (some t)
parse_desc (some _) = error bad_desc

unfoldable pub check_workspace : String → Parsed String
check_workspace w = if is_absolute (codes w) then ok w else error relative_workspace

unfoldable pub parse_task_spec : Numbers → Fields → Parsed TaskSpec
unfolding required_str check_workspace parse_desc rel_path_list parse_limits parse_env
parse_task_spec numbers raw = do
  name ← required_str raw "name"
  image ← required_str raw "image"
  cmd ← required_str raw "cmd"
  given ← required_str raw "workspace"
  workspace ← check_workspace given
  desc ← parse_desc (get_field raw "desc")
  artifacts ← rel_path_list raw "artifacts"
  watch ← rel_path_list raw "watch"
  limits ← parse_limits numbers (get_field raw "limit")
  env ← parse_env (get_field raw "env")
  ok (record {
    name = name;
    image = image;
    cmd = cmd;
    workspace = workspace;
    desc = desc;
    artifacts = artifacts;
    watch = watch;
    limits = limits;
    env = env;
  })
