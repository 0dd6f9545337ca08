-- ===== src/TaskSpec/Stored.antt =====
-- backend/core/task_spec.py, `spec_to_dict` and `spec_from_dict`: a specification as it is stored with
-- a task definition and sent to runners. `json.dumps` and `json.loads` are the standard library's.
use crate_probe.TaskSpec.{TaskSpec, TaskLimits}
use crate_probe.TaskSpec.TomlValue.{Float}
use crate_probe.Prelude.{
  ℕ, ◌≡◌, refl, Option, none, some, List, [], ◌∷◌, String, str_eq, if◌then◌else◌,
}

infixl 5 ◌>>=◌
abbrev pub ◌>>=◌ {ℓ} : {A B : Type ℓ} → Option A → (A → Option B) → Option B
none >>= f = none
some a >>= f = f a

mutual
  -- the values in the dictionary; a value of another kind is never read
  pub data Json : Type 0 where
    null : Json
    str : String → Json
    real : Float → Json
    whole : ℕ → Json
    list : List String → Json
    object : Dict → Json

  pub data Dict : Type 0 where
    end : Dict
    entry : String → Json → Dict → Dict

-- `d.get(key)`, where a missing key is None
unfoldable pub get_key : Dict → String → Json
get_key end key = null
get_key (entry k v rest) key = if str_eq k key then v else get_key rest key

-- a value that may be None
abbrev pub or_null : {A : Type 0} → (A → Json) → Option A → Json
or_null f none = null
or_null f (some a) = f a

-- `dict(spec.env)`
unfoldable pub env_to_dict : List (String × String) → Dict
env_to_dict [] = end
env_to_dict ((key, v) ∷ rest) = entry key (str v) (env_to_dict rest)

unfoldable pub spec_to_dict : TaskSpec → Dict
unfolding env_to_dict
spec_to_dict s = entry "name" (str s.name) (
    entry "image" (str s.image) (
      entry "cmd" (str s.cmd) (
        entry "workspace" (str s.workspace) (
          entry "desc" (or_null str s.desc) (
            entry "artifacts" (list s.artifacts) (
              entry "watch" (list s.watch) (
                entry "limits"
                  (object (
                    entry "cpu" (or_null real s.limits.cpu) (
                      entry "mem" (or_null str s.limits.mem)
                        (entry "timeout_seconds" (or_null whole s.limits.timeout_seconds) end))))
                  (entry "env" (object (env_to_dict s.env)) end))))))))

-- `none` is the KeyError of a missing key, or a value of a kind that `spec_to_dict` does not write
abbrev pub as_str : Json → Option String
as_str (str t) = some t
as_str v = none

abbrev pub as_optional_str : Json → Option (Option String)
as_optional_str null = some none
as_optional_str (str t) = some (some t)
as_optional_str v = none

abbrev pub as_optional_real : Json → Option (Option Float)
as_optional_real null = some none
as_optional_real (real x) = some (some x)
as_optional_real v = none

abbrev pub as_optional_whole : Json → Option (Option ℕ)
as_optional_whole null = some none
as_optional_whole (whole n) = some (some n)
as_optional_whole v = none

-- `list(d.get(key) or [])`
abbrev pub as_list : Json → Option (List String)
as_list null = some []
as_list (list ts) = some ts
as_list v = none

-- `d.get(key) or {}`
abbrev pub as_object : Json → Option Dict
as_object null = some end
as_object (object d) = some d
as_object v = none

unfoldable pub env_from_dict : Dict → Option (List (String × String))
env_from_dict end = some []
env_from_dict (entry key v rest) = do t ← as_str v; es ← env_from_dict rest; some ((key, t) ∷ es)

unfoldable pub limits_from_dict : Dict → Option TaskLimits
unfolding get_key
limits_from_dict d = do
  cpu ← as_optional_real (get_key d "cpu")
  mem ← as_optional_str (get_key d "mem")
  timeout_seconds ← as_optional_whole (get_key d "timeout_seconds")
  some (record { cpu = cpu; mem = mem; timeout_seconds = timeout_seconds })

unfoldable pub spec_from_dict : Dict → Option TaskSpec
unfolding get_key limits_from_dict env_from_dict
spec_from_dict d = do
  raw_limits ← as_object (get_key d "limits")
  name ← as_str (get_key d "name")
  image ← as_str (get_key d "image")
  cmd ← as_str (get_key d "cmd")
  workspace ← as_str (get_key d "workspace")
  desc ← as_optional_str (get_key d "desc")
  artifacts ← as_list (get_key d "artifacts")
  watch ← as_list (get_key d "watch")
  limits ← limits_from_dict raw_limits
  raw_env ← as_object (get_key d "env")
  env ← env_from_dict raw_env
  some (record {
    name = name;
    image = image;
    cmd = cmd;
    workspace = workspace;
    desc = desc;
    artifacts = artifacts;
    watch = watch;
    limits = limits;
    env = env;
  })

env_round : (env : List (String × String)) → env_from_dict (env_to_dict env) ≡ some env
unfolding env_from_dict env_to_dict
env_round [] = refl
env_round ((key, v) ∷ rest) = rw (env_round rest) refl

str_round : (o : Option String) → as_optional_str (or_null str o) ≡ some o
str_round none = refl
str_round (some t) = refl

real_round : (o : Option Float) → as_optional_real (or_null real o) ≡ some o
real_round none = refl
real_round (some x) = refl

whole_round : (o : Option ℕ) → as_optional_whole (or_null whole o) ≡ some o
whole_round none = refl
whole_round (some n) = refl

-- A specification is read back from its dictionary as it was.
pub spec_from_dict-spec_to_dict : (s : TaskSpec) → spec_from_dict (spec_to_dict s) ≡ some s
unfolding spec_from_dict spec_to_dict limits_from_dict get_key
spec_from_dict-spec_to_dict s =
    rw
      (
        str_round s.desc,
        real_round s.limits.cpu,
        str_round s.limits.mem,
        whole_round s.limits.timeout_seconds,
        env_round s.env,
      )
      refl
