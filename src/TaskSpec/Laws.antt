-- ===== src/TaskSpec/Laws.antt =====
-- backend/core/task_spec.py, `parse_task_spec`: what a specification that is accepted satisfies.
use crate_probe.FilePath.{codes, is_absolute}
use crate_probe.TaskSpec.TomlValue.{Toml, Fields, text, int, float, table, get_field, nan}
use crate_probe.TaskSpec.Regex.{Numbers, timeout_match}
use crate_probe.TaskSpec.{
  TaskSpec, TaskLimits, ok, error, ◌>>=◌, rel_path_list, required_str, check_workspace, parse_desc,
  parse_limits, parse_env, parse_task_spec, parse_timeout, parse_optional_timeout, parse_cpu,
  parse_mem, nonempty, positive_seconds, required_string, bad_timeout, no_text,
}
use crate_probe.Prelude.{
  ◌≢◌, ◌≡◌, All, refl, ℕ, Option, Bool-cases, inl, inr, none, some, true, ◌<◌, pos, subst, suc,
  negsuc, arith, zero, String,
}
use crate_probe.TaskSpec.Entries.{
  IsContained, Ensures, bind-Ensures, Any, anything, not_empty, rel_path_list-IsContained,
}

nonempty-ne-nil : (t : String) → Ensures (λ u. u ≢ "") (nonempty t)
nonempty-ne-nil t = elim (Bool-cases (no_text t)) [ inl z ↦ rw z tt | inr n ↦ rw n (not_empty t n) ]

required_str-ne-nil : (raw : Fields) (key : String) → Ensures (λ t. t ≢ "") (required_str raw key)
unfolding required_str
required_str-ne-nil raw key = go (get_field raw key)
  where
    go :
        (v : Option Toml)
        → Ensures (λ t. t ≢ "") (elim v [ some (text t) ↦ nonempty t | _ ↦ error required_string ])
    go (some (text t)) = nonempty-ne-nil t
    go _ = tt

check_workspace-absolute :
    (w : String) → Ensures (λ t. is_absolute (codes t) ≡ true) (check_workspace w)
unfolding check_workspace
check_workspace-absolute w = elim (Bool-cases (is_absolute (codes w))) [
  | inl a ↦ rw a a
  | inr r ↦ rw r tt
]

abbrev IsPositive : ℕ → Type 0
IsPositive n = 0 < n

positive_seconds-pos : (n : ℕ) → Ensures IsPositive (positive_seconds n)
positive_seconds-pos zero = tt
positive_seconds-pos (suc n) = omega arith

parse_timeout-pos : (numbers : Numbers) (v : Toml) → Ensures IsPositive (parse_timeout numbers v)
unfolding parse_timeout
parse_timeout-pos numbers (int (pos n)) = positive_seconds-pos n
parse_timeout-pos numbers (int (negsuc n)) = tt
parse_timeout-pos numbers (text t) = go (timeout_match numbers (codes t))
  where
    go :
        (v : Option ℕ)
        → Ensures IsPositive
            (elim v [ none ↦ error bad_timeout | some seconds ↦ positive_seconds seconds ])
    go none = tt
    go (some n) = positive_seconds-pos n
parse_timeout-pos numbers _ = tt

-- A duration, if there is one, is at least a second.
abbrev pub HasPositiveTimeout : TaskLimits → Type 0
HasPositiveTimeout l = (n : ℕ) → l.timeout_seconds ≡ some n → 0 < n

timeout-positive :
    (numbers : Numbers) (v : Option Toml)
    → Ensures (λ o. (n : ℕ) → o ≡ some n → 0 < n) (parse_optional_timeout numbers v)
unfolding parse_optional_timeout
timeout-positive numbers none = λ n e. cc
timeout-positive numbers (some v) =
    bind-Ensures IsPositive (λ o. (n : ℕ) → o ≡ some n → 0 < n) (parse_timeout numbers v) _
      (parse_timeout-pos numbers v) λ s h n e. ground arith

parse_limits-HasPositiveTimeout :
    (numbers : Numbers) (v : Option Toml) → Ensures HasPositiveTimeout (parse_limits numbers v)
unfolding parse_limits
parse_limits-HasPositiveTimeout numbers none = λ n e. cc
parse_limits-HasPositiveTimeout numbers (some (table raw)) =
    bind-Ensures Any HasPositiveTimeout (parse_cpu (get_field raw "cpu")) _ (anything _) λ cpu a.
      bind-Ensures Any HasPositiveTimeout (parse_mem numbers (get_field raw "mem")) _ (anything _)
        λ mem b.
          bind-Ensures (λ o. (n : ℕ) → o ≡ some n → 0 < n) HasPositiveTimeout
            (parse_optional_timeout numbers (get_field raw "timeout")) _
            (timeout-positive numbers (get_field raw "timeout")) λ t h. h
parse_limits-HasPositiveTimeout numbers (some _) = tt

-- What the rest of the program relies on in a specification.
pub record IsValid (s : TaskSpec) : Type 0 where
  pub named : s.name ≢ ""
  pub has_image : s.image ≢ ""
  pub has_cmd : s.cmd ≢ ""
  pub absolute_workspace : is_absolute (codes s.workspace) ≡ true
  pub artifacts_inside : All IsContained s.artifacts
  pub watch_inside : All IsContained s.watch
  pub timeout_positive : HasPositiveTimeout s.limits

workspace-Ensures :
    (numbers : Numbers) (raw : Fields) (name image cmd : String)
    → name ≢ ""
    → image ≢ ""
    → cmd ≢ ""
    → (given : String)
    → Ensures IsValid (
        check_workspace given >>= λ workspace. parse_desc (get_field raw "desc") >>= λ desc.
        rel_path_list raw "artifacts" >>= λ artifacts. rel_path_list raw "watch" >>= λ watch.
        parse_limits numbers (get_field raw "limit") >>= λ limits.
        parse_env (get_field raw "env") >>= λ env. ok (record {
          name = name;
          image = image;
          cmd = cmd;
          workspace = workspace;
          desc = desc;
          artifacts = artifacts;
          watch = watch;
          limits = limits;
          env = env;
        }))
workspace-Ensures numbers raw name image cmd h1 h2 h3 given =
    bind-Ensures (λ t. is_absolute (codes t) ≡ true) IsValid (check_workspace given) _
      (check_workspace-absolute given)
      λ workspace h4.
        bind-Ensures Any IsValid (parse_desc (get_field raw "desc")) _ (anything _) λ desc a.
          bind-Ensures (All IsContained) IsValid (rel_path_list raw "artifacts") _
            (rel_path_list-IsContained raw _)
            λ artifacts h5.
              bind-Ensures (All IsContained) IsValid (rel_path_list raw "watch") _
                (rel_path_list-IsContained raw _)
                λ watch h6.
                  bind-Ensures HasPositiveTimeout IsValid
                    (parse_limits numbers (get_field raw "limit")) _
                    (parse_limits-HasPositiveTimeout numbers _)
                    λ limits h7.
                      bind-Ensures Any IsValid (parse_env (get_field raw "env")) _ (anything _)
                        λ env b. record {
                          named = h1;
                          has_image = h2;
                          has_cmd = h3;
                          absolute_workspace = h4;
                          artifacts_inside = h5;
                          watch_inside = h6;
                          timeout_positive = h7;
                        }

parse_task_spec-Ensures :
    (numbers : Numbers) (raw : Fields) → Ensures IsValid (parse_task_spec numbers raw)
unfolding parse_task_spec
parse_task_spec-Ensures numbers raw =
    bind-Ensures (λ t. t ≢ "") IsValid (required_str raw "name") _ (required_str-ne-nil raw _)
      λ name h1.
        bind-Ensures (λ t. t ≢ "") IsValid (required_str raw "image") _ (required_str-ne-nil raw _)
          λ image h2.
            bind-Ensures (λ t. t ≢ "") IsValid (required_str raw "cmd") _
              (required_str-ne-nil raw _)
              λ cmd h3.
                bind-Ensures Any IsValid (required_str raw "workspace") _ (anything _)
                  λ given a. workspace-Ensures numbers raw name image cmd h1 h2 h3 given

-- A task.toml that is accepted has a name, an image and a command, an absolute workspace, artifacts
-- and watched files that are relative paths inside it, and a timeout, if any, of at least a second.
pub parse_task_spec-IsValid :
    (numbers : Numbers) (raw : Fields) {s : TaskSpec}
    → parse_task_spec numbers raw ≡ ok s
    → IsValid s
parse_task_spec-IsValid numbers raw h =
    subst (Ensures IsValid) h (parse_task_spec-Ensures numbers raw)

-- A CPU limit that is not a number is accepted, since no comparison with it is true: the limits are
-- then those of the other two keys, with the CPU limit not a number.
pub parse_limits-nan :
    (numbers : Numbers) (raw : Fields) (mem : Option String) (seconds : Option ℕ)
    → get_field raw "cpu" ≡ some (float nan)
    → parse_mem numbers (get_field raw "mem") ≡ ok mem
    → parse_optional_timeout numbers (get_field raw "timeout") ≡ ok seconds
    → parse_limits numbers (some (table raw))
      ≡ ok (record { cpu = some nan; mem = mem; timeout_seconds = seconds })
unfolding parse_limits parse_cpu
parse_limits-nan numbers raw mem seconds c m t = rw (c, m, t) refl
