-- ===== src/Examples/Specs.antt =====
-- Task definitions that are accepted.
use crate_probe.TaskSpec.TomlValue.{
  Fields, field, end, text, float, nan, array, table, cons, nil, get_field,
}
use crate_probe.TaskSpec.Regex.{timeout_match, number, some_digits, digits, fraction}
use crate_probe.TaskSpec.{
  TaskSpec, ok, parse_task_spec, parse_limits, parse_mem, parse_optional_timeout, parse_timeout,
  parse_cpu, parse_env, parse_desc, rel_path_list, rel_entries, rel_entry, required_str,
  check_workspace,
}
use crate_probe.TaskSpec.Laws.{IsValid, parse_task_spec-IsValid}
use crate_probe.FilePath.{parts, split_slash, keep_components}
use crate_probe.TaskSpec.Stored.{spec_from_dict, spec_to_dict, spec_from_dict-spec_to_dict}
use crate_probe.Examples.{numbers}
use crate_probe.Prelude.{none, ◌≡◌, some, ◌∷◌, refl, []}

abbrev toml : Fields
toml = field "name" (text "build") (
    field "image" (text "rust") (
      field "cmd" (text "cargo build") (
        field "workspace" (text "/work") (
          field "artifacts" (array (cons (text "target/out.txt") nil))
            (field "limit" (table (field "timeout" (text "10m") end)) end)))))

abbrev spec : TaskSpec
spec = record {
  name = "build";
  image = "rust";
  cmd = "cargo build";
  workspace = "/work";
  desc = none;
  artifacts = "target/out.txt" ∷ [];
  watch = [];
  limits = record { cpu = none; mem = none; timeout_seconds = some 60 };
  env = [];
}

accepted : parse_task_spec numbers toml ≡ ok spec
unfolding parse_task_spec required_str check_workspace parse_desc rel_path_list rel_entries
    rel_entry parse_limits parse_mem parse_optional_timeout parse_timeout parse_cpu parse_env
    timeout_match number some_digits digits fraction get_field parts split_slash keep_components
accepted = refl

parse_task_spec-IsValid_example : IsValid spec
parse_task_spec-IsValid_example = parse_task_spec-IsValid numbers toml {s = spec} accepted

abbrev limits : Fields
limits = field "cpu" (float nan) (field "mem" (text "512m") end)

spec_from_dict-spec_to_dict_example : spec_from_dict (spec_to_dict spec) ≡ some spec
spec_from_dict-spec_to_dict_example = spec_from_dict-spec_to_dict spec
