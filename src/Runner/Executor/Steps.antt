-- ===== src/Runner/Executor/Steps.antt =====
-- backend/runner/executor.py, `execute_claimed_job`: the steps of a job and the status it ends with. The
-- steps that work on the disk and with Docker are arguments; a step maps the state of the machine to what
-- it ends with and the state after it.
use Prim.Native.String.{◌++◌ as str_append}
use crate_probe.Prelude.{
  ℕ, suc, ◌+◌, [], ◌∷◌, Bool, true, Option, none, some, List, String, str_eq, if◌then◌else◌, ◌≡◌,
  refl, arith, ◌⊎◌, inl, inr,
}
use crate_probe.Models.{failed, value, of_value-value, is_terminal, ExecutionResult}
use crate_probe.Api.Files.{Mode, append, full}
use crate_probe.TaskSpec.TomlValue.{Fields}
use crate_probe.TaskSpec.Regex.{Numbers}
use crate_probe.TaskSpec.{TaskSpec, parse_task_spec}
use crate_probe.TaskSpec
use crate_probe.Runner.Executor.{Wake, ended}
use crate_probe.Runner.Executor.Acks.{EndsJob}

-- a value, an exception with its text, or a CancelledError
pub data Ending (A : Type 0) : Type 0 where
  returns : A → Ending A
  raises : String → Ending A
  interrupted : Ending A

-- the three arguments of `set_terminal`
unfoldable pub terminal_of : Ending ExecutionResult → Wake
terminal_of (returns result) =
    ended (value result.state) (some result.exit_code) (some result.message)
terminal_of (raises error) = ended (value failed) none (some error)
terminal_of interrupted = ended (value failed) none (some "Job interrupted by shutdown")

-- `_load_task_spec`: the table of task.toml, if the file is there
unfoldable pub load_task_spec :
    (ℕ → String) → (TaskSpec.SpecError → String) → Numbers → ℕ → Option Fields → Ending TaskSpec
load_task_spec show text_of numbers task_id none =
    raises (str_append "task " (str_append (show task_id) " zip does not contain task.toml"))
load_task_spec show text_of numbers task_id (some raw) = elim (parse_task_spec numbers raw) [
  | TaskSpec.ok spec ↦ returns spec
  | TaskSpec.error e ↦ raises (text_of e)
]

-- `file_specs[remote_path] = (local_path, mode)`, for the dictionary in the order of its keys
unfoldable pub set_spec : String → Mode → List (String × Mode) → List (String × Mode)
set_spec path mode [] = (path, mode) ∷ []
set_spec path mode ((p, m) ∷ specs) =
    let rest = set_spec path mode specs in
    if str_eq p path then (p, mode) ∷ specs else (p, m) ∷ rest

unfoldable pub watch_specs : List String → List (String × Mode) → List (String × Mode)
unfolding set_spec
watch_specs [] specs = specs
watch_specs (path ∷ watch) specs = watch_specs watch (set_spec path full specs)

-- the files that the reporter pushes
unfoldable pub file_specs : TaskSpec → List (String × Mode)
unfolding watch_specs
file_specs spec =
    watch_specs spec.watch
      (("stdout.log", append) ∷ ("stderr.log", append) ∷ ("runner.log", append) ∷ [])

-- a step over the state of the machine
abbrev pub Step : Type 0 → Type 0 → Type 0
Step W A = W → Ending A × W

infixl 5 ◌>>=◌ ◌>>◌
abbrev pub ◌>>=◌ : {W A B : Type 0} → Step W A → (A → Step W B) → Step W B
◌>>=◌ m f w =
    let (ending, w') = m w in
    elim ending [ returns a ↦ f a w' | raises e ↦ (raises e, w') | interrupted ↦ (interrupted, w') ]

abbrev pub ◌>>◌ : {W B : Type 0} → Step W (Unit {0}) → Step W B → Step W B
m >> k = m >>= λ _. k

abbrev pub pure : {W A : Type 0} → A → Step W A
pure a w = (returns a, w)

-- `if not available: raise RuntimeError(...)`
abbrev pub check : {W : Type 0} → Bool → String → Step W (Unit {0})
check ok error w = (if ok then returns tt else raises error, w)

module _ {W : Type 0} where
  -- `_upload_artifacts` over the files of one entry: a failed upload is logged, and the next is made
  unfoldable pub upload_files : (String → W → Bool × W) → List String → W → ℕ × W
  upload_files upload [] w = (0, w)
  upload_files upload (path ∷ paths) w =
      let (ok, w') = upload path w in
      let (uploaded, w'') = upload_files upload paths w' in
      (if ok then suc uploaded else uploaded, w'')

  -- the entries of `artifacts`, each with the files found for it; a missing one has none
  unfoldable pub upload_artifacts : (String → W → Bool × W) → List (List String) → W → ℕ × W
  unfolding upload_files
  upload_artifacts upload [] w = (0, w)
  upload_artifacts upload (paths ∷ artifacts) w =
      let (n, w') = upload_files upload paths w in
      let (m, w'') = upload_artifacts upload artifacts w' in (n + m, w'')

-- the steps of a job that the executor takes from elsewhere
pub record Machine (W : Type 0) : Type 0 where
  pub ensure : Step W (Unit {0})
  pub load : Step W TaskSpec
  pub is_available : Step W Bool
  pub ensure_image : String → Step W Bool
  pub prepare_workspace : TaskSpec → Step W (Unit {0})
  pub overlay_task_files : Step W (Unit {0})
  pub docker_run : TaskSpec → Step W ExecutionResult
  pub upload : TaskSpec → Step W (Unit {0})

module _ {W : Type 0} (m : Machine W) where
  unfoldable pub run_command : TaskSpec → Step W ExecutionResult
  run_command spec = do
    m.prepare_workspace spec
    m.overlay_task_files
    result ← m.docker_run spec
    m.upload spec
    pure result

  unfoldable pub with_image : TaskSpec → Bool → Step W ExecutionResult
  unfolding run_command
  with_image spec has_image = do
    check has_image (str_append "Docker image " (str_append spec.image " is not available"))
    run_command spec

  unfoldable pub with_spec : TaskSpec → Step W ExecutionResult
  unfolding with_image
  with_spec spec = do
    available ← m.is_available
    check available "Docker is not available"
    has_image ← m.ensure_image spec.image
    with_image spec has_image

  -- the steps, up to the result that decides the status
  unfoldable pub execute : Step W ExecutionResult
  unfolding with_spec
  execute = do m.ensure; spec ← m.load; with_spec spec

-- Whether a result says that the job ended; without a result it counts as failed.
abbrev pub ends_well : Ending ExecutionResult → Bool
ends_well (returns result) = is_terminal result.state
ends_well (raises e) = true
ends_well interrupted = true

Ending-cases :
    {A : Type 0} (r : Ending A)
    → ((a : A) × (r ≡ returns a)) ⊎ (((e : String) × (r ≡ raises e)) ⊎ (r ≡ interrupted))
Ending-cases (returns a) = inl (a, refl)
Ending-cases (raises e) = inr (inl (e, refl))
Ending-cases interrupted = inr (inr refl)

terminal_of-EndsJob : (e : Ending ExecutionResult) → ends_well e ≡ true → EndsJob (terminal_of e)
unfolding terminal_of
terminal_of-EndsJob (returns result) h = (result.state, of_value-value result.state, h)
terminal_of-EndsJob (raises e) h = (failed, of_value-value failed, refl)
terminal_of-EndsJob interrupted h = (failed, of_value-value failed, refl)

module _ {W : Type 0} (m : Machine W)
    (runs : (spec : TaskSpec) (w : W) → ends_well (m.docker_run spec w).0 ≡ true) where
  run_command-ends_well : (spec : TaskSpec) (w : W) → ends_well (run_command m spec w).0 ≡ true
  unfolding run_command
  run_command-ends_well spec w =
      ground (arith, runs spec (m.overlay_task_files (m.prepare_workspace spec w).1).1)

  with_image-ends_well :
      (spec : TaskSpec) (b : Bool) (w : W) → ends_well (with_image m spec b w).0 ≡ true
  unfolding with_image
  with_image-ends_well spec b w = ground (arith, run_command-ends_well spec w)

  with_spec-ends_well : (spec : TaskSpec) (w : W) → ends_well (with_spec m spec w).0 ≡ true
  unfolding with_spec
  with_spec-ends_well spec w =
      elim (Ending-cases (m.ensure_image spec.image (m.is_available w).1).0) [
        | inl (b, e) ↦ ground (
          arith,
          e,
          with_image-ends_well spec b (m.ensure_image spec.image (m.is_available w).1).1,
        )
        | inr failed_ ↦ ground arith
      ]

  -- However a job ends, by its run, by an exception of any step or by a shutdown, it is reported with a
  -- status that says that it ended, if the result of its run does.
  pub execute-EndsJob : (w : W) → EndsJob (terminal_of (execute m w).0)
  unfolding execute
  execute-EndsJob w =
      terminal_of-EndsJob (execute m w).0 (elim (Ending-cases (m.load (m.ensure w).1).0) [
        | inl (spec, e) ↦ ground (arith, e, with_spec-ends_well spec (m.load (m.ensure w).1).1)
        | inr failed_ ↦ ground arith
      ])
