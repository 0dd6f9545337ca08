-- ===== src/Runner/Docker.antt =====
-- backend/runner/docker_runner.py, `DockerRunner`: what it asks of Docker. The Docker client is not
-- modelled: what its calls end with is an argument. `show` is Python's `str` of a number, `quota` is
-- `int(cpu * 100000)`, `none` where it raises.
pub mod Run
use Prim.Native.String.{◌++◌ as str_append}
use crate_probe.Prelude.{
  not, ◌||◌, ℕ, zero, suc, ◌+◌, [], ◌∷◌, ◌++◌, Bool, true, false, Option, none, some, List, String,
  str_eq, if◌then◌else◌, ℤ, pos, negsuc, coalesce, map_option, drop, length, ltb, int_leb, ◌&&◌,
}
use crate_probe.Models.{TaskStatus, completed, failed, timeout, oom, ExecutionResult}
use crate_probe.TaskSpec.TomlValue.{Float}

-- what a call of the client for an image ends with
pub data ImageCall : Type 0 where
  found not_found api_error other_error : ImageCall

pub data ImageResult : Type 0 where
  available unavailable : ImageResult
  raised : ImageResult

-- `_ensure_image_sync`: the result, and whether the image was pulled
unfoldable pub ensure_image : String → ImageCall → ImageCall → ImageResult × Bool
ensure_image pull_policy get pull =
    let pulled : ImageResult = elim pull [ found ↦ available | _ ↦ raised ] in
    if str_eq pull_policy "always"
    then (pulled, true)
    else if str_eq pull_policy "never"
    then (elim get [ found ↦ available | not_found ↦ unavailable | _ ↦ raised ], false)
    else elim get [ found ↦ (available, false) | not_found ↦ (pulled, true) | _ ↦ (raised, false) ]

-- the limits that are passed to Docker; one that is missing is not passed
pub record ResourceLimits : Type 0 where
  pub mem_limit : Option String
  pub memswap_limit : Option String
  pub cpu_period : Option ℕ
  pub cpu_quota : Option ℤ

-- `none`: the number of CPUs is infinite or not a number, and `int` raises
unfoldable pub build_resource_limits :
    (Float → Option ℤ) → Option Float → Option String → Option ResourceLimits
build_resource_limits quota none mem =
    some (record { mem_limit = mem; memswap_limit = mem; cpu_period = none; cpu_quota = none })
build_resource_limits quota (some cpu) mem =
    map_option
      (λ q. record {
        mem_limit = mem;
        memswap_limit = mem;
        cpu_period = some 100000;
        cpu_quota = some q;
      })
      (quota cpu)

-- what becomes of a start that was cancelled, which goes on in its thread: no container, one that is
-- cleaned up, or one whose cleaning up is cancelled while it is stopped
pub data Late : Type 0 where
  never_started cleaned_up cleanup_cancelled : Late

-- how the start of the container ends
pub data Start : Type 0 where
  started : Start
  start_raised : String → Start
  start_cancelled : Late → Start

-- how the wait for the container ends: with its StatusCode, if there is one; with the time limit; with the
-- time limit and then a CancelledError while the container is stopped; with a CancelledError; or with
-- another exception
pub data Wait : Type 0 where
  exited : Option ℤ → Wait
  timed_out stop_cancelled wait_cancelled : Wait
  wait_raised : String → Wait

-- where, if at all, the `finally` is cancelled: at its wait for the task that copies the logs, at the
-- removal of the container, which goes on in its thread, or at the change of ownership
pub data Disturbance : Type 0 where
  undisturbed cancelled_at_logs cancelled_at_removal cancelled_at_ownership : Disturbance

-- the calls that `run` makes, in their order
pub data Call : Type 0 where
  start_container remove_container change_ownership sync_logs : Call
  stop_container : ℕ → Call
  write_stderr : String → Call

int_eq : ℤ → ℤ → Bool
int_eq a b = int_leb a b && int_leb b a

unfoldable pub result_of_exit : (ℤ → String) → ℤ → ExecutionResult
unfolding int_eq
result_of_exit show exit_code =
    if int_eq exit_code (pos 0)
    then record { state = completed; exit_code = exit_code; message = "" }
    else if int_eq exit_code (pos 137)
    then record {
      state = oom;
      exit_code = exit_code;
      message = "Process killed by OOM killer (out of memory)";
    }
    else record {
      state = failed;
      exit_code = exit_code;
      message = str_append "Process exited with code " (show exit_code);
    }

unfoldable pub unexpected : String → ExecutionResult
unexpected error = record {
  state = failed;
  exit_code = negsuc 0;
  message = str_append "Unexpected error: " error;
}

-- the result once the wait is over; `none` is the CancelledError that is raised again
unfoldable pub result_of_wait : (ℤ → String) → ℕ → Wait → Option ExecutionResult
unfolding result_of_exit unexpected
result_of_wait show timeout_seconds (exited status_code) =
    some (result_of_exit show (coalesce status_code (negsuc 0)))
result_of_wait show timeout_seconds timed_out = some (record {
  state = timeout;
  exit_code = negsuc 0;
  message =
      str_append "Execution timed out after " (str_append (show (pos timeout_seconds)) " seconds");
})
result_of_wait show timeout_seconds stop_cancelled = none
result_of_wait show timeout_seconds wait_cancelled = none
result_of_wait show timeout_seconds (wait_raised error) = some (unexpected error)

-- the exception that `run` reports in stderr.log: if it cannot be written, the run has no result
abbrev pub result_if_written : Bool → Option ExecutionResult → Option ExecutionResult
result_if_written written result = if written then result else none

-- what is called when the wait is over, before the `finally`
abbrev pub after_wait : Wait → List Call
after_wait (exited status_code) = []
after_wait timed_out = stop_container 30 ∷ []
after_wait stop_cancelled = stop_container 30 ∷ []
after_wait wait_cancelled = stop_container 10 ∷ []
after_wait (wait_raised error) = write_stderr (str_append "Unexpected error: " error) ∷ []

abbrev pub is_cancelled : Wait → Bool
is_cancelled stop_cancelled = true
is_cancelled wait_cancelled = true
is_cancelled _ = false

abbrev pub is_raised : Wait → Bool
is_raised (wait_raised error) = true
is_raised _ = false

-- what `_cleanup_container_after_cancel` calls
abbrev pub late_calls : Late → List Call
late_calls never_started = []
late_calls cleaned_up = start_container ∷ stop_container 10 ∷ remove_container ∷ []
late_calls cleanup_cancelled = start_container ∷ stop_container 10 ∷ []

-- the run before its `finally`: the variables `container`, if it is set, and `cancelled`
pub record Body : Type 0 where
  pub result : Option ExecutionResult
  pub has_container : Bool
  pub cancelled : Bool
  pub calls : List Call

unfoldable pub body : (ℤ → String) → ℕ → Start → Wait → Bool → Body
unfolding result_of_wait unexpected
body show timeout_seconds started wait written = record {
  result =
      result_if_written (not (is_raised wait) || written)
        (result_of_wait show timeout_seconds wait);
  has_container = true;
  cancelled = is_cancelled wait;
  calls = start_container ∷ after_wait wait;
}
body show timeout_seconds (start_raised error) wait written = record {
  result = result_if_written written (some (unexpected error));
  has_container = false;
  cancelled = false;
  calls = write_stderr (str_append "Unexpected error: " error) ∷ [];
}
body show timeout_seconds (start_cancelled late) wait written = record {
  result = none;
  has_container = false;
  cancelled = true;
  calls = [];
}

-- the `finally`: the result that is left, and its calls. There is a task that copies the logs exactly if
-- there is a container. The workspace is given back unless the run was cancelled before.
unfoldable pub finally : Disturbance → Body → Option ExecutionResult × List Call
finally ending b =
    let removal : List Call = if b.has_container then remove_container ∷ [] else [] in
    let ownership : List Call = if b.cancelled then [] else change_ownership ∷ [] in
    elim ending [
      | undisturbed ↦ (b.result, sync_logs ∷ removal ++ ownership)
      | cancelled_at_logs ↦
          if b.has_container then (none, []) else (b.result, sync_logs ∷ ownership)
      | cancelled_at_removal ↦
          if b.has_container then (none, sync_logs ∷ removal) else (b.result, sync_logs ∷ ownership)
      | cancelled_at_ownership ↦
          (if b.cancelled then b.result else none, sync_logs ∷ removal ++ ownership)
    ]

-- `run`: the result, `none` for an exception, and the calls, those of a start that goes on after the run
-- included. `written` says whether stderr.log could be written.
unfoldable pub run :
    (ℤ → String) → ℕ → Start → Wait → Bool → Disturbance → Option ExecutionResult × List Call
unfolding body finally
run show timeout_seconds start wait written ending =
    let b = body show timeout_seconds start wait written in
    let (result, calls) = finally ending b in
    (result, b.calls ++ calls ++ (elim start [ start_cancelled late ↦ late_calls late | _ ↦ [] ]))

-- `_sync_log_incremental`: the target after it; an error leaves the target
unfoldable pub sync_log_incremental : Option (List ℕ) → Option (List ℕ) → Option (List ℕ)
sync_log_incremental none target = target
sync_log_incremental (some source) none = some source
sync_log_incremental (some source) (some target) =
    if ltb (length target) (length source)
    then some (target ++ drop (length target) source)
    else if ltb (length source) (length target)
    then some source
    else some target
