-- ===== src/Models.antt =====
-- backend/core/models.py: the states of a job and the result of an execution.
use crate_probe.Prelude.{
  ◌≡◌, refl, Bool, true, false, Option, none, some, String, str_eq, ℤ, if◌then◌else◌, arith,
}

pub data TaskStatus : Type 0 where
  pending running completed failed cancelled timeout oom runner_failed : TaskStatus

pub record ExecutionResult : Type 0 where
  pub state : TaskStatus
  pub exit_code : ℤ
  pub message : String

-- `status.value`
unfoldable pub value : TaskStatus → String
value pending = "pending"
value running = "running"
value completed = "completed"
value failed = "failed"
value cancelled = "cancelled"
value timeout = "timeout"
value oom = "oom"
value runner_failed = "runner_failed"

-- `TaskStatus(text)`; `none` is the ValueError of a text that names no status
unfoldable pub of_value : String → Option TaskStatus
of_value s =
    if str_eq s "pending"
    then some pending
    else if str_eq s "running"
    then some running
    else if str_eq s "completed"
    then some completed
    else if str_eq s "failed"
    then some failed
    else if str_eq s "cancelled"
    then some cancelled
    else if str_eq s "timeout"
    then some timeout
    else if str_eq s "oom"
    then some oom
    else if str_eq s "runner_failed"
    then some runner_failed
    else none

-- Every status is read back from its text.
pub of_value-value : (s : TaskStatus) → of_value (value s) ≡ some s
unfolding of_value value
of_value-value pending = refl
of_value-value _ = refl

abbrev pub is_pending : TaskStatus → Bool
is_pending pending = true
is_pending _ = false

abbrev pub is_running : TaskStatus → Bool
is_running running = true
is_running _ = false

-- `terminal_statuses`, all but `pending` and `running`
abbrev pub is_terminal : TaskStatus → Bool
is_terminal pending = false
is_terminal running = false
is_terminal _ = true

-- Equality of statuses, as `status = ?` tests it.
abbrev pub status_eq : TaskStatus → TaskStatus → Bool
status_eq pending t = is_pending t
status_eq running t = is_running t
status_eq completed completed = true
status_eq failed failed = true
status_eq cancelled cancelled = true
status_eq timeout timeout = true
status_eq oom oom = true
status_eq runner_failed runner_failed = true
status_eq _ _ = false

pub status_eq_sound : (s t : TaskStatus) → status_eq s t ≡ true → s ≡ t
status_eq_sound s t h = ground arith
