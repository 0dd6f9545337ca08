-- ===== src/Runner/Docker/Run.antt =====
-- backend/runner/docker_runner.py, `run` and `ensure_image`: what becomes of containers and images.
use crate_probe.Prelude.{
  take-append-drop_longer, take_append-le, take-length, length-take, length-append, ltb, ℕ, Bool,
  true, false, Option, none, some, ◌≡◌, arith, List, ◌≤◌, length, ◌++◌, take, length-take,
  Bool-cases, ltb, inl, ap, take-append-drop_longer, inr, sym, ◌∙◌,
}
use crate_probe.Table.{count}
use crate_probe.Models.{is_terminal, ExecutionResult}
use crate_probe.Runner.Docker.{
  Start, started, start_raised, start_cancelled, Wait, exited, timed_out, wait_raised,
  start_cancelled, cleanup_cancelled, Disturbance, undisturbed, cancelled_at_logs,
  cancelled_at_removal, Call, start_container, remove_container, change_ownership,
  sync_log_incremental,
}

abbrev pub is_start : Call → Bool
is_start start_container = true
is_start _ = false

abbrev pub is_remove : Call → Bool
is_remove remove_container = true
is_remove _ = false

abbrev pub is_give_back : Call → Bool
is_give_back change_ownership = true
is_give_back _ = false

-- The result of a run that was not cancelled says that the job ended.
abbrev pub HasEnded : Option ExecutionResult → Type 0
HasEnded none = Unit
HasEnded (some result) = is_terminal result.state ≡ true

-- The runs that leave their container: those that are cancelled while their `finally` waits for the copy
-- of the logs, and those whose late container is stopped by a task that is itself cancelled.
abbrev pub is_left : Start → Disturbance → Bool
is_left started cancelled_at_logs = true
is_left (start_cancelled cleanup_cancelled) ending = true
is_left _ _ = false

-- The result of a run says that the job ended, and then the workspace was given back, once.
abbrev pub Concludes : Option ExecutionResult × List Call → Type 0
Concludes (none, calls) = Unit
Concludes (some result, calls) = (is_terminal result.state ≡ true) × (count is_give_back calls ≡ 1)

-- The runs that end with a result: neither cancelled nor unable to write stderr.log.
abbrev pub has_result : Start → Wait → Bool → Disturbance → Bool
has_result started (exited status_code) written undisturbed = true
has_result started timed_out written undisturbed = true
has_result started (wait_raised error) written undisturbed = written
has_result (start_raised error) wait written undisturbed = written
has_result (start_raised error) wait written cancelled_at_logs = written
has_result (start_raised error) wait written cancelled_at_removal = written
has_result _ _ _ _ = false

sync_same : (log : List ℕ) → sync_log_incremental (some log) (some log) ≡ some log
unfolding sync_log_incremental
sync_same log = ground arith

-- A copy that is the beginning of a log that was only appended to becomes the whole log.
pub sync_log_incremental-grown :
    (source more : List ℕ) (n : ℕ)
    → n ≤ length source
    → sync_log_incremental (some (source ++ more)) (some (take n source)) ≡ some (source ++ more)
unfolding sync_log_incremental
sync_log_incremental-grown source more n h =
    let e : length (take n source) ≡ n = length-take n source h in
    elim (Bool-cases (ltb n (length (source ++ more)))) [
      | inl longer ↦ rw (e, longer) (ap some (take-append-drop_longer n source more h))
      | inr whole ↦
          let l : n ≡ length (source ++ more) = ground (arith, length-append source more) in
          let same : take n source ≡ source ++ more =
            sym (take_append-le n source more h)
            ∙ ap (λ k. take k (source ++ more)) l
            ∙ take-length (source ++ more) in
          rw same (sync_same (source ++ more))
    ]
