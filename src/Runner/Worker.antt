-- ===== src/Runner/Worker.antt =====
-- backend/runner/worker.py, `RunnerWorker`: the jobs that a runner executes at a time. An execution is an
-- asyncio.Task, which is known by its number; the loops of metrics and heartbeats and their thread keep no
-- state of the jobs. A poll is one step: what ends while its claim is waited for ends before or after it.
pub mod Capacity
use crate_probe.Prelude.{
  ℕ, suc, [], ◌∷◌, Bool, true, false, not, Option, none, some, List, if◌then◌else◌, ltb, ◌==◌,
  length,
}
use crate_probe.Table.{delete}

-- an `asyncio.Task` of an execution, the job that it executes, and whether it is done
pub record Execution : Type 0 where
  pub task : ℕ
  pub job_id : ℕ
  pub is_done : Bool

-- `next_task` is the number that the next asyncio.Task gets
pub record Worker : Type 0 where
  pub max_jobs : ℕ
  pub inflight : List Execution
  pub is_executing : Bool
  pub next_task : ℕ

abbrev pub current_jobs : Worker → ℕ
current_jobs worker = length worker.inflight

abbrev pub has_capacity : Worker → Bool
has_capacity worker = ltb (current_jobs worker) worker.max_jobs

abbrev pub set_inflight : List Execution → Worker → Worker
set_inflight inflight worker = record worker {
  inflight = inflight;
  is_executing = ltb 0 (length inflight);
}

-- the start of `poll_and_schedule_one`: executions that are done are dropped
unfoldable pub drop_done : Worker → Worker
drop_done worker = set_inflight (delete (λ e. e.is_done) worker.inflight) worker

unfoldable pub schedule : ℕ → Worker → Worker
schedule job_id worker =
    set_inflight
      ((record { task = worker.next_task; job_id = job_id; is_done = false }) ∷ worker.inflight)
      (record worker { next_task = suc worker.next_task })

-- what the claim returns: a job, none, or an exception
pub data Claimed : Type 0 where
  job : ℕ → Claimed
  nothing claim_failed : Claimed

-- what a poll returns, or that it raises
pub data Polled : Type 0 where
  worked idle poll_failed : Polled

abbrev pub after_claim : Claimed → Worker → Polled × Worker
after_claim (job job_id) worker = (worked, schedule job_id worker)
after_claim nothing worker = (idle, worker)
after_claim claim_failed worker = (poll_failed, worker)

-- `poll_and_schedule_one`; the claim is sent with `jobs` and `max_jobs`
unfoldable pub poll_and_schedule_one :
    {W : Type 0} → (ℕ → ℕ → W → Claimed × W) → Worker → W → (Polled × Worker) × W
unfolding drop_done schedule
poll_and_schedule_one claim worker w =
    let free = drop_done worker in
    let (claimed, w') = claim (current_jobs free) free.max_jobs w in
    if has_capacity free then (after_claim claimed free, w') else ((idle, free), w)

-- one execution ends
abbrev pub mark_done : ℕ → List Execution → List Execution
mark_done task [] = []
mark_done task (e ∷ es) =
    (if e.task == task then record e { is_done = true } else e) ∷ mark_done task es

-- its callback, `_on_execution_task_done`
unfoldable pub on_execution_task_done : ℕ → Worker → Worker
on_execution_task_done task worker =
    set_inflight (delete (λ e. e.task == task) worker.inflight) worker
