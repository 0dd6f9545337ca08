-- ===== src/Runner/Worker/Capacity.antt =====
-- backend/runner/worker.py: how many jobs are executed at a time, and what the control plane makes of the
-- claims.
use crate_probe.Prelude.{
  ◌||◌, false, Bool-cases, if◌then◌else◌, inl, inr, ℕ, [], ◌∷◌, Bool, List, ◌≡◌, ◌≤◌, arith, refl,
  length, ◌==◌, Option, String, some, true, ◌<◌, if◌then◌else◌, none, Bool-cases, ap, ◌∙◌,
}
use crate_probe.Table.{delete}
use crate_probe.Runner.Worker.{
  Polled, worked, poll_failed, job, Execution, Worker, Claimed, poll_and_schedule_one, drop_done,
  schedule, on_execution_task_done, mark_done, current_jobs, nothing, claim_failed, has_capacity,
  after_claim, idle,
}
use crate_probe.Api.Types.{Reply, Env, ok, Server, http_error, Answer}
use crate_probe.Database.Types.{JobRecord}
use crate_probe.FilePath.{Text}
use crate_probe.Api.Runner.{claim_task, claim_and_clear}
use crate_probe.Api.Auth.{require_runner_auth}

-- A worker, and the executions that are running, by their numbers: what `max_jobs` is about.
pub record World : Type 0 where
  pub worker : Worker
  pub executing : List ℕ

-- What happens: a poll with what its claim would return, the end of an execution, and the callback of an
-- execution.
pub data Event : Type 0 where
  poll : Claimed → Event
  ends called_back : ℕ → Event

-- An execution that a poll has scheduled is running.
abbrev after_poll : (Polled × Worker) → Worker → List ℕ → World
after_poll (worked, worker') worker executing = record {
  worker = worker';
  executing = (drop_done worker).next_task ∷ executing;
}
after_poll (idle, worker') worker executing = record { worker = worker'; executing = executing }
after_poll (poll_failed, worker') worker executing = record {
  worker = worker';
  executing = executing;
}

abbrev mem : ℕ → List ℕ → Bool
mem k [] = false
mem k (x ∷ xs) = x == k || mem k xs

-- asyncio calls the callback of an execution only when it has ended.
unfoldable pub happens : Event → World → World
happens (poll claimed) w =
    after_poll (poll_and_schedule_one (λ jobs max_jobs (u : Unit {0}). (claimed, u)) w.worker tt).0
      w.worker w.executing
happens (ends task) w = record {
  worker = record w.worker { inflight = mark_done task w.worker.inflight };
  executing = delete (λ k. k == task) w.executing;
}
happens (called_back task) w =
    if mem task w.executing then w else record w { worker = on_execution_task_done task w.worker }

unfoldable pub happen : List Event → World → World
happen [] w = w
happen (e ∷ es) w = happen es (happens e w)

-- A worker that has just started.
abbrev pub start : ℕ → World
start max_jobs = record {
  worker = record { max_jobs = max_jobs; inflight = []; is_executing = false; next_task = 0 };
  executing = [];
}

-- The numbers of the executions in the set that are not done.
undone : List Execution → List ℕ
undone [] = []
undone (e ∷ es) = if e.is_done then undone es else e.task ∷ undone es

-- The running executions are those of the set that are not done, and the set is not too large.
record IsCounted (max_jobs : ℕ) (w : World) : Type 0 where
  pub same : undone w.worker.inflight ≡ w.executing
  pub limit : w.worker.max_jobs ≡ max_jobs
  pub within : length w.worker.inflight ≤ max_jobs

length-delete : (p : Execution → Bool) (es : List Execution) → length (delete p es) ≤ length es
length-delete p [] = omega arith
length-delete p (e ∷ es) = ground (arith, length-delete p es)

length-mark_done : (task : ℕ) (es : List Execution) → length (mark_done task es) ≡ length es
length-mark_done task [] = refl
length-mark_done task (e ∷ es) = omega (arith, length-mark_done task es)

length-undone : (es : List Execution) → length (undone es) ≤ length es
unfolding undone
length-undone [] = omega arith
length-undone (e ∷ es) = ground (arith, length-undone es)

undone-drop_done : (es : List Execution) → undone (delete (λ e. e.is_done) es) ≡ undone es
unfolding undone
undone-drop_done [] = refl
undone-drop_done (e ∷ es) = ground (arith, undone-drop_done es)

undone-mark_done :
    (task : ℕ) (es : List Execution)
    → undone (mark_done task es) ≡ delete (λ k. k == task) (undone es)
unfolding undone
undone-mark_done task [] = refl
undone-mark_done task (e ∷ es) = ground (arith, undone-mark_done task es)

undone-discard :
    (task : ℕ) (es : List Execution)
    → undone (delete (λ e. e.task == task) es) ≡ delete (λ k. k == task) (undone es)
unfolding undone
undone-discard task [] = refl
undone-discard task (e ∷ es) = ground (arith, undone-discard task es)

delete-absent : (task : ℕ) (ks : List ℕ) → mem task ks ≡ false → delete (λ k. k == task) ks ≡ ks
delete-absent task [] h = refl
delete-absent task (k ∷ ks) h = ground (arith, delete-absent task ks)

discard-IsCounted :
    (task max_jobs : ℕ) (w : World)
    → IsCounted max_jobs w
    → mem task w.executing ≡ false
    → IsCounted max_jobs (record w { worker = on_execution_task_done task w.worker })
unfolding on_execution_task_done
discard-IsCounted task max_jobs w h ended = record {
  same =
      undone-discard task w.worker.inflight
      ∙ ap (λ ks. delete (λ k. k == task) ks) h.same
      ∙ delete-absent task w.executing ended;
  limit = h.limit;
  within = omega (arith, length-delete (λ e. e.task == task) w.worker.inflight, h.within);
}

drop_done-IsCounted :
    (max_jobs : ℕ) (w : World)
    → IsCounted max_jobs w
    → IsCounted max_jobs (record w { worker = drop_done w.worker })
unfolding drop_done
drop_done-IsCounted max_jobs w h = record {
  same = undone-drop_done w.worker.inflight ∙ h.same;
  limit = h.limit;
  within = omega (arith, length-delete (λ e. e.is_done) w.worker.inflight, h.within);
}

schedule-IsCounted :
    (job_id max_jobs : ℕ) (w : World)
    → IsCounted max_jobs w
    → has_capacity w.worker ≡ true
    → IsCounted max_jobs
        (record { worker = schedule job_id w.worker; executing = w.worker.next_task ∷ w.executing })
unfolding schedule undone
schedule-IsCounted job_id max_jobs w h room = record {
  same = ap (λ ks. w.worker.next_task ∷ ks) h.same;
  limit = h.limit;
  within = ground (arith, h.limit);
}

claimed-IsCounted :
    (claimed : Claimed) (max_jobs : ℕ) (w : World)
    → IsCounted max_jobs (record w { worker = drop_done w.worker })
    → has_capacity (drop_done w.worker) ≡ true
    → IsCounted max_jobs
        (after_poll (after_claim claimed (drop_done w.worker)) w.worker w.executing)
claimed-IsCounted (job job_id) max_jobs w h room =
    schedule-IsCounted job_id max_jobs (record w { worker = drop_done w.worker }) h room
claimed-IsCounted nothing max_jobs w h room = h
claimed-IsCounted claim_failed max_jobs w h room = h

poll-IsCounted :
    (claimed : Claimed) (max_jobs : ℕ) (w : World)
    → IsCounted max_jobs w
    → IsCounted max_jobs (happens (poll claimed) w)
unfolding happens poll_and_schedule_one
poll-IsCounted claimed max_jobs w h =
    let dropped = drop_done-IsCounted max_jobs w h in
    elim (Bool-cases (has_capacity (drop_done w.worker))) [
      | inr full_ ↦ rw full_ dropped
      | inl room ↦ rw room (claimed-IsCounted claimed max_jobs w dropped room)
    ]

happens-IsCounted :
    (e : Event) (max_jobs : ℕ) (w : World) → IsCounted max_jobs w → IsCounted max_jobs (happens e w)
unfolding happens
happens-IsCounted (poll claimed) max_jobs w h = poll-IsCounted claimed max_jobs w h
happens-IsCounted (ends task) max_jobs w h = record {
  same = undone-mark_done task w.worker.inflight ∙ ap (λ ks. delete (λ k. k == task) ks) h.same;
  limit = h.limit;
  within = omega (arith, length-mark_done task w.worker.inflight, h.within);
}
happens-IsCounted (called_back task) max_jobs w h = elim (Bool-cases (mem task w.executing)) [
  | inl early ↦ rw early h
  | inr ended ↦ rw ended (discard-IsCounted task max_jobs w h ended)
]

happen-IsCounted :
    (es : List Event) (max_jobs : ℕ) (w : World)
    → IsCounted max_jobs w
    → IsCounted max_jobs (happen es w)
unfolding happen
happen-IsCounted [] max_jobs w h = h
happen-IsCounted (e ∷ es) max_jobs w h =
    happen-IsCounted es max_jobs (happens e w) (happens-IsCounted e max_jobs w h)

-- Whatever happens, in whatever order, never more than `max_jobs` executions run at a time: a worker that
-- has started with an empty set schedules no more, whichever of its executions end, and whenever their
-- callbacks run.
pub executing-happen :
    (es : List Event) (max_jobs : ℕ) → length (happen es (start max_jobs)).executing ≤ max_jobs
executing-happen es max_jobs =
    let h =
      happen-IsCounted es max_jobs (start max_jobs)
        (record { same = unfold undone in refl; limit = refl; within = omega arith }) in
    let w = happen es (start max_jobs) in
    omega (arith, length-undone w.worker.inflight, ap (λ (ks : List ℕ). length ks) h.same, h.within)

-- What the client makes of the reply to a claim.
abbrev pub claimed_of : Reply (Option JobRecord) → Claimed
claimed_of (ok (some j)) = job j.id
claimed_of (ok none) = nothing
claimed_of (http_error status) = claim_failed

module _ (env : Env) (now : ℕ) (token runner : String) (auth : Option Text) where
  -- A claim over `claim_task`.
  abbrev pub claim : ℕ → ℕ → Server → Claimed × Server
  claim jobs max_jobs s =
      let (reply, s') = claim_task env now token runner auth jobs max_jobs s in
      (claimed_of reply, s')

  claim_task-accepted :
      (jobs max_jobs : ℕ) (s : Server)
      → require_runner_auth env runner auth s.db ≡ true
      → jobs < max_jobs
      → max_jobs ≤ env.config.claim_max_jobs_hard_limit
      → claim_task env now token runner auth jobs max_jobs s
        ≡ claim_and_clear env now token runner s
  unfolding claim_task
  claim_task-accepted jobs max_jobs s in_ room limit = ground (arith, in_)

  -- A poll of an admitted runner, whose capacity is within the limit of the control plane, is never refused
  -- for its numbers and never answered that the runner is full: with room for a job it claims one in
  -- the server and schedules what it got, and without room it asks for nothing.
  pub poll-claims :
      (worker : Worker) (s : Server)
      → require_runner_auth env runner auth s.db ≡ true
      → worker.max_jobs ≤ env.config.claim_max_jobs_hard_limit
      → let free = drop_done worker in
        let (reply, s') = claim_and_clear env now token runner s in
        poll_and_schedule_one claim worker s ≡ (
          if has_capacity free
          then (after_claim (claimed_of reply) free, s')
          else ((idle, free), s))
  unfolding poll_and_schedule_one drop_done
  poll-claims worker s in_ limit = elim (Bool-cases (has_capacity (drop_done worker))) [
    | inr full_ ↦ rw full_ refl
    | inl room ↦ rw room (
        ap
          (λ (a : Answer (Option JobRecord)).
            (after_claim (claimed_of a.0) (drop_done worker), a.1))
          (claim_task-accepted (current_jobs (drop_done worker)) worker.max_jobs s in_
            (ground arith) limit))
  ]
