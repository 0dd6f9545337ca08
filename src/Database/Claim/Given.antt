-- ===== src/Database/Claim/Given.antt =====
-- backend/app/database.py, `claim_pending_job`: the job that is handed out, by its columns and its place in the
-- queue.
use crate_probe.Prelude.{
  ℕ, ◌+◌, ◌≡◌, ◌≢◌, ◌≤◌, ◌⊎◌, inl, inr, refl, true, false, Option, none, some, String, ℤ, pos,
  int_leb, int_leb_antisymm, arith, ◌==◌, In, str_eq, eq_iff, Bool-cases, ap, sym,
}
use crate_probe.Models.{running, pending}
use crate_probe.Table.{find}
use crate_probe.Database.Types.{JobRecord, TaskDefRecord, Database, seconds}
use crate_probe.Database.Jobs.{queue_before, priority_leb}
use crate_probe.Database.Claim.{claim_pending_job, claim_row}
use crate_probe.Database.Claim.Steps.{JobsHaveKeys, refreshed}
use crate_probe.Database.Claim.Laws.{claimed, claim_pending_job-claimed}

-- A priority above another; NULL is below every number.
abbrev pub IsAbove : Option ℤ → Option ℤ → Type 0
IsAbove none b = ⊥
IsAbove (some a) none = Unit
IsAbove (some a) (some b) = int_leb a b ≡ false

-- The place in the queue: a higher priority, or the same priority and no later creation.
abbrev pub Precedes : JobRecord → JobRecord → Type 0
Precedes j k =
    IsAbove j.priority k.priority ⊎ ((j.priority ≡ k.priority) × (j.created_at ≤ k.created_at))

-- The snapshot of the task definition, if it is still there: it has the fingerprint of the definition,
-- and its name and specification where the fingerprint has changed.
abbrev pub Snapshot : Option TaskDefRecord → JobRecord → JobRecord → Type 0
Snapshot none j c =
    (c.task_name ≡ j.task_name) × (c.task_sha256 ≡ j.task_sha256) × (c.task_spec ≡ j.task_spec)
Snapshot (some t) j c =
    (c.task_sha256 ≡ t.sha256)
    × (t.sha256 ≢ j.task_sha256 → (c.task_name ≡ t.name) × (c.task_spec ≡ t.spec))

-- The job `c` that the runner is given for the pending job `j`: the same job, running under the new lease,
-- with no report, end, exit code or text of an earlier run.
pub record Given (now : ℕ) (token runner : String) (expires : ℕ) (t : Option TaskDefRecord)
    (j c : JobRecord) : Type 0 where
  pub same_id : c.id ≡ j.id
  pub same_crate : (c.crate_name ≡ j.crate_name) × (c.version ≡ j.version)
  pub same_task : c.task_id ≡ j.task_id
  pub same_attempt : c.attempt ≡ j.attempt
  pub snapshot : Snapshot t j c
  pub is_running : c.status ≡ running
  pub holder : c.runner_id ≡ some runner
  pub key : c.lease_token ≡ some token
  pub deadline : c.lease_expires_at ≡ some expires
  pub start : (c.started_at ≡ some now) × (c.last_state_sync_at ≡ some now)
  pub no_reports : c.last_sync_seq ≡ some (pos 0)
  pub no_end : (c.finished_at ≡ none) × (c.exit_code ≡ none) × (c.pid ≡ none)
  pub no_texts : (c.error_message ≡ none) × (c.message ≡ none)
  pub not_cancelled : c.cancel_requested ≡ false

above : (a b : Option ℤ) → priority_leb a b ≡ false → IsAbove a b
unfolding priority_leb
above none b h = absurd (cc)
above (some a) none h = tt
above (some a) (some b) h = h

level : (a b : Option ℤ) → priority_leb a b ≡ true → priority_leb b a ≡ true → a ≡ b
unfolding priority_leb
level none none h k = refl
level none (some b) h k = absurd (cc)
level (some a) none h k = absurd (cc)
level (some a) (some b) h k = ap some (int_leb_antisymm a b h k)

queue_before-Precedes : (j k : JobRecord) → queue_before j k ≡ true → Precedes j k
unfolding queue_before
queue_before-Precedes j k h = elim (Bool-cases (priority_leb j.priority k.priority)) [
  | inr higher ↦ inl (above j.priority k.priority higher)
  | inl lower ↦ elim (Bool-cases (priority_leb k.priority j.priority)) [
    | inl same ↦ inr (level j.priority k.priority lower same, ground arith)
    | inr less ↦ absurd (ground arith)
  ]
]

refreshed-Snapshot : (t : Option TaskDefRecord) (j : JobRecord) → Snapshot t j (refreshed t j)
refreshed-Snapshot none j = (refl, refl, refl)
refreshed-Snapshot (some t) j = elim (Bool-cases (str_eq t.sha256 j.task_sha256)) [
  | inl same ↦ rw same (
    sym ((eq_iff t.sha256 j.task_sha256).0 same),
    λ new. absurd (new ((eq_iff t.sha256 j.task_sha256).0 same)),
  )
  | inr new ↦ rw new (refl, λ _. (refl, refl))
]

-- What the refresh of the snapshot leaves.
abbrev Kept : JobRecord → JobRecord → Type 0
Kept j r =
    (r.id ≡ j.id)
    × (r.crate_name ≡ j.crate_name)
    × (r.version ≡ j.version)
    × (r.task_id ≡ j.task_id)
    × (r.attempt ≡ j.attempt)

refreshed-Kept : (t : Option TaskDefRecord) (j : JobRecord) → Kept j (refreshed t j)
refreshed-Kept none j = (refl, refl, refl, refl, refl)
refreshed-Kept (some t) j = elim (Bool-cases (str_eq t.sha256 j.task_sha256)) [
  | inl same ↦ rw same (refl, refl, refl, refl, refl)
  | inr new ↦ rw new (refl, refl, refl, refl, refl)
]

claim_row-Snapshot :
    (now : ℕ) (token runner : String) (expires : ℕ) (t : Option TaskDefRecord) (j r : JobRecord)
    → Snapshot t j r
    → Snapshot t j (claim_row now token runner expires r)
unfolding claim_row
claim_row-Snapshot now token runner expires none j r h = h
claim_row-Snapshot now token runner expires (some t) j r h = h

claim_row-Given :
    (now : ℕ) (token runner : String) (expires : ℕ) (t : Option TaskDefRecord) (j : JobRecord)
    → Given now token runner expires t j (claim_row now token runner expires (refreshed t j))
unfolding claim_row
claim_row-Given now token runner expires t j =
    let (id, crate_name, version, task_id, attempt) = refreshed-Kept t j in
    record {
      same_id = id;
      same_crate = (crate_name, version);
      same_task = task_id;
      same_attempt = attempt;
      snapshot =
          claim_row-Snapshot now token runner expires t j (refreshed t j) (refreshed-Snapshot t j);
      is_running = refl;
      holder = refl;
      key = refl;
      deadline = refl;
      start = (refl, refl);
      no_reports = refl;
      no_end = (refl, refl, refl);
      no_texts = (refl, refl);
      not_cancelled = refl;
    }

-- A claimed job was pending, and it precedes every pending job in the queue; the runner is given it running
-- under the new lease, with the snapshot of its current task definition, and with no
-- report, end, exit code or text of an earlier run.
pub claim_pending_job-some :
    (now : ℕ) (token runner : String) (ttl : ℕ) (db : Database) {c : JobRecord}
    → JobsHaveKeys db
    → (claim_pending_job now token runner ttl db).0 ≡ some c
    → (j : JobRecord) × In j db.jobs
      × (j.status ≡ pending)
      × ((k : JobRecord) → In k db.jobs → k.status ≡ pending → Precedes j k)
      × Given now token runner (now + seconds ttl) (find (λ t. t.id == j.task_id) db.tasks) j c
unfolding claimed
claim_pending_job-some now token runner ttl db keyed e =
    let (j, next, same) = claim_pending_job-claimed now token runner ttl db keyed e in
    (
      j,
      next.member,
      next.is_pending,
      λ k i p. queue_before-Precedes j k (next.least k i p),
      rw same (
          claim_row-Given now token runner (now + seconds ttl)
            (find (λ t. t.id == j.task_id) db.tasks) j),
    )
