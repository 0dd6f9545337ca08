-- ===== src/Runner/Executor/Acks.antt =====
-- backend/runner/executor.py, `_state_sync_loop`, over backend/app/main.py, `ingest_runner_job_sync`: what
-- the server holds once the loop takes a report for acknowledged.
pub mod Live
use crate_probe.Prelude.{
  ℕ, zero, suc, ◌+◌, [], ◌∷◌, Bool, true, false, ◌&&◌, ◌||◌, Option, none, some, List, String, ◌≡◌,
  ◌⊎◌, inl, inr, ℤ, pos, arith, refl, int_leb, All, is_some, subst, str_eq, sym, ap, Bool-cases,
  if◌then◌else◌, override,
}
use crate_probe.FilePath.{Text}
use crate_probe.Models.{running, TaskStatus, of_value, is_running, is_terminal}
use crate_probe.Database.Types.{JobRecord, Database}
use crate_probe.Database.Sync.{sync_row}
use crate_probe.Database.Sync.Laws.{seq_of}
use crate_probe.Api.Types.{Env, Server, Answer}
use crate_probe.Api.Runner.{SyncReply}
use crate_probe.Runner.{HttpResult, body, status_error, network_error, exhausted}
use crate_probe.Runner.Client.{post_with_retry, request_with_retry}
use crate_probe.Runner.Network.{Network, send}
use crate_probe.Runner.Network.Once.{request_with_retry-once}
use crate_probe.Runner.Executor.{
  SyncState, Payload, Wake, interval_over, ended, woken, payload_of, acks, set_terminal, sync_round,
  state_sync_loop,
}
use crate_probe.Runner.Executor.Reports.{
  Holds, report, Reportable, Reported, report-Reported, report-again,
}

-- The reply that a call of the client returned.
abbrev pub reply_of : HttpResult (Option SyncReply) → Option SyncReply
reply_of (body reply) = reply
reply_of (status_error n) = none
reply_of network_error = none
reply_of exhausted = none

-- What ends the wait of the loop names a status of a job that ended.
abbrev pub EndsJob : Wake → Type 0
EndsJob interval_over = Unit
EndsJob (ended status exit_code message) =
    (t : TaskStatus) × (of_value status ≡ some t) × (is_terminal t ≡ true)

-- A status that the loop reports.
abbrev pub IsReport : String → TaskStatus → Type 0
IsReport status t = (of_value status ≡ some t) × (is_running t || is_terminal t ≡ true)

of_value-running : (s : String) → of_value s ≡ some running → str_eq s "running" ≡ true
unfolding of_value
of_value-running s h = ground arith

-- Only an answered report of a status other than running is taken for acknowledged.
acks-terminal :
    (payload : Payload) (reply : Option SyncReply) (t : TaskStatus)
    → IsReport payload.status t
    → acks payload reply ≡ true
    → ((r : SyncReply) × (reply ≡ some r)) × (is_terminal t ≡ true)
unfolding acks
acks-terminal payload none t h e = absurd (cc)
acks-terminal payload (some reply) running h e =
    absurd (ground (arith, of_value-running payload.status h.0))
acks-terminal payload (some reply) t h e = ((reply, refl), ground arith)

reply_of-some :
    (result : HttpResult (Option SyncReply)) (r : SyncReply)
    → reply_of result ≡ some r
    → result ≡ body (some r)
reply_of-some (body reply) r e = ap body e
reply_of-some (status_error k) r e = absurd (cc)
reply_of-some network_error r e = absurd (cc)
reply_of-some exhausted r e = absurd (cc)

next_later : (n : ℕ) (last : ℤ) → int_leb (pos n) last ≡ false → int_leb (pos (n + 1)) last ≡ false
next_later n last h = ground arith

module _ (env : Env) (runner : String) (auth : Option Text) (job_id : ℕ) (lease : String) where
  -- The next report of the loop has a new number, and the job may take its status.
  pub record Ready (st : SyncState) (j : JobRecord) (s : Server) : Type 0 where
    pub held : Holds env runner auth job_id lease j s.db
    pub next : int_leb (pos st.next_seq) (seq_of j) ≡ false
    pub status :
        (t : TaskStatus) × IsReport st.status t × (is_terminal j.status && is_running t ≡ false)

  -- A column of the job shows what the loop holds; a report without a value leaves it.
  abbrev pub Shows : {A : Type 0} → Option A → Option A → Type 0
  Shows given stored = (given ≡ none) ⊎ (stored ≡ given)

  -- The job on the server shows the status, the exit code and the message of the loop, and has the time of
  -- its end; the runner still holds it.
  pub record Ended (st : SyncState) (s : Server) : Type 0 where
    pub status : TaskStatus
    pub known : of_value st.status ≡ some status
    pub terminal : is_terminal status ≡ true
    pub job : JobRecord
    pub holds : Holds env runner auth job_id lease job s.db
    pub same_status : job.status ≡ status
    pub exit_code : Shows st.exit_code job.exit_code
    pub message : Shows st.message job.message
    pub finished : is_some job.finished_at ≡ true

  override-Shows : {A : Type 0} (given old : Option A) → Shows given (override given old)
  override-Shows none old = inl refl
  override-Shows (some a) old = inr refl

  sync_row-Ended :
      (st : SyncState) (t : TaskStatus) (j : JobRecord) (now : ℕ) (seq : ℤ) (s : Server)
      → of_value st.status ≡ some t
      → is_terminal t ≡ true
      → Holds env runner auth job_id lease (sync_row now seq t st.exit_code st.message j) s.db
      → Ended st s
  unfolding sync_row
  sync_row-Ended st t j now seq s known terminal held = record {
    status = t;
    known = known;
    terminal = terminal;
    job = sync_row now seq t st.exit_code st.message j;
    holds = held;
    same_status = refl;
    exit_code = override-Shows st.exit_code j.exit_code;
    message = override-Shows st.message j.message;
    finished = rw terminal refl;
  }

  module _ (is_success : ℕ → Bool) where
    -- `sync_job` over the network
    unfoldable pub sync_job : Payload → Network → Option SyncReply × Network
    unfolding post_with_retry
    sync_job payload n =
        let (result, n') =
          post_with_retry is_success
            (send (
              report env runner auth job_id lease (pos payload.sync_seq) payload.status
                payload.exit_code payload.message))
            n in
        (reply_of result, n')

    module _ (st : SyncState) (j : JobRecord) (n : Network) where
      abbrev round_report : ℕ → Server → Answer SyncReply
      round_report =
          report env runner auth job_id lease (pos st.next_seq) st.status st.exit_code st.message

      abbrev RoundReported : TaskStatus → Server → Type 0
      RoundReported t s =
          Reported env runner auth job_id lease (pos st.next_seq) st.status st.exit_code st.message
            t j s

      -- After a report over the network the job is as it was, or has the columns of the report; it has
      -- them if the call returned a reply.
      sync_job_either :
          (t : TaskStatus)
          → Reportable env runner auth job_id lease
              (pos st.next_seq)
              st.status
              st.exit_code
              st.message
              t
              j
              n.server
          → let (reply, n') = sync_job (payload_of st) n in
            ((n'.server ≡ n.server) ⊎ RoundReported t n'.server)
            × ((r : SyncReply) → reply ≡ some r → RoundReported t n'.server)
      unfolding sync_job
      sync_job_either t h =
          let (either, answered) =
            request_with_retry-once round_report (λ s. s ≡ n.server) (RoundReported t)
              (λ now s e.
                subst (λ (v : Server). RoundReported t (round_report now v).1) (sym e)
                  (report-Reported env runner auth job_id lease (pos st.next_seq) st.status
                    st.exit_code st.message t j now n.server h))
              (λ now s h.
                report-again env runner auth job_id lease (pos st.next_seq) st.status st.exit_code
                  st.message t j now s h)
              is_success 3 n (omega arith) (inl refl) in
          (either, λ r e. answered (some r) (reply_of-some _ r e))

      -- The state of the loop after a round.
      abbrev pub round_state : SyncState
      round_state = (sync_round sync_job st n).0

      round-same : (s : Server) → Ready st j n.server → s ≡ n.server → Ready round_state j s
      unfolding sync_round
      round-same s h e = record {
        held = subst (λ (v : Server). Holds env runner auth job_id lease j v.db) (sym e) h.held;
        next = next_later st.next_seq (seq_of j) h.next;
        status = h.status;
      }

      round-reported :
          (t : TaskStatus) (s : Server)
          → IsReport st.status t
          → (r : RoundReported t s)
          → Ready round_state (sync_row r.0 (pos st.next_seq) t st.exit_code st.message j) s
      unfolding sync_round sync_row
      round-reported t s known r = record {
        held = r.1;
        next = ground arith;
        status = (t, known, ground arith);
      }

      abbrev pub round_server : Server
      round_server = (sync_round sync_job st n).1.server

      -- A round keeps the loop ready, and if it takes the report for acknowledged, the job has ended.
      pub round_lem :
          Ready st j n.server
          → st.terminal_acked ≡ false
          → ((j' : JobRecord) × Ready round_state j' round_server)
            × ((round_state.terminal_acked ≡ false) ⊎ Ended round_state round_server)
      unfolding sync_round
      round_lem h open_ =
          let (t, known, allowed) = h.status in
          let (either, answered) = sync_job_either t (h.held, known.0, h.next, allowed) in
          (
            elim either [
              | inl same ↦ (j, round-same round_server h same)
              | inr reported ↦ (
                sync_row reported.0 (pos st.next_seq) t st.exit_code st.message j,
                round-reported t round_server known reported,
              )
            ],
            elim (Bool-cases (acks (payload_of st) (sync_job (payload_of st) n).0)) [
              | inr waits ↦ inl (rw (open_, waits) refl)
              | inl acked ↦
                  let ((r, e), terminal) =
                    acks-terminal (payload_of st) (sync_job (payload_of st) n).0 t known acked in
                  let (now, held) = answered r e in
                  inr (
                    sync_row-Ended round_state t j now (pos st.next_seq) round_server known.0
                      terminal held)
            ],
          )

    woken-Ready :
        (wake : Wake) (st : SyncState) (j : JobRecord) (s : Server)
        → EndsJob wake
        → Ready st j s
        → Ready (woken wake st) j s
    unfolding set_terminal
    woken-Ready interval_over st j s e h = h
    woken-Ready (ended status exit_code message) st j s (t, known, terminal) h = record {
      held = h.held;
      next = h.next;
      status = (t, (known, ground arith), ground arith);
    }

    woken-open :
        (wake : Wake) (st : SyncState)
        → st.terminal_acked ≡ false
        → (woken wake st).terminal_acked ≡ false
    unfolding set_terminal
    woken-open interval_over st e = e
    woken-open (ended status exit_code message) st e = e

    pub loop-stop :
        (wake : Wake) (wakes : List Wake) (st : SyncState) (n : Network)
        → st.terminal_acked ≡ false
        → (sync_round sync_job st n).0.terminal_acked ≡ true
        → state_sync_loop sync_job (wake ∷ wakes) st n ≡ sync_round sync_job st n
    unfolding state_sync_loop
    loop-stop wake wakes st n open_ acked = ground arith

    pub loop-more :
        (wake : Wake) (wakes : List Wake) (st : SyncState) (n : Network)
        → st.terminal_acked ≡ false
        → (sync_round sync_job st n).0.terminal_acked ≡ false
        → state_sync_loop sync_job (wake ∷ wakes) st n
          ≡ state_sync_loop sync_job wakes
              (woken wake (sync_round sync_job st n).0)
              (sync_round sync_job st n).1
    unfolding state_sync_loop
    loop-more wake wakes st n open_ waits = ground arith

    -- Once the loop takes a report for acknowledged, the job on the server has ended: it has the status that
    -- the loop holds, a time of its end, and the exit code and the message that the loop holds where it
    -- holds one (a report without one leaves the column), however many requests and replies were lost
    -- and however the reports were repeated. At the start the runner holds the lease, the first number is new
    -- and the job may take the status.
    pub state_sync_loop-Ended :
        (wakes : List Wake) (st : SyncState) (j : JobRecord) (n : Network)
        → All EndsJob wakes
        → Ready st j n.server
        → st.terminal_acked ≡ false
        → let (st', n') = state_sync_loop sync_job wakes st n in
          (st'.terminal_acked ≡ false) ⊎ Ended st' n'.server
    unfolding state_sync_loop
    state_sync_loop-Ended [] st j n w h open_ = inl open_
    state_sync_loop-Ended (wake ∷ wakes) st j n w h open_ =
        let p = sync_round sync_job st n in
        let ((j', ready), acked) = round_lem st j n h open_ in
        elim (Bool-cases p.0.terminal_acked) [
          | inl acked_ ↦
              rw (loop-stop wake wakes st n open_ acked_)
                (elim acked [ inl waits ↦ absurd (cc) | inr e ↦ inr e ])
          | inr waits ↦ rw (loop-more wake wakes st n open_ waits) (
              state_sync_loop-Ended wakes (woken wake p.0) j' p.1 w.1
                (woken-Ready wake p.0 j' p.1.server w.0 ready) (woken-open wake p.0 waits))
        ]
