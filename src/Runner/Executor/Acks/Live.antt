-- ===== src/Runner/Executor/Acks/Live.antt =====
-- backend/runner/executor.py, `_state_sync_loop`: that the loop ends.
use crate_probe.Prelude.{
  ℕ, ◌<◌, [], ◌∷◌, ◌++◌, Bool, true, Option, some, List, ◌≡◌, ◌⊎◌, inl, inr, arith, All, length,
  sym, subst, String, pos, ap, false, ◌∙◌, int_leb_refl, eq_iff, ◌&&◌, ◌||◌, Bool-cases,
}
use crate_probe.Api.Types.{Server, Answer, ok, Env}
use crate_probe.Runner.Network.{Fate, delivered, Network}
use crate_probe.Runner.Network.Progress.{IsLoss, Nearer, request_loop-Progress}
use crate_probe.FilePath.{Text}
use crate_probe.Runner.Executor.{
  interval_over, ended, SyncState, acks, payload_of, sync_round, Wake, state_sync_loop,
}
use crate_probe.Database.Types.{JobRecord, done, DbResult, Database}
use crate_probe.Models.{TaskStatus, of_value, is_terminal, is_running}
use crate_probe.Api.Runner.{SyncReply, sync_reply, reported_seq}
use crate_probe.Runner.Executor.Reports.{
  Reportable, Reported, report-Reported, report, report-again, Holds, report-db, report-held,
}
use crate_probe.Database.Sync.{sync_row, apply_job_sync}
use crate_probe.Database.Jobs.{get_job}
use crate_probe.Database.Sync.Laws.{apply_job_sync_accepts, dropped}
use crate_probe.Runner.Executor.Acks.{sync_job, Ready, reply_of, loop-stop, round_lem, loop-more}

-- The wait of the loop ends by its interval.
abbrev pub IsQuiet : Wake → Type 0
IsQuiet interval_over = Unit
IsQuiet (ended status exit_code message) = ⊥

sync_reply-done :
    (job_id : ℕ) (status : String) (s : Server) (p : DbResult (Option Bool) × Database) (b : Bool)
    → p.0 ≡ done (some b)
    → (sync_reply job_id status s p).0
      ≡ ok (record { synced = b; last_sync_seq = reported_seq (get_job job_id p.1) })
unfolding sync_reply
sync_reply-done job_id status s (r, db) b e = ground arith

ended_allowed :
    (old new : TaskStatus) → is_terminal new ≡ true → is_terminal old && is_running new ≡ false
ended_allowed old new h = ground arith

or_true : (a : Bool) {b : Bool} → b ≡ true → a || b ≡ true
or_true a e = ground arith

module _ (env : Env) (runner : String) (auth : Option Text) (job_id : ℕ) (lease : String)
    (is_success : ℕ → Bool) (success : is_success 200 ≡ true) where
  module _ (st : SyncState) (j : JobRecord) (t : TaskStatus) where
    abbrev round_report' : ℕ → Server → Answer SyncReply
    round_report' =
        report env runner auth job_id lease (pos st.next_seq) st.status st.exit_code st.message

    abbrev Due : Server → Type 0
    Due =
        Reportable env runner auth job_id lease (pos st.next_seq) st.status st.exit_code st.message
          t j

    abbrev Had : Server → Type 0
    Had =
        Reported env runner auth job_id lease (pos st.next_seq) st.status st.exit_code st.message t
          j

    Had-serve : (now : ℕ) (s : Server) → Due s ⊎ Had s → Had (round_report' now s).1
    Had-serve now s (inl due) =
        report-Reported env runner auth job_id lease (pos st.next_seq) st.status st.exit_code
          st.message t j now s due
    Had-serve now s (inr had) =
        report-again env runner auth job_id lease (pos st.next_seq) st.status st.exit_code
          st.message t j now s had

    -- The reply carries the number of the report.
    abbrev IsAck : SyncReply → Type 0
    IsAck reply = reply.last_sync_seq ≡ some (pos st.next_seq)

    reply-IsAck :
        (now : ℕ) (s : Server) (i : JobRecord) (b : Bool)
        → Holds env runner auth job_id lease i s.db
        → (apply_job_sync now job_id (pos st.next_seq) st.status st.exit_code st.message s.db).0
          ≡ done (some b)
        → Had (round_report' now s).1
        → (r : SyncReply) × IsAck r × ((round_report' now s).0 ≡ ok r)
    reply-IsAck now s i b h e had =
        let (later, held) = had in
        let db' =
          (apply_job_sync now job_id (pos st.next_seq) st.status st.exit_code st.message s.db).1 in
        let found : get_job job_id db'
            ≡ some (sync_row later (pos st.next_seq) t st.exit_code st.message j) =
          ap (get_job job_id) (
            sym (
              report-db env runner auth job_id lease (pos st.next_seq) st.status st.exit_code
                st.message now s i h))
          ∙ held.found in
        (
          record { synced = b; last_sync_seq = reported_seq (get_job job_id db') },
          unfold sync_row in (ap reported_seq found),
          ap (λ (a : Answer SyncReply). a.0)
                (report-held env runner auth job_id lease (pos st.next_seq) st.status st.exit_code
                  st.message now s i h)
              ∙ sync_reply-done job_id st.status s
                  (apply_job_sync now job_id (pos st.next_seq) st.status st.exit_code st.message
                    s.db)
                  b e,
        )

    Due-answer :
        (now : ℕ) (s : Server)
        → Due s ⊎ Had s
        → (r : SyncReply) × IsAck r × ((round_report' now s).0 ≡ ok r)
    unfolding get_job
    Due-answer now s (inl due) =
        let (h, known, new, allowed) = due in
        reply-IsAck now s j true h
          (apply_job_sync_accepts now job_id (pos st.next_seq) st.status st.exit_code st.message
            s.db j t h.found known new allowed).0
          (Had-serve now s (inl due))
    Due-answer now s (inr (later, held)) =
        let row = sync_row later (pos st.next_seq) t st.exit_code st.message j in
        reply-IsAck now s row false held
          (ap (λ (r : DbResult (Option Bool) × Database). r.0)
            (dropped now job_id (pos st.next_seq) st.status st.exit_code st.message s.db row
              held.found (unfold sync_row in int_leb_refl (pos st.next_seq))))
          (Had-serve now s (inr (later, held)))

    acks-IsAck :
        (reply : SyncReply)
        → is_terminal t ≡ true
        → of_value st.status ≡ some t
        → IsAck reply
        → acks (payload_of st) (some reply) ≡ true
    unfolding acks of_value
    acks-IsAck reply terminal known e =
        ground (arith, int_leb_refl (pos st.next_seq), eq_iff st.status "running")

  abbrev coming : Server → ℕ → List Fate → List Fate → Network
  coming s now rest losses = record { server = s; fates = losses ++ delivered now ∷ rest }

  round-Nearer :
      (now : ℕ) (rest losses : List Fate) (st : SyncState) (t : TaskStatus) (j : JobRecord)
      (s : Server)
      → All IsLoss losses
      → Ready env runner auth job_id lease st j s
      → st.terminal_acked ≡ false
      → of_value st.status ≡ some t
      → is_terminal t ≡ true
      → let p =
          sync_round
            (sync_job env runner auth job_id lease is_success)
            st
            (coming s now rest losses) in
        (p.0.terminal_acked ≡ true) ⊎ Nearer now rest losses p.1.fates
  unfolding sync_round sync_job
  round-Nearer now rest losses st t j s l h open_ known terminal =
      let due : Due st j t s = (h.held, known, h.next, ended_allowed j.status t terminal) in
      elim (request_loop-Progress (round_report' st j t) (λ v. Due st j t v ⊎ Had st j t v)
        (IsAck st j t) (λ u v d. inr (Had-serve st j t u v d)) (Due-answer st j t) is_success
        success now rest 2 false losses s l (inl due)) [
          | inr nearer ↦ inr nearer
          | inl (reply, ack, e) ↦ inl (
              or_true st.terminal_acked (
                ap (λ r. acks (payload_of st) (reply_of r)) e
                ∙ acks-IsAck st j t reply terminal known ack))
        ]

  -- The loop ends: once the status that it holds says that the job ended, and the network answers an
  -- attempt after any number of lost requests and lost replies, the loop takes a report for
  -- acknowledged, within one round more than there are losses. At the start the runner holds the
  -- lease, the next number is new and the job may take the status.
  pub state_sync_loop-acked :
      (now : ℕ) (rest losses : List Fate) (wakes : List Wake) (st : SyncState) (t : TaskStatus)
      (j : JobRecord) (s : Server)
      → All IsLoss losses
      → All IsQuiet wakes
      → length losses < length wakes
      → Ready env runner auth job_id lease st j s
      → of_value st.status ≡ some t
      → is_terminal t ≡ true
      → st.terminal_acked ≡ false
      → (state_sync_loop
          (sync_job env runner auth job_id lease is_success)
          wakes
          st
          (record { server = s; fates = losses ++ delivered now ∷ rest })).0.terminal_acked
        ≡ true
  state_sync_loop-acked now rest losses [] st t j s l q long h known terminal open_ =
      absurd (omega arith)
  state_sync_loop-acked now rest losses (ended c e m ∷ wakes) st t j s l q long h known terminal
        open_ =
      absurd q.0
  state_sync_loop-acked now rest losses (interval_over ∷ wakes) st t j s l q long h known terminal
        open_ =
      let n = coming s now rest losses in
      let p = sync_round (sync_job env runner auth job_id lease is_success) st n in
      elim (Bool-cases p.0.terminal_acked) [
        | inl acked ↦
            rw
              (loop-stop env runner auth job_id lease is_success interval_over wakes st n open_
                acked)
              acked
        | inr waits ↦ elim (round-Nearer now rest losses st t j s l h open_ known terminal) [
          | inl acked ↦ absurd (cc)
          | inr (losses', l', shorter, e) ↦
              let ((j', ready), _) =
                round_lem env runner auth job_id lease is_success st j n h open_ in
              rw
                (loop-more env runner auth job_id lease is_success interval_over wakes st n open_
                  waits)
                (subst
                  (λ (fates : List Fate).
                    (state_sync_loop (sync_job env runner auth job_id lease is_success) wakes p.0
                      (record { server = p.1.server; fates = fates })).0.terminal_acked
                    ≡ true)
                  (sym e)
                  (state_sync_loop-acked now rest losses' wakes p.0 t j' p.1.server l' q.1
                    (omega arith) ready (unfold sync_round in known) terminal waits))
        ]
      ]
