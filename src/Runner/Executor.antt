-- ===== src/Runner/Executor.antt =====
-- backend/runner/executor.py, `_SyncState` and `_state_sync_loop`: the reports of a job's status, until the
-- shutdown gives up waiting for an answer. `sync_job`
-- is the client's call: a reply, or `none` where it raises.
pub mod Steps
pub mod Reports
pub mod Acks
use crate_probe.Prelude.{
  ℕ, zero, suc, ◌+◌, [], ◌∷◌, Bool, true, false, not, ◌&&◌, Option, none, some, List, String,
  str_eq, if◌then◌else◌, ℤ, pos, int_leb, ◌||◌,
}
use crate_probe.Api.Runner.{SyncReply}

pub record SyncState : Type 0 where
  pub status : String
  pub exit_code : Option ℤ
  pub message : Option String
  pub terminal_acked : Bool
  pub next_seq : ℕ

pub record Payload : Type 0 where
  pub sync_seq : ℕ
  pub status : String
  pub exit_code : Option ℤ
  pub message : Option String

-- `_SyncState()`
abbrev pub initial : SyncState
initial = record {
  status = "running";
  exit_code = none;
  message = none;
  terminal_acked = false;
  next_seq = 1;
}

unfoldable pub set_terminal : String → Option ℤ → Option String → SyncState → SyncState
set_terminal status exit_code message st = record st {
  status = status;
  exit_code = exit_code;
  message = message;
}

abbrev pub payload_of : SyncState → Payload
payload_of st = record {
  sync_seq = st.next_seq;
  status = st.status;
  exit_code = st.exit_code;
  message = st.message;
}

-- `seq <= last_sync_seq and payload["status"] != "running"`; a null is no number, and the comparison
-- raises
unfoldable pub acks : Payload → Option SyncReply → Bool
acks payload none = false
acks payload (some reply) = elim reply.last_sync_seq [
  | none ↦ false
  | some last ↦ int_leb (pos payload.sync_seq) last && not (str_eq payload.status "running")
]

-- what the shutdown of the job does while the loop waits for its interval or to be woken
pub data Wake : Type 0 where
  interval_over : Wake
  ended : String → Option ℤ → Option String → Wake

abbrev pub woken : Wake → SyncState → SyncState
woken interval_over st = st
woken (ended status exit_code message) st = set_terminal status exit_code message st

module _ {W : Type 0} (sync_job : Payload → W → Option SyncReply × W) where
  -- one report
  unfoldable pub sync_round : SyncState → W → SyncState × W
  unfolding acks
  sync_round st w =
      let payload = payload_of st in
      let (reply, w') = sync_job payload w in
      (
        record st {
          next_seq = st.next_seq + 1;
          terminal_acked = st.terminal_acked || acks payload reply;
        },
        w',
      )

  -- the rounds of the loop, with what happens in the wait after each
  unfoldable pub state_sync_loop : List Wake → SyncState → W → SyncState × W
  unfolding sync_round
  state_sync_loop [] st w = (st, w)
  state_sync_loop (wake ∷ wakes) st w =
      let (st', w') = sync_round st w in
      let rest = state_sync_loop wakes (woken wake st') w' in
      if st.terminal_acked then (st, w) else if st'.terminal_acked then (st', w') else rest
