-- ===== src/Runner/Reporter.antt =====
-- backend/runner/reporter.py, `TaskReporter`: which parts of the local files it pushes. `transcode` is
-- `decode("utf-8", errors="replace")` of the bytes with the encoding of the request; `push` is a call of
-- `push_file`, with whether it returned. The push of a flush while stopping may be cut off after two
-- seconds, and then did not return.
pub mod Once
pub mod InSync
pub mod Lost
pub mod Rounds
pub mod Delivered
use crate_probe.Prelude.{
  ℕ, zero, suc, ◌+◌, [], ◌∷◌, Bool, true, false, Option, none, some, List, String, str_eq,
  if◌then◌else◌, ltb, ◌==◌, coalesce, drop, ℤ, pos,
}
use crate_probe.Api.Files.{Mode, append, full}

-- the two dictionaries, by remote path
pub record Sent : Type 0 where
  pub next_chunk_seq : String → Option ℕ
  pub sent_offsets : String → Option ℕ

-- a file that does not exist or whose size cannot be read, or its size with what is read of it afterwards:
-- `none` is an OSError
pub data LocalFile : Type 0 where
  unreadable : LocalFile
  sized : ℕ → Option (List ℕ) → LocalFile

abbrev pub put : String → ℕ → (String → Option ℕ) → String → Option ℕ
put key v dict k = if str_eq k key then some v else dict k

abbrev pub sent_offset : String → Sent → ℕ
sent_offset path r = coalesce (r.sent_offsets path) 0

abbrev pub chunk_seq : String → Sent → ℕ
chunk_seq path r = coalesce (r.next_chunk_seq path) 1

-- where to read from; `none` where nothing new was written
unfoldable pub read_from : String → Mode → ℕ → Sent → Option (ℕ × Sent)
read_from path append current_size r =
    if current_size == sent_offset path r
    then none
    else if ltb current_size (sent_offset path r)
    then some (0, record r { next_chunk_seq = put path 1 r.next_chunk_seq })
    else some (sent_offset path r, r)
read_from path full current_size r = some (0, r)

abbrev pub seq_for : Mode → ℕ → Option ℤ
seq_for append n = some (pos n)
seq_for full n = none

-- what a push that returned leaves in the dictionaries
unfoldable pub note_sent : String → Mode → ℕ → Sent → Sent
note_sent path append current_size r = record r {
  next_chunk_seq = put path (chunk_seq path r + 1) r.next_chunk_seq;
  sent_offsets = put path current_size r.sent_offsets;
}
note_sent path full current_size r = record r {
  sent_offsets = put path current_size r.sent_offsets;
}

module _ {W : Type 0} (transcode : List ℕ → List ℕ)
    (push : String → Mode → List ℕ → Option ℤ → W → Bool × W) where
  unfoldable pub push_bytes : String → Mode → ℕ → List ℕ → Sent → W → Sent × W
  unfolding note_sent
  push_bytes path mode current_size [] r w = (r, w)
  push_bytes path mode current_size (b ∷ bytes) r w =
      let (returned, w') =
        push path mode (transcode (b ∷ bytes)) (seq_for mode (chunk_seq path r)) w in
      (if returned then note_sent path mode current_size r else r, w')

  unfoldable pub flush_file : String → Mode → LocalFile → Sent → W → Sent × W
  unfolding read_from push_bytes
  flush_file path mode unreadable r w = (r, w)
  flush_file path mode (sized current_size contents) r w =
      elim (read_from path mode current_size r) [
        | none ↦ (r, w)
        | some (offset, r') ↦ elim contents [
          | none ↦ (r', w)
          | some bytes ↦ push_bytes path mode current_size (drop offset bytes) r' w
        ]
      ]

  -- `_flush_files`: the files of `file_specs` in turn, each as it is found
  unfoldable pub flush_files : List (String × Mode × LocalFile) → Sent → W → Sent × W
  unfolding flush_file
  flush_files [] r w = (r, w)
  flush_files ((path, mode, file) ∷ files) r w =
      let (r', w') = flush_file path mode file r w in flush_files files r' w'

  -- `run`: a flush in each round, the last one after the stop
  unfoldable pub run : List (List (String × Mode × LocalFile)) → Sent → W → Sent × W
  unfolding flush_files
  run [] r w = (r, w)
  run (files ∷ rounds) r w = let (r', w') = flush_files files r w in run rounds r' w'
