-- ===== src/Runner/Reporter/Delivered.antt =====
-- backend/runner/reporter.py, `_flush_files`, over backend/app/main.py, `push_runner_job_file`: a flush whose push
-- gets through.
use crate_probe.Prelude.{
  ℕ, zero, suc, ◌<◌, [], ◌∷◌, ◌++◌, Bool, true, false, Option, some, List, String, ◌≡◌, inl, inr, ℤ,
  pos, coalesce, length, drop, arith, refl, All, ltb, ap, ◌∙◌, take, take-length, length-drop,
}
use crate_probe.FilePath.{Text, FilePath}
use crate_probe.JobFiles.{read}
use crate_probe.Api.Types.{Env, Server, Answer, ok}
use crate_probe.Api.Files.{append, push_runner_job_file}
use crate_probe.Api.Pushes.{IsAdmitted, push_append}
use crate_probe.Runner.{body}
use crate_probe.Runner.Client.{request_loop, request_with_retry}
use crate_probe.Runner.Network.{Network, Fate, lost, reply_lost, delivered, send}
use crate_probe.Runner.Reporter.{Sent, sized, sent_offset, chunk_seq, flush_file}
use crate_probe.Runner.Reporter.Once.{push_file}
use crate_probe.Runner.Reporter.InSync.{
  InSync, push, returned, flush_file-InSync, flush_file-new, flush_file-old, push_bytes-some,
  lt_or_eq, InSync-grow, sent_offset-note_sent,
}
use crate_probe.Runner.Reporter.Rounds.{push_chunk-ok}

-- An attempt whose request is lost.
abbrev pub IsLost : Fate → Type 0
IsLost lost = Unit
IsLost (reply_lost now) = ⊥
IsLost (delivered now) = ⊥

module _ {A : Type 0} (serve : ℕ → Server → Answer A) (s : Server) (now : ℕ) (rest : List Fate)
    (answers : (a : A) × ((serve now s).0 ≡ ok a)) (is_success : ℕ → Bool)
    (success : is_success 200 ≡ true) where
  -- The loop returns if an attempt that it makes is answered.
  request_loop-returned :
      (left : ℕ) (last_error : Bool) (losses : List Fate)
      → All IsLost losses
      → length losses < left
      → returned
          (request_loop is_success
            (send serve)
            left
            last_error
            (record { server = s; fates = losses ++ delivered now ∷ rest })).0
        ≡ true
  unfolding request_loop
  request_loop-returned zero last_error losses lose few = absurd (omega arith)
  request_loop-returned (suc left) last_error [] lose few =
      let (a, e) = answers in
      let one : request_loop is_success (send serve) (suc left) last_error
            (record { server = s; fates = delivered now ∷ rest })
          ≡ (body (some a), record { server = (serve now s).1; fates = rest }) =
        ground arith in
      rw one refl
  request_loop-returned (suc left) last_error (lost ∷ losses) lose few =
      let more : ltb 0 left ≡ true = ground arith in
      rw more (request_loop-returned left true losses lose.1 (omega arith))
  request_loop-returned (suc left) last_error (reply_lost t ∷ losses) lose few = absurd lose.0
  request_loop-returned (suc left) last_error (delivered t ∷ losses) lose few = absurd lose.0

module _ (env : Env) (runner : String) (auth : Option Text) (job_id : ℕ) (lease : String)
    (is_success : ℕ → Bool) (success : is_success 200 ≡ true) where
  push-delivered :
      (attempts : ℕ) (path : String) (content : List ℕ) (seq : ℤ) (s : Server) (target : FilePath)
      (now : ℕ) (losses rest : List Fate)
      → IsAdmitted env runner auth job_id lease path target s.db
      → All IsLost losses
      → length losses < attempts
      → (push env runner auth job_id lease is_success attempts path append content
          (some seq)
          (record { server = s; fates = losses ++ delivered now ∷ rest })).0
        ≡ true
  unfolding push_file request_with_retry
  push-delivered attempts path content seq s target now losses rest admitted lose few =
      let (b, e) =
        push_chunk-ok env runner auth job_id lease is_success success path content seq s in
      request_loop-returned
        (λ now. push_runner_job_file env runner auth job_id lease path append content (some seq)) s
        now rest
        (
          b,
          ap (λ (a : Answer Bool). a.0)
                (push_append env runner auth job_id lease path content seq s target admitted)
              ∙ e,
        )
        is_success success attempts false losses lose few

  -- A flush whose requests are lost fewer times than it tries, until one is answered, brings the server's
  -- copy up to date: it is then the whole local file. The copy is in step before the flush: the server
  -- has the first bytes of the file, as many as the reporter takes for sent, and the next chunk number is
  -- new to it. The file only grew since then, the flush reads as many bytes as the size it saw, and
  -- the unsent bytes are text that decodes to itself.
  pub flush_file-delivers :
      (transcode : List ℕ → List ℕ) (attempts : ℕ) (path : String) (target : FilePath)
      (old more : List ℕ) (r : Sent) (s : Server) (now : ℕ) (losses rest : List Fate)
      → InSync env runner auth job_id lease path target old r s
      → transcode (drop (sent_offset path r) (old ++ more))
        ≡ drop (sent_offset path r) (old ++ more)
      → All IsLost losses
      → length losses < attempts
      → let local = old ++ more in
        let (r', n') =
          flush_file transcode
            (push env runner auth job_id lease is_success attempts)
            path
            append
            (sized (length local) (some local))
            r
            (record { server = s; fates = losses ++ delivered now ∷ rest }) in
        coalesce (read target n'.server.disk) [] ≡ local
  flush_file-delivers transcode attempts path target old more r s now losses rest h plain lose few =
      let local = old ++ more in
      let content = drop (sent_offset path r) local in
      let n : Network = record { server = s; fates = losses ++ delivered now ∷ rest } in
      let p =
        push env runner auth job_id lease is_success attempts path append content
          (some (pos (chunk_seq path r))) n in
      let sent : p.0 ≡ true =
        push-delivered attempts path content (pos (chunk_seq path r)) s target now losses rest
          h.admitted lose few in
      let step =
        flush_file transcode (push env runner auth job_id lease is_success attempts) path append
          (sized (length local) (some local)) r n in
      let synced =
        (flush_file-InSync env runner auth job_id lease is_success transcode attempts path target
          old more r n (omega arith) h plain (inl sent)).0 in
      let offset : sent_offset path step.0 ≡ length local =
        elim (lt_or_eq (sent_offset path r) (length local)
          (InSync-grow env runner auth job_id lease old more h).within) [
            | inr all ↦
                rw
                  (flush_file-old env runner auth job_id lease is_success transcode attempts path
                    local r n all)
                  all
            | inl some_new ↦
                rw
                  (
                    flush_file-new env runner auth job_id lease is_success transcode attempts path
                        (length local) local r n some_new,
                    push_bytes-some env runner auth job_id lease is_success transcode attempts path
                        (length local) content r n
                        (omega (arith, length-drop (sent_offset path r) local)) plain,
                    sent,
                  )
                  (sent_offset-note_sent path (length local) r)
          ] in
      synced.copied ∙ ap (λ k. take k local) offset ∙ take-length local
