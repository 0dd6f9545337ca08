-- ===== src/Runner/Reporter/Lost.antt =====
-- backend/runner/reporter.py, `_flush_files`: a push whose reply is lost, and a file that grows while it
-- is read.
use crate_probe.Prelude.{
  ℕ, suc, [], ◌∷◌, ◌++◌, Bool, true, false, Option, some, List, String, ◌≡◌, ◌<◌, ℤ, pos, arith,
  coalesce, length, take, drop, ap, ◌∙◌, length-drop, if◌then◌else◌, length-append, take-length,
  ◌+◌, drop-length_append, eq_iff, refl, take-append-drop_longer,
}
use crate_probe.FilePath.{Text, FilePath}
use crate_probe.JobFiles.{read}
use crate_probe.Api.Types.{Env, Server, Answer, ok}
use crate_probe.Api.Files.{append, push_runner_job_file, push_chunk}
use crate_probe.Api.Pushes.{push_twice, IsAdmitted, push_append, Admits-push_chunk}
use crate_probe.Runner.Client.{request_with_retry, request_loop}
use crate_probe.Runner.Network.{Fate, delivered, Network}
use crate_probe.Runner.Reporter.{Sent, sized, sent_offset, chunk_seq, note_sent, flush_file}
use crate_probe.Runner.Reporter.Once.{push_file, taken}
use crate_probe.Runner.Reporter.InSync.{
  push, InSync, flush_file-new, push_bytes-some, InSync-sent, sent_offset-note_sent,
}
use crate_probe.Database.Chunks.Laws.{is_new, last_chunk, record_job_file_chunk-is_new}
use crate_probe.Api.Pushes.Stream.{last_chunk-push_chunk, read-push_step}

joined_new : (xs ys : List ℕ) (new : Bool) → new ≡ true → xs ++ (if new then ys else []) ≡ xs ++ ys
joined_new xs ys new e = rw e refl

ap_append : {xs xs' ys ys' : List ℕ} → xs ≡ xs' → ys ≡ ys' → xs ++ ys ≡ xs' ++ ys'
ap_append e f = rw (e, f) refl

module _ (env : Env) (runner : String) (auth : Option Text) (job_id : ℕ) (lease : String)
    (is_success : ℕ → Bool) (success : is_success 200 ≡ true) where
  abbrev pub answered : Server → ℕ → List Fate → Network
  answered s now fates = record { server = s; fates = delivered now ∷ fates }

  -- An attempt that is answered.
  push-answered :
      (left : ℕ) (path : String) (content : List ℕ) (seq : ℤ) (s : Server) (now : ℕ)
      (fates : List Fate) (b : Bool)
      → (push_runner_job_file env runner auth job_id lease path append content (some seq) s).0
        ≡ ok b
      → push env runner auth job_id lease is_success
          (suc left)
          path
          append
          content
          (some seq)
          (answered s now fates)
        ≡ (
          true,
          record {
            server =
                (push_runner_job_file env runner auth job_id lease path append content
                  (some seq)
                  s).1;
            fates = fates;
          },
        )
  unfolding push_file request_with_retry request_loop
  push-answered left path content seq s now fates b e = ground arith

  -- A flush that sees something new, over an attempt that is answered.
  flush_answered :
      (transcode : List ℕ → List ℕ) (left : ℕ) (path : String) (size : ℕ) (bytes : List ℕ)
      (r : Sent) (s : Server) (now : ℕ) (fates : List Fate) (b : Bool)
      → sent_offset path r < size
      → sent_offset path r < length bytes
      → let content = drop (sent_offset path r) bytes in
        let reply =
          push_runner_job_file env runner auth job_id lease path append content
            (some (pos (chunk_seq path r)))
            s in
        transcode content ≡ content
        → reply.0 ≡ ok b
        → flush_file transcode
            (push env runner auth job_id lease is_success (suc left))
            path
            append
            (sized size (some bytes))
            r
            (answered s now fates)
          ≡ (note_sent path append size r, record { server = reply.1; fates = fates })
  flush_answered transcode left path size bytes r s now fates b some_new some_read plain e =
      let content = drop (sent_offset path r) bytes in
      flush_file-new env runner auth job_id lease is_success transcode (suc left) path size bytes r
        (answered s now fates) some_new
      ∙ push_bytes-some env runner auth job_id lease is_success transcode (suc left) path size
          content r (answered s now fates) (omega (arith, length-drop (sent_offset path r) bytes))
          plain
      ∙ ap (λ (p : Bool × Network). (if p.0 then note_sent path append size r else r, p.1))
          (push-answered left path content (pos (chunk_seq path r)) s now fates b e)

  -- A push that the server took while its reply was lost costs the bytes that the file gained until the
  -- next flush: that flush sends them under the number that is already taken, the server drops them,
  -- and the reporter notes them as sent.
  pub flush_file-loses :
      (transcode : List ℕ → List ℕ) (left : ℕ) (path : String) (target : FilePath)
      (old more : List ℕ) (r : Sent) (s : Server) (now : ℕ) (fates : List Fate)
      → InSync env runner auth job_id lease path target old r s
      → sent_offset path r < length old
      → transcode (drop (sent_offset path r) (old ++ more))
        ≡ drop (sent_offset path r) (old ++ more)
      → let t = taken env job_id path (drop (sent_offset path r) old) (pos (chunk_seq path r)) s in
        let local = old ++ more in
        let (r', n') =
          flush_file transcode
            (push env runner auth job_id lease is_success (suc left))
            path
            append
            (sized (length local) (some local))
            r
            (answered t now fates) in
        (sent_offset path r' ≡ length local) × (coalesce (read target n'.server.disk) [] ≡ old)
  flush_file-loses transcode left path target old more r s now fates h some_new plain =
      let content = drop (sent_offset path r) old in
      let seq = pos (chunk_seq path r) in
      let t = taken env job_id path content seq s in
      let local = old ++ more in
      let again =
        push_twice env runner auth job_id lease path content (drop (sent_offset path r) local) seq s
          target h.admitted in
      let longer : sent_offset path r < length local = omega (arith, length-append old more) in
      let synced = InSync-sent env runner auth job_id lease path target old r s h h.admitted in
      rw
        (flush_answered transcode left path (length local) local r t now fates false longer longer
          plain (ap (λ (a : Answer Bool). a.0) again))
        (
          sent_offset-note_sent path (length local) r,
          ap (λ (a : Answer Bool). coalesce (read target a.1.disk) []) again
              ∙ synced.copied
              ∙ ap (λ k. take k old) (sent_offset-note_sent path (length old) r)
              ∙ take-length old,
        )

  push_new :
      (path : String) (content : List ℕ) (seq : ℤ) (s : Server) (target : FilePath)
      → IsAdmitted env runner auth job_id lease path target s.db
      → is_new seq (last_chunk job_id path s.db) ≡ true
      → (push_runner_job_file env runner auth job_id lease path append content (some seq) s).0
        ≡ ok true
  unfolding push_chunk
  push_new path content seq s target admitted new =
      ap (λ (a : Answer Bool). a.0)
        (push_append env runner auth job_id lease path content seq s target admitted)
      ∙ ground (arith, record_job_file_chunk-is_new job_id path seq s.db)

  -- A flush that sees something new and whose push is answered leaves the server with the chunk.
  flush_taken :
      (transcode : List ℕ → List ℕ) (left : ℕ) (path : String) (target : FilePath) (size : ℕ)
      (bytes : List ℕ) (r : Sent) (s : Server) (now : ℕ) (fates : List Fate)
      → IsAdmitted env runner auth job_id lease path target s.db
      → is_new (pos (chunk_seq path r)) (last_chunk job_id path s.db) ≡ true
      → sent_offset path r < size
      → sent_offset path r < length bytes
      → let content = drop (sent_offset path r) bytes in
        transcode content ≡ content
        → flush_file transcode
            (push env runner auth job_id lease is_success (suc left))
            path
            append
            (sized size (some bytes))
            r
            (answered s now fates)
          ≡ (
            note_sent path append size r,
            record {
              server = taken env job_id path content (pos (chunk_seq path r)) s;
              fates = fates;
            },
          )
  flush_taken transcode left path target size bytes r s now fates admitted new some_new some_read
        plain =
      let content = drop (sent_offset path r) bytes in
      let seq = pos (chunk_seq path r) in
      flush_answered transcode left path size bytes r s now fates true some_new some_read plain
        (push_new path content seq s target admitted new)
      ∙ ap
          (λ (a : Answer Bool).
            let w : Sent × Network =
              (note_sent path append size r, record { server = a.1; fates = fates }) in
            w)
          (push_append env runner auth job_id lease path content seq s target admitted)

  -- Bytes that a file gains between the two system calls of a flush, for its size and for its content,
  -- are sent twice: by this flush and, since it notes the size it saw, by the next.
  pub flush_file-doubles :
      (transcode : List ℕ → List ℕ) (left : ℕ) (path : String) (target : FilePath)
      (old more : List ℕ) (r : Sent) (s : Server) (now later : ℕ) (fates : List Fate)
      → InSync env runner auth job_id lease path target old r s
      → sent_offset path r < length old
      → 0 < length more
      → transcode (drop (sent_offset path r) (old ++ more))
        ≡ drop (sent_offset path r) (old ++ more)
      → transcode more ≡ more
      → let local = old ++ more in
        let flush =
          flush_file transcode
            (push env runner auth job_id lease is_success (suc left))
            path
            append in
        let (r', n') =
          flush (sized (length old) (some local)) r (answered s now (delivered later ∷ fates)) in
        let (r'', n'') = flush (sized (length local) (some local)) r' n' in
        coalesce (read target n''.server.disk) [] ≡ local ++ more
  flush_file-doubles transcode left path target old more r s now later fates h some_new gained plain
        plain' =
      let local = old ++ more in
      let content = drop (sent_offset path r) local in
      let seq = pos (chunk_seq path r) in
      let t = taken env job_id path content seq s in
      let r' = note_sent path append (length old) r in
      let longer : length local ≡ length old + length more = length-append old more in
      let offset : sent_offset path r' ≡ length old = sent_offset-note_sent path (length old) r in
      let rest : drop (sent_offset path r') local ≡ more =
        ap (λ k. drop k local) offset ∙ drop-length_append old more in
      let admitted' =
        Admits-push_chunk env runner auth job_id lease path content seq s target h.admitted in
      let new' : is_new (pos (chunk_seq path r')) (last_chunk job_id path t.db) ≡ true =
        unfold note_sent in
        ground (
          arith,
          eq_iff path path,
          h.fresh,
          last_chunk-push_chunk env runner auth job_id lease path content seq s,
        ) in
      let first =
        flush_taken transcode left path target (length old) local r s now (delivered later ∷ fates)
          h.admitted h.fresh some_new (omega arith) plain in
      let second =
        flush_taken transcode left path target (length local) local r' t later fates admitted' new'
          (omega arith) (omega arith) (rw rest plain') in
      ap
        (λ (p : Sent × Network).
          coalesce
            (read target
              (flush_file transcode (push env runner auth job_id lease is_success (suc left)) path
                append (sized (length local) (some local)) p.0 p.1).1.server.disk)
            [])
        first
      ∙ ap (λ (p : Sent × Network). coalesce (read target p.1.server.disk) []) second
      ∙ read-push_step env runner auth job_id lease path (drop (sent_offset path r') local)
          (pos (chunk_seq path r')) t target admitted'
      ∙ joined_new _ _ _ new'
      ∙ ap_append
          (read-push_step env runner auth job_id lease path content seq s target h.admitted
            ∙ joined_new _ _ _ h.fresh
            ∙ ap (λ zs. zs ++ content) h.copied
            ∙ take-append-drop_longer (sent_offset path r) old more h.within)
          rest
