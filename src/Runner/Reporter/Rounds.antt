-- ===== src/Runner/Reporter/Rounds.antt =====
-- backend/runner/reporter.py, `run`, over backend/app/main.py, `push_runner_job_file`: the rounds of a reporter
-- with one local file.
use crate_probe.Prelude.{
  sym, subst, ℕ, zero, suc, ◌<◌, [], ◌∷◌, ◌++◌, Bool, true, false, Option, some, List, String, ◌≡◌,
  ◌⊎◌, inl, inr, ℤ, pos, length, drop, arith, refl, All, Bool-cases, ltb, ap, ◌∙◌, length-drop,
  All-append,
}
use crate_probe.FilePath.{Text, FilePath}
use crate_probe.Api.Types.{Env, Server, Answer, ok}
use crate_probe.Api.Files.{Mode, append, push_chunk, push_runner_job_file}
use crate_probe.Api.Pushes.{IsAdmitted, push_append}
use crate_probe.Runner.{HttpResult, body}
use crate_probe.Runner.Client.{request_loop, request_with_retry}
use crate_probe.Runner.Network.{Network, Fate, lost, reply_lost, delivered, send}
use crate_probe.Runner.Reporter.{
  Sent, LocalFile, sized, sent_offset, chunk_seq, flush_file, flush_files, run,
}
use crate_probe.Runner.Reporter.Once.{push_file}
use crate_probe.Runner.Reporter.InSync.{
  InSync, push, returned, flush_file-InSync, flush_file-new, flush_file-old, push_bytes-some,
  lt_or_eq, InSync-grow,
}
use crate_probe.Database.Chunks.{record_job_file_chunk}

-- An attempt whose reply is not lost.
abbrev pub IsClean : Fate → Type 0
IsClean lost = Unit
IsClean (reply_lost now) = ⊥
IsClean (delivered now) = Unit

-- Bytes of ASCII text, of which each is a character.
abbrev pub IsAscii : List ℕ → Type 0
IsAscii bytes = All (λ b. b < 128) bytes

IsAscii-drop : (k : ℕ) (bytes : List ℕ) → IsAscii bytes → IsAscii (drop k bytes)
IsAscii-drop zero bytes h = h
IsAscii-drop (suc k) [] h = tt
IsAscii-drop (suc k) (b ∷ bytes) h = IsAscii-drop k bytes h.1

-- What the rounds of a reporter find of one file: the size that `stat` gives, and the content that is read
-- afterwards.
unfoldable pub rounds_of : String → List (ℕ × List ℕ) → List (List (String × Mode × LocalFile))
rounds_of path [] = []
rounds_of path ((size, content) ∷ found) =
    ((path, append, sized size (some content)) ∷ []) ∷ rounds_of path found

-- The file only grows, by ASCII text, and never between the two system calls of one flush.
abbrev pub Grows : List ℕ → List (ℕ × List ℕ) → Type 0
Grows old [] = Unit
Grows old ((size, content) ∷ found) =
    ((more : List ℕ) × IsAscii more × (content ≡ old ++ more))
    × (size ≡ length content)
    × Grows content found

-- The content that was read last.
unfoldable pub last_read : List ℕ → List (ℕ × List ℕ) → List ℕ
last_read old [] = old
last_read old ((size, content) ∷ found) = last_read content found

-- Over a network that loses no replies a call returns, or its requests do not reach the server.
module _ {A : Type 0} (serve : ℕ → Server → Answer A) (s : Server)
    (answers : (now : ℕ) → (a : A) × ((serve now s).0 ≡ ok a)) (is_success : ℕ → Bool)
    (success : is_success 200 ≡ true) where
  abbrev Settles : HttpResult (Option A) × Network → Type 0
  Settles (result, n) = ((returned result ≡ true) ⊎ (n.server ≡ s)) × All IsClean n.fates

  request_loop-Settles :
      (left : ℕ) (last_error : Bool) (fates : List Fate)
      → All IsClean fates
      → Settles (
          request_loop is_success
            (send serve)
            left
            last_error
            (record { server = s; fates = fates }))
  unfolding request_loop
  request_loop-Settles zero true fates clean = (inr refl, clean)
  request_loop-Settles zero false fates clean = (inr refl, clean)
  request_loop-Settles (suc left) last_error [] clean = elim (Bool-cases (ltb 0 left)) [
    | inl more ↦ rw more (request_loop-Settles left true [] clean)
    | inr stop ↦ rw stop (inr refl, clean)
  ]
  request_loop-Settles (suc left) last_error (lost ∷ fates) clean = elim (Bool-cases (ltb 0 left)) [
    | inl more ↦ rw more (request_loop-Settles left true fates clean.1)
    | inr stop ↦ rw stop (inr refl, clean.1)
  ]
  request_loop-Settles (suc left) last_error (reply_lost now ∷ fates) clean = absurd clean.0
  request_loop-Settles (suc left) last_error (delivered now ∷ fates) clean =
      let (a, e) = answers now in
      let r =
        request_loop is_success (send serve) (suc left) last_error
          (record { server = s; fates = delivered now ∷ fates }) in
      let one : r ≡ (body (some a), record { server = (serve now s).1; fates = fates }) =
        ground arith in
      rw one (inl refl, clean.1)

module _ (env : Env) (runner : String) (auth : Option Text) (job_id : ℕ) (lease : String)
    (is_success : ℕ → Bool) (success : is_success 200 ≡ true) where
  pub push_chunk-ok :
      (path : String) (content : List ℕ) (seq : ℤ) (s : Server)
      → (b : Bool) × ((push_chunk env job_id path content seq s).0 ≡ ok b)
  unfolding push_chunk
  push_chunk-ok path content seq s =
      elim (Bool-cases (record_job_file_chunk job_id path seq s.db).0) [
        | inl new ↦ (true, ground arith)
        | inr old ↦ (false, ground arith)
      ]

  push-Settles :
      (attempts : ℕ) (path : String) (content : List ℕ) (seq : ℤ) (n : Network) (target : FilePath)
      → IsAdmitted env runner auth job_id lease path target n.server.db
      → All IsClean n.fates
      → let p =
          push env runner auth job_id lease is_success attempts path append content (some seq) n in
        ((p.0 ≡ true) ⊎ (p.1.server ≡ n.server)) × All IsClean p.1.fates
  unfolding push_file request_with_retry
  push-Settles attempts path content seq n target admitted clean =
      request_loop-Settles
        (λ now. push_runner_job_file env runner auth job_id lease path append content (some seq))
        n.server
        (λ now.
          let (b, e) = push_chunk-ok path content seq n.server in
          (
            b,
            ap (λ (a : Answer Bool). a.0)
                  (push_append env runner auth job_id lease path content seq n.server target
                    admitted)
                ∙ e,
          ))
        is_success success attempts false n.fates clean

  -- What a round keeps.
  abbrev Keeps : String → FilePath → List ℕ → Sent → Network → Type 0
  Keeps path target local r n =
      InSync env runner auth job_id lease path target local r n.server × All IsClean n.fates

  flush_file-Keeps :
      (transcode : List ℕ → List ℕ) (attempts : ℕ) (path : String) (target : FilePath)
      (old more : List ℕ) (r : Sent) (n : Network)
      → 0 < attempts
      → transcode (drop (sent_offset path r) (old ++ more))
        ≡ drop (sent_offset path r) (old ++ more)
      → Keeps path target old r n
      → let local = old ++ more in
        let (r', n') =
          flush_file transcode
            (push env runner auth job_id lease is_success attempts)
            path
            append
            (sized (length local) (some local))
            r
            n in
        Keeps path target local r' n'
  flush_file-Keeps transcode attempts path target old more r n positive plain (h, clean) =
      let local = old ++ more in
      let content = drop (sent_offset path r) local in
      let (settles, clean') =
        push-Settles attempts path content (pos (chunk_seq path r)) n target h.admitted clean in
      let flushed =
        flush_file-InSync env runner auth job_id lease is_success transcode attempts path target old
          more r n positive h plain settles in
      (
        flushed.0,
        elim (lt_or_eq (sent_offset path r) (length local)
            (InSync-grow env runner auth job_id lease old more h).within) [
              | inr all ↦
                  rw
                    (flush_file-old env runner auth job_id lease is_success transcode attempts path
                      local r n all)
                    clean
              | inl some_new ↦
                  rw
                    (
                      flush_file-new env runner auth job_id lease is_success transcode attempts path
                          (length local) local r n some_new,
                      push_bytes-some env runner auth job_id lease is_success transcode attempts
                          path (length local) content r n
                          (omega (arith, length-drop (sent_offset path r) local)) plain,
                    )
                    clean'
            ],
      )

  -- Over a network that may lose requests but loses no replies, the server's copy of a file that only grows
  -- stays the first bytes of it, through all the rounds of a reporter: nothing is lost, doubled or
  -- swapped, and the reporter knows how many bytes the server has. So it is if it is so at the start,
  -- if the file is ASCII text, which decodes to itself, and if it does not grow between the two system
  -- calls of a flush, for its size and for its content.
  pub run-InSync :
      (transcode : List ℕ → List ℕ) (attempts : ℕ) (path : String) (target : FilePath)
      (old : List ℕ) (found : List (ℕ × List ℕ)) (r : Sent) (n : Network)
      → 0 < attempts
      → ((bytes : List ℕ) → IsAscii bytes → transcode bytes ≡ bytes)
      → IsAscii old
      → Grows old found
      → InSync env runner auth job_id lease path target old r n.server
      → All IsClean n.fates
      → let (r', n') =
          run transcode
            (push env runner auth job_id lease is_success attempts)
            (rounds_of path found)
            r
            n in
        InSync env runner auth job_id lease path target (last_read old found) r' n'.server
  unfolding run flush_files rounds_of last_read
  run-InSync transcode attempts path target old [] r n positive plain ascii grows h clean = h
  run-InSync transcode attempts path target old ((size, content) ∷ found) r n positive plain ascii
        ((more, ascii_more, whole), steady, grows) h clean =
      let local = old ++ more in
      let ascii' = All-append (λ b. b < 128) old more ascii ascii_more in
      let p =
        flush_file transcode (push env runner auth job_id lease is_success attempts) path append
          (sized size (some content)) r n in
      let same : sized size (some content) ≡ sized (length local) (some local) =
        rw (steady, whole) refl in
      let (h', clean') =
        subst
          (λ (file : LocalFile).
            let q =
              flush_file transcode (push env runner auth job_id lease is_success attempts) path
                append file r n in
            Keeps path target local q.0 q.1)
          (sym same)
          (flush_file-Keeps transcode attempts path target old more r n positive
            (plain _ (IsAscii-drop (sent_offset path r) local ascii')) (h, clean)) in
      run-InSync transcode attempts path target content found p.0 p.1 positive plain
        (subst IsAscii (sym whole) ascii') grows
        (subst
          (λ (bytes : List ℕ). InSync env runner auth job_id lease path target bytes p.0 p.1.server)
          (sym whole) h')
        clean'
