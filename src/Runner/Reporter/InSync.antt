-- ===== src/Runner/Reporter/InSync.antt =====
-- backend/runner/reporter.py, `_flush_files`, over backend/app/main.py, `push_runner_job_file`: a local
-- file that only grows, and the file that the server has of it.
use crate_probe.Prelude.{
  ℕ, ◌≤◌, [], Bool, true, false, Option, List, String, ◌≡◌, ℤ, pos, coalesce, length, take, ◌++◌,
  arith, length-append, ◌∙◌, drop, sym, take_append-le, eq_iff, if◌then◌else◌, refl,
  take-append-drop, ◌<◌, take-length, some, ◌∷◌, ◌⊎◌, inl, subst, ap, inr, Bool-cases, length-drop,
  ltb,
}
use crate_probe.FilePath.{Text, FilePath}
use crate_probe.JobFiles.{read}
use crate_probe.Api.Types.{Env, Server}
use crate_probe.Api.Files.{Mode, append}
use crate_probe.Api.Pushes.{IsAdmitted, Admits-push_chunk}
use crate_probe.Database.Chunks.Laws.{last_chunk, is_new}
use crate_probe.Runner.{HttpResult, body, status_error, network_error, exhausted}
use crate_probe.Runner.Network.{Network}
use crate_probe.Runner.Reporter.{
  Sent, sent_offset, chunk_seq, note_sent, push_bytes, flush_file, read_from, sized,
}
use crate_probe.Runner.Reporter.Once.{push_file, taken, push_file_either}
use crate_probe.Api.Pushes.Stream.{last_chunk-push_chunk, read-push_step}

-- Whether a call of the client returned.
abbrev pub returned : {A : Type 0} → HttpResult A → Bool
returned (body a) = true
returned (status_error n) = false
returned network_error = false
returned exhausted = false

returned-body : {A : Type 0} (r : HttpResult A) → returned r ≡ true → (a : A) × (r ≡ body a)
returned-body (body a) e = (a, refl)
returned-body (status_error n) e = absurd (cc)
returned-body network_error e = absurd (cc)
returned-body exhausted e = absurd (cc)

pub sent_offset-note_sent :
    (path : String) (size : ℕ) (r : Sent) → sent_offset path (note_sent path append size r) ≡ size
unfolding note_sent
sent_offset-note_sent path size r = ground (arith, eq_iff path path)

pub lt_or_eq : (a b : ℕ) → a ≤ b → (a < b) ⊎ (a ≡ b)
lt_or_eq a b h = elim (Bool-cases (ltb a b)) [
  | inl x ↦ inl (ground arith)
  | inr y ↦ inr (ground arith)
]

appended :
    (old local : List ℕ) (offset offset' : ℕ) (new : Bool)
    → old ≡ take offset local
    → new ≡ true
    → offset' ≡ length local
    → old ++ (if new then drop offset local else []) ≡ take offset' local
appended old local offset offset' new copied fresh e =
    rw (copied, fresh, e) (take-append-drop offset local ∙ sym (take-length local))

module _ (env : Env) (runner : String) (auth : Option Text) (job_id : ℕ) (lease : String) where
  -- The server has the first bytes of the local file, as many as the reporter takes for sent, and the
  -- next number is new to it.
  pub record InSync (path : String) (target : FilePath) (local : List ℕ) (r : Sent) (s : Server)
      : Type 0 where
    pub admitted : IsAdmitted env runner auth job_id lease path target s.db
    pub within : sent_offset path r ≤ length local
    pub copied : coalesce (read target s.disk) [] ≡ take (sent_offset path r) local
    pub fresh : is_new (pos (chunk_seq path r)) (last_chunk job_id path s.db) ≡ true

  pub InSync-grow :
      {path : String} {target : FilePath} {r : Sent} {s : Server} (local more : List ℕ)
      → InSync path target local r s
      → InSync path target (local ++ more) r s
  InSync-grow {path} {target} {r} {s} local more h = record {
    admitted = h.admitted;
    within = omega (arith, length-append local more, h.within);
    copied = h.copied ∙ sym (take_append-le (sent_offset path r) local more h.within);
    fresh = h.fresh;
  }

  pub InSync-sent :
      (path : String) (target : FilePath) (local : List ℕ) (r : Sent) (s : Server)
      → InSync path target local r s
      → (admitted : IsAdmitted env runner auth job_id lease path target s.db)
      → InSync path target local
          (note_sent path append (length local) r)
          (taken env job_id path (drop (sent_offset path r) local) (pos (chunk_seq path r)) s)
  unfolding note_sent
  InSync-sent path target local r s h admitted =
      let content = drop (sent_offset path r) local in
      let seq = pos (chunk_seq path r) in
      record {
        admitted =
            Admits-push_chunk env runner auth job_id lease path content seq s target admitted;
        within = ground (arith, eq_iff path path);
        copied =
            read-push_step env runner auth job_id lease path content seq s target admitted
            ∙ appended (coalesce (read target s.disk) []) local (sent_offset path r)
                (sent_offset path (note_sent path append (length local) r))
                (is_new seq (last_chunk job_id path s.db)) h.copied h.fresh
                (ground (arith, eq_iff path path));
        fresh = ground (
          arith,
          eq_iff path path,
          h.fresh,
          last_chunk-push_chunk env runner auth job_id lease path content seq s,
        );
      }

  -- What a flush leaves: the server's copy is in step, and is the whole local file unless nothing was sent.
  abbrev pub Flushed : String → FilePath → List ℕ → Server → Sent → Sent → Server → Type 0
  Flushed path target local s r r' s' =
      InSync path target local r' s'
      × ((coalesce (read target s'.disk) [] ≡ local) ⊎ ((r' ≡ r) × (s' ≡ s)))

  Flushed-whole :
      {path : String} {target : FilePath} {local : List ℕ} {s : Server} {r : Sent} (r' : Sent)
      (s' : Server)
      → InSync path target local r' s'
      → sent_offset path r' ≡ length local
      → Flushed path target local s r r' s'
  Flushed-whole {local} r' s' h e =
      (h, inl (h.copied ∙ ap (λ k. take k local) e ∙ take-length local))

  Flushed-step :
      (path : String) (target : FilePath) (local : List ℕ) (r : Sent) (n : Network) (ok : Bool)
      (n' : Network)
      → InSync path target local r n.server
      → (ok ≡ true
          → n'.server
            ≡ taken env job_id path
                (drop (sent_offset path r) local)
                (pos (chunk_seq path r))
                n.server)
      → (ok ≡ false → n'.server ≡ n.server)
      → Flushed path target local n.server r
          (if ok then note_sent path append (length local) r else r)
          n'.server
  Flushed-step path target local r n true n' h took kept =
      Flushed-whole (note_sent path append (length local) r) n'.server
        (subst (InSync path target local (note_sent path append (length local) r)) (sym (took refl))
          (InSync-sent path target local r n.server h h.admitted))
        (sent_offset-note_sent path (length local) r)
  Flushed-step path target local r n false n' h took kept =
      (subst (InSync path target local r) (sym (kept refl)) h, inr (refl, kept refl))

module _ (env : Env) (runner : String) (auth : Option Text) (job_id : ℕ) (lease : String)
    (is_success : ℕ → Bool) where
  abbrev pub push : ℕ → String → Mode → List ℕ → Option ℤ → Network → Bool × Network
  push attempts path mode content seq n =
      let (result, n') =
        push_file env runner auth job_id lease is_success attempts path mode content seq n in
      (returned result, n')

  pub push_bytes-some :
      (transcode : List ℕ → List ℕ) (attempts : ℕ) (path : String) (size : ℕ) (bytes : List ℕ)
      (r : Sent) (n : Network)
      → 0 < length bytes
      → transcode bytes ≡ bytes
      → push_bytes transcode (push attempts) path append size bytes r n ≡ (
          let (ok, n') = push attempts path append bytes (some (pos (chunk_seq path r))) n in
          (if ok then note_sent path append size r else r, n'))
  unfolding push_bytes
  push_bytes-some transcode attempts path size [] r n long plain = absurd (omega arith)
  push_bytes-some transcode attempts path size (b ∷ bytes) r n long plain = rw plain refl

  pub flush_file-new :
      (transcode : List ℕ → List ℕ) (attempts : ℕ) (path : String) (size : ℕ) (bytes : List ℕ)
      (r : Sent) (n : Network)
      → sent_offset path r < size
      → flush_file transcode (push attempts) path append (sized size (some bytes)) r n
        ≡ push_bytes transcode
            (push attempts)
            path
            append
            size
            (drop (sent_offset path r) bytes)
            r
            n
  unfolding flush_file read_from
  flush_file-new transcode attempts path size bytes r n h = ground arith

  pub flush_file-old :
      (transcode : List ℕ → List ℕ) (attempts : ℕ) (path : String) (local : List ℕ) (r : Sent)
      (n : Network)
      → sent_offset path r ≡ length local
      → flush_file transcode (push attempts) path append (sized (length local) (some local)) r n
        ≡ (r, n)
  unfolding flush_file read_from
  flush_file-old transcode attempts path local r n h = ground arith

  push-returned :
      (attempts : ℕ) (path : String) (content : List ℕ) (seq : ℤ) (n : Network) (target : FilePath)
      → 0 < attempts
      → IsAdmitted env runner auth job_id lease path target n.server.db
      → (push attempts path append content (some seq) n).0 ≡ true
      → (push attempts path append content (some seq) n).1.server
        ≡ taken env job_id path content seq n.server
  push-returned attempts path content seq n target positive admitted e =
      let (either, whole) =
        push_file_either env runner auth job_id lease is_success path content seq n.server target
          admitted attempts n positive refl in
      let (b, f) = returned-body _ e in whole b f

  -- While a local file only grows, each flush keeps the server's copy in step with it: the copy is always
  -- the first bytes of the local file, and after the flush it is the whole of it unless nothing was
  -- sent. The flush reads as many bytes as the size it saw, the unsent bytes are text that decodes to
  -- itself, and the push returns or does not reach the server.
  pub flush_file-InSync :
      (transcode : List ℕ → List ℕ) (attempts : ℕ) (path : String) (target : FilePath)
      (old more : List ℕ) (r : Sent) (n : Network)
      → 0 < attempts
      → InSync env runner auth job_id lease path target old r n.server
      → transcode (drop (sent_offset path r) (old ++ more))
        ≡ drop (sent_offset path r) (old ++ more)
      → (let p =
            push attempts path append
              (drop (sent_offset path r) (old ++ more))
              (some (pos (chunk_seq path r)))
              n in
          (p.0 ≡ true) ⊎ (p.1.server ≡ n.server))
      → let local = old ++ more in
        let (r', n') =
          flush_file transcode
            (push attempts)
            path
            append
            (sized (length local) (some local))
            r
            n in
        Flushed env runner auth job_id lease path target local n.server r r' n'.server
  flush_file-InSync transcode attempts path target old more r n positive h plain settles =
      let local = old ++ more in
      let grown = InSync-grow env runner auth job_id lease old more h in
      let p =
        push attempts path append (drop (sent_offset path r) local) (some (pos (chunk_seq path r)))
          n in
      elim (lt_or_eq (sent_offset path r) (length local) grown.within) [
        | inr all ↦
            rw (flush_file-old transcode attempts path local r n all) (grown, inr (refl, refl))
        | inl some_new ↦
            rw
              (
                flush_file-new transcode attempts path (length local) local r n some_new,
                push_bytes-some transcode attempts path (length local)
                    (drop (sent_offset path r) local) r n
                    (omega (arith, length-drop (sent_offset path r) local)) plain,
              )
              (Flushed-step env runner auth job_id lease path target local r n p.0 p.1 grown
                (λ ok. push-returned attempts path _ _ n target positive h.admitted ok)
                (λ failed. elim settles [ inl ok ↦ absurd (cc) | inr kept ↦ kept ]))
      ]
