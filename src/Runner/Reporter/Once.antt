-- ===== src/Runner/Reporter/Once.antt =====
-- backend/runner/client.py, `push_file`, and backend/app/main.py, `push_runner_job_file`: a chunk that is
-- pushed over a network that loses requests and replies.
use crate_probe.Prelude.{
  ℕ, ◌<◌, ◌⊎◌, Bool, Option, some, List, String, ◌≡◌, ℤ, inl, ap, true, if◌then◌else◌, coalesce, [],
  ◌++◌,
}
use crate_probe.FilePath.{Text, FilePath, path_eq}
use crate_probe.Api.Types.{Env, Server, Answer}
use crate_probe.Api.Files.{Mode, append, push_chunk, push_runner_job_file}
use crate_probe.Api.Pushes.{IsAdmitted, push_append, push_twice, push_chunk_new}
use crate_probe.Runner.{HttpResult, body}
use crate_probe.Runner.Client.{request_with_retry}
use crate_probe.Runner.Network.{Network, send}
use crate_probe.Runner.Network.Once.{request_with_retry-once}
use crate_probe.Database.Chunks.Laws.{is_new, last_chunk}
use crate_probe.JobFiles.{read}

-- The server once it took a chunk.
abbrev pub taken : Env → ℕ → String → List ℕ → ℤ → Server → Server
taken env job_id path content seq s = (push_chunk env job_id path content seq s).1

module _ (env : Env) (runner : String) (auth : Option Text) (job_id : ℕ) (lease : String)
    (is_success : ℕ → Bool) where
  -- `push_file`, with the attempts that are made at most
  unfoldable pub push_file :
      ℕ → String → Mode → List ℕ → Option ℤ → Network → HttpResult (Option Bool) × Network
  push_file attempts path mode content seq n =
      request_with_retry is_success
        (send (λ now. push_runner_job_file env runner auth job_id lease path mode content seq))
        attempts n

  module _ (path : String) (content : List ℕ) (seq : ℤ) (s : Server) (target : FilePath)
      (admitted : IsAdmitted env runner auth job_id lease path target s.db) where
    serve_once :
        (now : ℕ) (t : Server)
        → t ≡ s
        → (push_runner_job_file env runner auth job_id lease path append content (some seq) t).1
          ≡ (taken env job_id path content seq s)
    serve_once now t e = rw e (
        ap (λ (a : Answer Bool). a.1)
          (push_append env runner auth job_id lease path content seq s target admitted))

    serve_again :
        (now : ℕ) (t : Server)
        → t ≡ (taken env job_id path content seq s)
        → (push_runner_job_file env runner auth job_id lease path append content (some seq) t).1
          ≡ (taken env job_id path content seq s)
    serve_again now t e = rw e (
        ap (λ (a : Answer Bool). a.1)
          (push_twice env runner auth job_id lease path content content seq s target admitted))

    pub push_file_either :
        (attempts : ℕ) (n : Network)
        → 0 < attempts
        → n.server ≡ s
        → let (result, n') = push_file attempts path append content (some seq) n in
          ((n'.server ≡ s) ⊎ (n'.server ≡ (taken env job_id path content seq s)))
          × ((b : Option Bool)
              → result ≡ body b
              → n'.server ≡ (taken env job_id path content seq s))
    unfolding push_file
    push_file_either attempts n positive e =
        request_with_retry-once
          (λ now. push_runner_job_file env runner auth job_id lease path append content (some seq))
          (λ t. t ≡ s) (λ t. t ≡ (taken env job_id path content seq s)) serve_once serve_again
          is_success attempts n positive (inl e)

    -- A chunk with a new number that is pushed by an admitted runner is appended once, however many of
    -- the attempts reach the server: the file ends with it once if the call returns, and once or
    -- not at all if it fails; no other file changes.
    pub push_file-once :
        (attempts : ℕ) (n : Network)
        → 0 < attempts
        → n.server ≡ s
        → is_new seq (last_chunk job_id path s.db) ≡ true
        → let (result, n') = push_file attempts path append content (some seq) n in
          ((n'.server ≡ s) ⊎ (n'.server ≡ (taken env job_id path content seq s)))
          × ((b : Option Bool)
              → result ≡ body b
              → n'.server ≡ (taken env job_id path content seq s))
          × ((q : FilePath)
              → read q (taken env job_id path content seq s).disk ≡ (
                  if path_eq target q
                  then some (coalesce (read target s.disk) [] ++ content)
                  else read q s.disk))
    push_file-once attempts n positive e new =
        let (either, returned) = push_file_either attempts n positive e in
        (
          either,
          returned,
          λ q. push_chunk_new env runner auth job_id lease path content seq s target q admitted new,
        )
