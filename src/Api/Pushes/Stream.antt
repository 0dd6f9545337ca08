-- ===== src/Api/Pushes/Stream.antt =====
-- backend/app/main.py, `push_runner_job_file`: how a file is put together from the chunks that arrive.
use crate_probe.Prelude.{
  [], ◌∷◌, ◌++◌, ℕ, Option, Bool, String, ℤ, List, if◌then◌else◌, ◌≡◌, some, coalesce, append_assoc,
  ap, Bool-cases, sym, append-nil, ◌∙◌, inl, arith, inr, true, false, ==-self, refl, eq_iff,
}
use crate_probe.FilePath.{FilePath, Text}
use crate_probe.FilePath.Prefix.{path_eq_refl}
use crate_probe.JobFiles.{read}
use crate_probe.Database.Chunks.Laws.{last_chunk, is_new, last_chunk-record_job_file_chunk}
use crate_probe.Api.Types.{Env, Server, Answer}
use crate_probe.Api.Files.{append, push_chunk, push_runner_job_file}
use crate_probe.Api.Pushes.{
  IsAdmitted, push_append, Admits-push_chunk, push_chunk_old, push_chunk_new, push_chunk-db,
}

-- The bytes of the chunks whose number is above the last one taken.
unfoldable pub in_order : Option ℤ → List (List ℕ × ℤ) → List ℕ
in_order last [] = []
in_order last ((content, seq) ∷ ps) =
    if is_new seq last then content ++ in_order (some seq) ps else in_order last ps

joined_bytes :
    (new : Bool) (content : List ℕ) (seq : ℤ) (last last' : Option ℤ) (ps : List (List ℕ × ℤ))
    (old old' : List ℕ)
    → last' ≡ (if new then some seq else last)
    → old' ≡ old ++ (if new then content else [])
    → old' ++ in_order last' ps
      ≡ old ++ (if new then content ++ in_order (some seq) ps else in_order last ps)
joined_bytes true content seq last last' ps old old' e f =
    rw (e, f) (append_assoc old content (in_order (some seq) ps))
joined_bytes false content seq last last' ps old old' e f = rw (e, f) (rw (append-nil old) refl)

module _ (env : Env) (runner : String) (auth : Option Text) (job_id : ℕ) (lease path : String) where
  -- A runner's pushes to one path, in the order in which they arrive.
  unfoldable pub push_all : List (List ℕ × ℤ) → Server → Server
  push_all [] s = s
  push_all ((content, seq) ∷ ps) s =
      push_all ps
        (push_runner_job_file env runner auth job_id lease path append content (some seq) s).1

  pub last_chunk-push_chunk :
      (content : List ℕ) (seq : ℤ) (s : Server)
      → last_chunk job_id path (push_chunk env job_id path content seq s).1.db ≡ (
          if is_new seq (last_chunk job_id path s.db)
          then some seq
          else last_chunk job_id path s.db)
  last_chunk-push_chunk content seq s =
      ap (last_chunk job_id path) (push_chunk-db env runner auth job_id lease path content seq s)
      ∙ ground (
        arith,
        last_chunk-record_job_file_chunk job_id path seq s.db job_id path,
        ==-self job_id,
        eq_iff path path,
      )

  pub read-push_step :
      (content : List ℕ) (seq : ℤ) (s : Server) (target : FilePath)
      → IsAdmitted env runner auth job_id lease path target s.db
      → coalesce (read target (push_chunk env job_id path content seq s).1.disk) []
        ≡ coalesce (read target s.disk) []
          ++ (if is_new seq (last_chunk job_id path s.db) then content else [])
  read-push_step content seq s target h =
      elim (Bool-cases (is_new seq (last_chunk job_id path s.db))) [
        | inl new ↦ rw new (
            rw
              (
                push_chunk_new env runner auth job_id lease path content seq s target target h new,
                path_eq_refl target,
              )
              refl)
        | inr old ↦ rw old (
            rw (push_chunk_old env runner auth job_id lease path content seq s old)
              (sym (append-nil _)))
      ]

  -- Whatever chunks arrive from an admitted runner for one path, in whatever order and however often,
  -- the file is what it was followed by the bytes of the chunks, in the order of arrival, whose number
  -- is above the last one taken before them.
  pub read-push_all :
      (ps : List (List ℕ × ℤ)) (s : Server) (target : FilePath)
      → IsAdmitted env runner auth job_id lease path target s.db
      → coalesce (read target (push_all ps s).disk) []
        ≡ coalesce (read target s.disk) [] ++ in_order (last_chunk job_id path s.db) ps
  unfolding push_all in_order
  read-push_all [] s target h = sym (append-nil (coalesce (read target s.disk) []))
  read-push_all ((content, seq) ∷ ps) s target h =
      let t = (push_chunk env job_id path content seq s).1 in
      ap (λ (a : Answer Bool). coalesce (read target (push_all ps a.1).disk) [])
        (push_append env runner auth job_id lease path content seq s target h)
      ∙ read-push_all ps t target
          (Admits-push_chunk env runner auth job_id lease path content seq s target h)
      ∙ joined_bytes (is_new seq (last_chunk job_id path s.db)) content seq
          (last_chunk job_id path s.db) (last_chunk job_id path t.db) ps
          (coalesce (read target s.disk) []) (coalesce (read target t.disk) [])
          (last_chunk-push_chunk content seq s) (read-push_step content seq s target h)
