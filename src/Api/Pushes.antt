-- ===== src/Api/Pushes.antt =====
-- backend/app/main.py, `push_runner_job_file`: what a push does to the files of a job.
pub mod Stream
use crate_probe.FilePath.{Text, FilePath, codes, path_eq}
use crate_probe.FilePath.Prefix.{path_eq_refl}
use crate_probe.JobFiles.{
  Disk, read, safe_join, joined, unsafe, files_dir, append_file, stored, Joined, UnsafePath,
}
use crate_probe.JobFiles.Contents.{read-append_file}
use crate_probe.Database.Types.{JobRecord, Database}
use crate_probe.Database.Jobs.{get_job}
use crate_probe.Database.Runners.{get_runner_by_runner_id}
use crate_probe.Database.Chunks.{record_job_file_chunk}
use crate_probe.Database.Chunks.Laws.{
  last_chunk, is_new, record_job_file_chunk-is_new, last_chunk-record_job_file_chunk,
}
use crate_probe.Api.Types.{Env, Server, Reply, ok, http_error}
use crate_probe.Api.Auth.{require_runner_auth, require_job_lease}
use crate_probe.Api.Files.{
  Mode, append, full, push_chunk, push_safe, lacks_seq, push_runner_job_file, disk_after,
}
use crate_probe.System.Safety.{Reply-cases}
use crate_probe.Prelude.{
  ℕ, String, Option, ℤ, ◌≡◌, List, arith, true, ◌⊎◌, false, inl, Bool, some, inr, Bool-cases, ◌≢◌,
  ap, sym, none, refl, ◌∙◌, ==-self, subst, if◌then◌else◌, coalesce, eq_iff, [], int_leb_refl, ◌++◌,
  append-nil, ◌∷◌, append_assoc,
}

-- What the endpoint asks of a push: the runner's token, the lease of the job, and a path that stays in
-- the job's tree, where it names `target`.
pub record IsAdmitted (env : Env) (runner : String) (auth : Option Text) (job_id : ℕ)
    (lease path : String) (target : FilePath) (db : Database) : Type 0 where
  pub authenticated : require_runner_auth env runner auth db ≡ true
  pub leased : (j : JobRecord) × (require_job_lease job_id runner lease db ≡ ok j)
  pub safe : safe_join env.resolve (files_dir env.store job_id) (codes path) ≡ joined target

Joined-cases :
    (j : Joined) → ((e : UnsafePath) × (j ≡ unsafe e)) ⊎ ((p : FilePath) × (j ≡ joined p))
Joined-cases (joined p) = inr (p, refl)
Joined-cases (unsafe e) = inl (e, refl)

record_again :
    (job_id : ℕ) (path : String) (seq : ℤ) (db : Database)
    → let db' = (record_job_file_chunk job_id path seq db).1 in
      is_new seq (last_chunk job_id path db') ≡ false
record_again job_id path seq db = ground (
  arith,
  last_chunk-record_job_file_chunk job_id path seq db job_id path,
  ==-self job_id,
  eq_iff path path,
  int_leb_refl seq,
)

record_unchanged :
    (job_id : ℕ) (path : String) (seq : ℤ) (db : Database)
    → is_new seq (last_chunk job_id path db) ≡ false
    → record_job_file_chunk job_id path seq db ≡ (false, db)
unfolding record_job_file_chunk last_chunk
record_unchanged job_id path seq db old = ground arith

module _ (env : Env) (runner : String) (auth : Option Text) (job_id : ℕ) (lease path : String) where
  abbrev pub Admits : FilePath → Database → Type 0
  Admits = IsAdmitted env runner auth job_id lease path

  -- A push is refused and changes nothing, or it is admitted and carried out.
  push_cases :
      (mode : Mode) (content : List ℕ) (seq : Option ℤ) (s : Server)
      → ((n : ℕ) × (push_runner_job_file env runner auth job_id lease path mode content seq s
            ≡ (http_error n, s)))
        ⊎ ((target : FilePath) × Admits target s.db
            × (lacks_seq mode seq ≡ false)
            × (push_runner_job_file env runner auth job_id lease path mode content seq s
                ≡ push_safe env job_id path mode content seq s))
  unfolding push_runner_job_file
  push_cases mode content seq s = elim (Bool-cases (require_runner_auth env runner auth s.db)) [
    | inr out ↦ inl (403, ground arith)
    | inl in_ ↦ elim (Reply-cases (require_job_lease job_id runner lease s.db)) [
      | inl (n, e) ↦ inl (n, ground arith)
      | inr (j, e) ↦ elim (Bool-cases (lacks_seq mode seq)) [
        | inl lacks ↦ inl (422, ground arith)
        | inr has ↦
            elim (Joined-cases (safe_join env.resolve (files_dir env.store job_id) (codes path))) [
              | inl (u, f) ↦ inl (400, ground arith)
              | inr (target, f) ↦ inr (
                target,
                record { authenticated = in_; leased = (j, e); safe = f },
                has,
                ground arith,
              )
            ]
      ]
    ]
  ]

  push_safe-ok :
      (mode : Mode) (content : List ℕ) (seq : Option ℤ) (s : Server) (n : ℕ)
      → lacks_seq mode seq ≡ false
      → (push_safe env job_id path mode content seq s).0 ≢ http_error n
  unfolding push_safe push_chunk
  push_safe-ok append content none s n has e = absurd (cc)
  push_safe-ok append content (some seq) s n has e = ground arith
  push_safe-ok full content seq s n has e = absurd (cc)

  -- A push that is refused, for its token, its lease, its path or a missing chunk number, changes
  -- nothing: it takes no chunk number and writes no file.
  pub push-refused :
      (mode : Mode) (content : List ℕ) (seq : Option ℤ) (s : Server) (n : ℕ)
      → (push_runner_job_file env runner auth job_id lease path mode content seq s).0 ≡ http_error n
      → (push_runner_job_file env runner auth job_id lease path mode content seq s).1 ≡ s
  push-refused mode content seq s n e = elim (push_cases mode content seq s) [
    | inl (m, refused) ↦ ap (λ a. a.1) refused
    | inr (target, admitted, has, same) ↦
        absurd (push_safe-ok mode content seq s n has (ap (λ a. a.0) (sym same) ∙ e))
  ]

  -- A push that is answered at all was admitted.
  pub push-admitted :
      (mode : Mode) (content : List ℕ) (seq : Option ℤ) (s : Server) (b : Bool)
      → (push_runner_job_file env runner auth job_id lease path mode content seq s).0 ≡ ok b
      → (target : FilePath) × Admits target s.db
  push-admitted mode content seq s b e = elim (push_cases mode content seq s) [
    | inl (m, refused) ↦ absurd (ground arith)
    | inr (target, admitted, has, same) ↦ (target, admitted)
  ]

  pub push_append :
      (content : List ℕ) (seq : ℤ) (s : Server) (target : FilePath)
      → Admits target s.db
      → push_runner_job_file env runner auth job_id lease path append content (some seq) s
        ≡ push_chunk env job_id path content seq s
  unfolding push_runner_job_file push_safe
  push_append content seq s target h = ground (arith, h.authenticated, h.leased.1, h.safe)

  Admits-record :
      (seq : ℤ) (target : FilePath) (db : Database)
      → Admits target db
      → Admits target (record_job_file_chunk job_id path seq db).1
  unfolding record_job_file_chunk require_runner_auth require_job_lease get_job
      get_runner_by_runner_id
  Admits-record seq target db h = record {
    authenticated = ground (arith, h.authenticated);
    leased = (h.leased.0, ground (arith, h.leased.1));
    safe = h.safe;
  }

  pub push_chunk-db :
      (content : List ℕ) (seq : ℤ) (s : Server)
      → (push_chunk env job_id path content seq s).1.db
        ≡ (record_job_file_chunk job_id path seq s.db).1
  unfolding push_chunk
  push_chunk-db content seq s = ground arith

  pub push_chunk_old :
      (content : List ℕ) (seq : ℤ) (s : Server)
      → is_new seq (last_chunk job_id path s.db) ≡ false
      → push_chunk env job_id path content seq s ≡ (ok false, s)
  unfolding push_chunk
  push_chunk_old content seq s old = rw (record_unchanged job_id path seq s.db old) refl

  pub Admits-push_chunk :
      (content : List ℕ) (seq : ℤ) (s : Server) (target : FilePath)
      → Admits target s.db
      → Admits target (push_chunk env job_id path content seq s).1.db
  Admits-push_chunk content seq s target h =
      subst (Admits target) (sym (push_chunk-db content seq s)) (Admits-record seq target s.db h)

  pub push_twice :
      (content content' : List ℕ) (seq : ℤ) (s : Server) (target : FilePath)
      → Admits target s.db
      → let s' = (push_chunk env job_id path content seq s).1 in
        push_runner_job_file env runner auth job_id lease path append content' (some seq) s'
        ≡ (ok false, s')
  push_twice content content' seq s target h =
      let s' = (push_chunk env job_id path content seq s).1 in
      push_append content' seq s' target (Admits-push_chunk content seq s target h)
      ∙ push_chunk_old content' seq s' (
          subst (λ d. is_new seq (last_chunk job_id path d) ≡ false)
            (sym (push_chunk-db content seq s)) (record_again job_id path seq s.db))

  -- A chunk that is pushed again after it was admitted, whatever it holds the second time, is
  -- answered as not applied and changes nothing.
  pub push-again :
      (content content' : List ℕ) (seq : ℤ) (s : Server) (b : Bool)
      → (push_runner_job_file env runner auth job_id lease path append content (some seq) s).0
        ≡ ok b
      → let s' =
          (push_runner_job_file env runner auth job_id lease path append content (some seq) s).1 in
        push_runner_job_file env runner auth job_id lease path append content' (some seq) s'
        ≡ (ok false, s')
  push-again content content' seq s b e =
      let (target, h) = push-admitted append content (some seq) s b e in
      rw (push_append content seq s target h) (push_twice content content' seq s target h)

  pub push_chunk_new :
      (content : List ℕ) (seq : ℤ) (s : Server) (target q : FilePath)
      → Admits target s.db
      → is_new seq (last_chunk job_id path s.db) ≡ true
      → read q (push_chunk env job_id path content seq s).1.disk ≡ (
          if path_eq target q
          then some (coalesce (read target s.disk) [] ++ content)
          else read q s.disk)
  unfolding push_chunk
  push_chunk_new content seq s target q h new =
      let (disk', e, r) =
        read-append_file env.resolve env.store job_id (codes path) s.disk content target h.safe in
      ground (arith, record_job_file_chunk-is_new job_id path seq s.db, r q)
