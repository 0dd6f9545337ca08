-- ===== src/JobFiles/Contents.antt =====
-- backend/app/services/job_files.py: what the files hold after a push or an upload.
use crate_probe.FilePath.{Text, FilePath, path_eq}
use crate_probe.FilePath.Prefix.{path_eq_iff}
use crate_probe.JobFiles.{
  Disk, FileEntry, JobFileStore, read, write, unlink, append, kept, stored, append_file, write_full,
  safe_join, joined, files_dir, artifacts_dir, Read, chunk, broken, SaveResult, saved, save_loop,
  settle, save_artifact, unsafe_path, too_large, stream_error,
}
use crate_probe.Prelude.{
  ◌≡◌, List, if◌then◌else◌, ℕ, none, some, ◌<◌, arith, length, ◌∷◌, ◌≤◌, ◌++◌, [], Bool-cases, sym,
  ltb, append-nil, inl, ◌+◌, length-drop, inr, ◌-◌, take, take-append-drop, coalesce, length-append,
  ◌≢◌, Option-cases, append_assoc, ap, refl, ◌∙◌,
}
use crate_probe.Table.{find, delete}

find-unlink :
    (p q : FilePath) (disk : Disk)
    → find (λ (e : FileEntry). path_eq e.path q) (delete (λ e. path_eq e.path p) disk)
      ≡ (if path_eq p q then none else find (λ e. path_eq e.path q) disk)
find-unlink p q [] = ground arith
find-unlink p q (e ∷ disk) =
    ground
      (arith, find-unlink p q disk, path_eq_iff e.path p, path_eq_iff e.path q, path_eq_iff p q)

pub read-unlink :
    (p q : FilePath) (disk : Disk)
    → read q (unlink p disk) ≡ (if path_eq p q then none else read q disk)
unfolding read unlink
read-unlink p q disk = ground (arith, find-unlink p q disk)

pub read-write :
    (p q : FilePath) (bytes : List ℕ) (disk : Disk)
    → read q (write p bytes disk) ≡ (if path_eq p q then some bytes else read q disk)
unfolding read write
read-write p q bytes disk = ground (arith, find-unlink p q disk)

-- A write beyond the limit keeps the tail: the end of the content, within the limit.
pub kept-tail :
    (store : JobFileStore) (content : List ℕ)
    → 0 < store.full_mode_max_bytes
    → (length (kept store content) ≤ store.full_mode_max_bytes)
      × ((cut : List ℕ) × (content ≡ cut ++ kept store content))
unfolding kept
kept-tail store content pos = elim (Bool-cases (ltb store.full_mode_max_bytes (length content))) [
  | inl over ↦ (
    ground (arith, length-drop (length content - store.full_mode_max_bytes) content),
    (
      take (length content - store.full_mode_max_bytes) content,
      ground (arith, take-append-drop (length content - store.full_mode_max_bytes) content),
    ),
  )
  | inr fits ↦ (ground arith, ([], ground arith))
]

module _ (resolve : FilePath → FilePath) (store : JobFileStore) (job_id : ℕ) (path : Text)
    (disk : Disk) where
  -- A pushed chunk lands at the end of its file, and no other file changes.
  pub read-append_file :
      (content : List ℕ) (target : FilePath)
      → safe_join resolve (files_dir store job_id) path ≡ joined target
      → (disk' : Disk) × (append_file resolve store job_id path content disk ≡ stored disk')
        × ((q : FilePath)
            → read q disk' ≡ (
                if path_eq target q
                then some (coalesce (read target disk) [] ++ content)
                else read q disk))
  unfolding append_file append
  read-append_file content target e = elim (Option-cases (read target disk)) [
    | inl fresh ↦ (
      write target content disk,
      ground arith,
      λ q. ground (arith, read-write target q content disk),
    )
    | inr (old, held) ↦ (
      write target (old ++ content) disk,
      ground arith,
      λ q. ground (arith, read-write target q (old ++ content) disk),
    )
  ]

  -- A full push replaces its file by the kept tail, and no other file changes.
  pub read-write_full :
      (content : List ℕ) (target : FilePath)
      → safe_join resolve (files_dir store job_id) path ≡ joined target
      → (disk' : Disk) × (write_full resolve store job_id path content disk ≡ stored disk')
        × ((q : FilePath)
            → read q disk' ≡ (if path_eq target q then some (kept store content) else read q disk))
  unfolding write_full
  read-write_full content target e = (
    write target (kept store content) disk,
    ground arith,
    λ q. read-write target q (kept store content) disk,
  )

-- The chunks of a stream up to its end or its failure.
unfoldable pub stream_bytes : List Read → List ℕ
stream_bytes [] = []
stream_bytes (broken ∷ rest) = []
stream_bytes (chunk bytes ∷ rest) = bytes ++ stream_bytes rest

save_loop-saved :
    (cap total : ℕ) (written : List ℕ) (stream : List Read) {n : ℕ}
    → length written ≡ total
    → total ≤ cap
    → (save_loop cap total written stream).0 ≡ saved n
    → ((save_loop cap total written stream).1 ≡ written ++ stream_bytes stream)
      × (n ≡ length ((save_loop cap total written stream).1))
      × (n ≤ cap)
unfolding save_loop stream_bytes
save_loop-saved cap total written [] {n} l c h =
    (sym (append-nil written), ground arith, ground arith)
save_loop-saved cap total written (broken ∷ rest) l c h = absurd (cc)
save_loop-saved cap total written (chunk bytes ∷ rest) {n} l c h =
    elim (Bool-cases (ltb cap (total + length bytes))) [
      | inl over ↦ absurd (ground arith)
      | inr fits ↦ ground (
        arith,
        length-append written bytes,
        append_assoc written bytes (stream_bytes rest),
        save_loop-saved cap (total + length bytes) (written ++ bytes) rest {n = n},
      )
    ]

settle-saved :
    (target : FilePath) (disk : Disk) (r : SaveResult × List ℕ) {n : ℕ}
    → (settle target disk r).0 ≡ saved n
    → (r.0 ≡ saved n) × ((settle target disk r).1 ≡ write target r.1 disk)
unfolding settle
settle-saved target disk (saved total, written) h = (h, refl)
settle-saved target disk (too_large, written) h = absurd (cc)
settle-saved target disk (stream_error, written) h = absurd (cc)
settle-saved target disk (unsafe_path e, written) h = absurd (cc)

settle-unsaved :
    (target : FilePath) (disk : Disk) (r : SaveResult × List ℕ)
    → ((n : ℕ) → (settle target disk r).0 ≢ saved n)
    → (settle target disk r).1 ≡ unlink target (write target r.1 disk)
unfolding settle
settle-unsaved target disk (saved total, written) h = absurd (h total refl)
settle-unsaved target disk (too_large, written) h = refl
settle-unsaved target disk (stream_error, written) h = refl
settle-unsaved target disk (unsafe_path e, written) h = refl

module _ (resolve : FilePath → FilePath) (store : JobFileStore) (job_id : ℕ) (path : Text)
    (stream : List Read) (disk : Disk) (target : FilePath)
    (safe : safe_join resolve (artifacts_dir store job_id) path ≡ joined target) where
  save_artifact-settle :
      save_artifact resolve store job_id path stream disk
      ≡ settle target disk (save_loop store.artifact_max_bytes 0 [] stream)
  unfolding save_artifact
  save_artifact-settle = ground arith

  saved_disk :
      (n : ℕ)
      → (settle target disk (save_loop store.artifact_max_bytes 0 [] stream)).0 ≡ saved n
      → ((q : FilePath)
          → read q (save_artifact resolve store job_id path stream disk).1
            ≡ (if path_eq target q then some (stream_bytes stream) else read q disk))
        × (n ≡ length (stream_bytes stream))
        × (n ≤ store.artifact_max_bytes)
  saved_disk n h =
      let (ok, d) = settle-saved target disk (save_loop store.artifact_max_bytes 0 [] stream) h in
      let (w, l, c) = save_loop-saved store.artifact_max_bytes 0 [] stream refl (omega arith) ok in
      (
        λ q.
            ap (λ (r : SaveResult × Disk). read q r.1) save_artifact-settle
            ∙ ap (read q) d
            ∙ read-write target q (save_loop store.artifact_max_bytes 0 [] stream).1 disk
            ∙ rw w refl,
        l ∙ ap length w,
        c,
      )

  -- An artifact that is saved is the whole stream, its size is returned and within the limit, and no
  -- other file changes.
  pub save_artifact-saved :
      {n : ℕ}
      → (save_artifact resolve store job_id path stream disk).0 ≡ saved n
      → ((q : FilePath)
          → read q (save_artifact resolve store job_id path stream disk).1
            ≡ (if path_eq target q then some (stream_bytes stream) else read q disk))
        × (n ≡ length (stream_bytes stream))
        × (n ≤ store.artifact_max_bytes)
  save_artifact-saved {n} h =
      saved_disk n (ap (λ (r : SaveResult × Disk). r.0) (sym save_artifact-settle) ∙ h)

  -- An artifact that is not saved, for its size or for an error of the stream, leaves no file
  -- behind, not even one that stood there before, and no other file changes.
  pub save_artifact-unsaved :
      ((n : ℕ) → (save_artifact resolve store job_id path stream disk).0 ≢ saved n)
      → (q : FilePath)
      → read q (save_artifact resolve store job_id path stream disk).1
        ≡ (if path_eq target q then none else read q disk)
  save_artifact-unsaved h q =
      ap (λ (r : SaveResult × Disk). read q r.1) save_artifact-settle
      ∙ ap (read q) (
          settle-unsaved target disk (save_loop store.artifact_max_bytes 0 [] stream)
            (λ n e. h n (ap (λ (r : SaveResult × Disk). r.0) save_artifact-settle ∙ e)))
      ∙ read-unlink target q (write target (save_loop store.artifact_max_bytes 0 [] stream).1 disk)
      ∙ ground (arith, read-write target q (save_loop store.artifact_max_bytes 0 [] stream).1 disk)
