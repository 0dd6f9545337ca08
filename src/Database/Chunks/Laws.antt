-- ===== src/Database/Chunks/Laws.antt =====
-- backend/app/database.py, chunk sequences: which chunks of a file are taken.
use crate_probe.Database.Chunks.{at_path, record_job_file_chunk, reset_job_file_chunk_sequences}
use crate_probe.Database.Types.{ChunkRow, Database}
use mathlib.Core.Path.{subst}
use crate_probe.Table.{find, delete}
use crate_probe.Table.Rows.{find-update, find-append, find-holds}
use crate_probe.Prelude.{
  ℕ, ℤ, String, Option, map_option, Bool, ◌≡◌, true, arith, some, ◌==◌, not, ◌&&◌, int_leb, str_eq,
  eq_iff, if◌then◌else◌, none, Option-cases, inl, inr, List, refl, ◌∷◌, [], ◌⊎◌, ==-self, false,
  Bool-cases, ◌∙◌, sym,
}

-- The last chunk that a file took.
unfoldable pub last_chunk : ℕ → String → Database → Option ℤ
last_chunk job_id path db =
    map_option (λ (c : ChunkRow). c.last_chunk_seq) (find (at_path job_id path) db.chunks)

-- whether a chunk number comes after the last one taken
abbrev pub is_new : ℤ → Option ℤ → Bool
is_new seq none = true
is_new seq (some last) = not (int_leb seq last)

at_found :
    (k : ℕ) (p : String) (db : Database)
    → (find (at_path k p) db.chunks ≡ none)
      ⊎ ((c : ChunkRow) × (find (at_path k p) db.chunks ≡ some c) × (at_path k p c ≡ true))
at_found k p db = elim (Option-cases (find (at_path k p) db.chunks)) [
  | inl missing ↦ inl missing
  | inr (c, e) ↦ inr (c, e, find-holds (at_path k p) db.chunks e)
]

same_job : (k j : ℕ) (p q : String) → k == j && str_eq p q ≡ true → k ≡ j
same_job k j p q h = ground arith

same_path : (k j : ℕ) (p q : String) → k == j && str_eq p q ≡ true → p ≡ q
same_path k j p q h = ground (arith, eq_iff p q)

module _ (job_id : ℕ) (path : String) (seq : ℤ) (db : Database) where
  -- A chunk is taken exactly when its number is above the last one of its file.
  pub record_job_file_chunk-is_new :
      (record_job_file_chunk job_id path seq db).0 ≡ is_new seq (last_chunk job_id path db)
  unfolding record_job_file_chunk last_chunk
  record_job_file_chunk-is_new = ground arith

  last_chunk-record_self :
      last_chunk job_id path (record_job_file_chunk job_id path seq db).1
      ≡ (if is_new seq (last_chunk job_id path db) then some seq else last_chunk job_id path db)
  unfolding record_job_file_chunk last_chunk
  last_chunk-record_self = ground (
    arith,
    find-append (at_path job_id path) db.chunks
        (record { job_id = job_id; path = path; last_chunk_seq = seq }),
    find-update (at_path job_id path) (at_path job_id path) (λ c. record c { last_chunk_seq = seq })
        (λ c. refl) db.chunks,
    ==-self job_id,
    eq_iff path path,
    at_found job_id path db,
  )

  last_chunk-record_other :
      (k : ℕ) (p : String)
      → k == job_id && str_eq p path ≡ false
      → last_chunk k p (record_job_file_chunk job_id path seq db).1 ≡ last_chunk k p db
  unfolding record_job_file_chunk last_chunk
  last_chunk-record_other k p apart = elim (Option-cases (find (at_path k p) db.chunks)) [
    | inl missing ↦ ground (
      arith,
      find-append (at_path k p) db.chunks
          (record { job_id = job_id; path = path; last_chunk_seq = seq }),
      find-update (at_path k p) (at_path job_id path) (λ c. record c { last_chunk_seq = seq })
          (λ c. refl) db.chunks,
      eq_iff path p,
      eq_iff p path,
    )
    | inr (c, e) ↦ ground (
      arith,
      find-append (at_path k p) db.chunks
          (record { job_id = job_id; path = path; last_chunk_seq = seq }),
      find-update (at_path k p) (at_path job_id path) (λ c. record c { last_chunk_seq = seq })
          (λ c. refl) db.chunks,
      find-holds (at_path k p) db.chunks e,
      eq_iff c.path path,
      eq_iff c.path p,
      eq_iff p path,
      eq_iff path p,
    )
  ]

  -- The file's last chunk is then the new number, if it was taken; no other file's changes.
  pub last_chunk-record_job_file_chunk :
      (k : ℕ) (p : String)
      → last_chunk k p (record_job_file_chunk job_id path seq db).1 ≡ (
          if (k == job_id && str_eq p path) && is_new seq (last_chunk job_id path db)
          then some seq
          else last_chunk k p db)
  last_chunk-record_job_file_chunk k p = elim (Bool-cases (k == job_id && str_eq p path)) [
    | inl here ↦
        rw (same_job k job_id p path here, same_path k job_id p path here)
          (last_chunk-record_self ∙ rw (==-self job_id, (eq_iff path path).1 refl) refl)
    | inr apart ↦ rw apart (last_chunk-record_other k p apart)
  ]

find-reset :
    (job_id k : ℕ) (p : String) (rows : List ChunkRow)
    → find (at_path k p) (delete (λ c. c.job_id == job_id) rows)
      ≡ (if k == job_id then none else find (at_path k p) rows)
find-reset job_id k p [] = ground arith
find-reset job_id k p (c ∷ rows) = ground (arith, find-reset job_id k p rows)

-- After the sequences of a job are reset none of its files has a last chunk, and others keep theirs.
pub last_chunk-reset :
    (job_id k : ℕ) (p : String) (db : Database)
    → last_chunk k p (reset_job_file_chunk_sequences job_id db)
      ≡ (if k == job_id then none else last_chunk k p db)
unfolding last_chunk reset_job_file_chunk_sequences
last_chunk-reset job_id k p db = ground (arith, find-reset job_id k p db.chunks)

-- A delivery is a job, a path and a chunk number; `deliver_all` runs them in order and collects the
-- numbers that were taken for one file.
pub record Delivery : Type 0 where
  pub job_id : ℕ
  pub path : String
  pub chunk_seq : ℤ

unfoldable pub taken_for : ℕ → String → List Delivery → Database → List ℤ
taken_for k p [] db = []
taken_for k p (d ∷ ds) db =
    let rest = taken_for k p ds (record_job_file_chunk d.job_id d.path d.chunk_seq db).1 in
    if (k == d.job_id && str_eq p d.path)
      && (record_job_file_chunk d.job_id d.path d.chunk_seq db).0
    then d.chunk_seq ∷ rest
    else rest

-- Each number exceeds the one before it.
abbrev pub Ascends : Option ℤ → List ℤ → Type 0
Ascends last [] = Unit
Ascends last (x ∷ xs) = (is_new x last ≡ true) × Ascends (some x) xs

Ascends-step :
    (hit fresh : Bool) (seq : ℤ) (mine its next : Option ℤ) (rest : List ℤ)
    → fresh ≡ is_new seq its
    → (hit ≡ true → its ≡ mine)
    → next ≡ (if hit && is_new seq its then some seq else mine)
    → Ascends next rest
    → Ascends mine (if hit && fresh then seq ∷ rest else rest)
Ascends-step true true seq mine its next rest f same e h =
    (rw (← same refl) (sym f), subst (λ o. Ascends o rest) (e ∙ rw (← f) refl) h)
Ascends-step true false seq mine its next rest f same e h =
    subst (λ o. Ascends o rest) (e ∙ rw (← f) refl) h
Ascends-step false fresh seq mine its next rest f same e h = subst (λ o. Ascends o rest) e h

same_last :
    (k j : ℕ) (p q : String) (db : Database)
    → k == j && str_eq p q ≡ true
    → last_chunk j q db ≡ last_chunk k p db
same_last k j p q db h = rw (same_job k j p q h, same_path k j p q h)

-- Whatever is delivered, in whatever order and however often, the chunks that one file takes have
-- strictly ascending numbers, above the last one it had.
pub taken_for-Ascends :
    (k : ℕ) (p : String) (ds : List Delivery) (db : Database)
    → Ascends (last_chunk k p db) (taken_for k p ds db)
unfolding taken_for
taken_for-Ascends k p [] db = tt
taken_for-Ascends k p (d ∷ ds) db =
    Ascends-step (k == d.job_id && str_eq p d.path)
      (record_job_file_chunk d.job_id d.path d.chunk_seq db).0 d.chunk_seq (last_chunk k p db)
      (last_chunk d.job_id d.path db)
      (last_chunk k p (record_job_file_chunk d.job_id d.path d.chunk_seq db).1)
      (taken_for k p ds (record_job_file_chunk d.job_id d.path d.chunk_seq db).1)
      (record_job_file_chunk-is_new d.job_id d.path d.chunk_seq db)
      (same_last k d.job_id p d.path db)
      (last_chunk-record_job_file_chunk d.job_id d.path d.chunk_seq db k p)
      (taken_for-Ascends k p ds (record_job_file_chunk d.job_id d.path d.chunk_seq db).1)
