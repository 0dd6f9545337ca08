-- ===== src/Database/Chunks.antt =====
-- backend/app/database.py, `job_file_chunk_sequences`: the last chunk that each pushed file took.
pub mod Laws
use crate_probe.Prelude.{
  ℕ, Bool, true, false, ◌&&◌, Option, none, some, List, [], ◌∷◌, ◌++◌, String, str_eq, ℤ, int_leb,
  if◌then◌else◌, ◌==◌,
}
use crate_probe.Table.{find, update, delete}
use crate_probe.Database.Types.{ChunkRow, Database}

-- WHERE job_id = ? AND path = ?
abbrev pub at_path : ℕ → String → ChunkRow → Bool
at_path job_id path c = c.job_id == job_id && str_eq c.path path

-- returns whether the chunk is to be appended
unfoldable pub record_job_file_chunk : ℕ → String → ℤ → Database → Bool × Database
record_job_file_chunk job_id path chunk_seq db = elim (find (at_path job_id path) db.chunks) [
  | none ↦ (
    true,
    record db {
      chunks =
          db.chunks ++ (record { job_id = job_id; path = path; last_chunk_seq = chunk_seq }) ∷ [];
    },
  )
  | some row ↦ if int_leb chunk_seq row.last_chunk_seq then (false, db) else (
    true,
    record db {
      chunks =
          update (at_path job_id path) (λ c. record c { last_chunk_seq = chunk_seq }) db.chunks;
    },
  )
]

unfoldable pub reset_job_file_chunk_sequences : ℕ → Database → Database
reset_job_file_chunk_sequences job_id db = record db {
  chunks = delete (λ c. c.job_id == job_id) db.chunks;
}
