-- ===== src/JobFiles/Clearing.antt =====
-- backend/app/services/job_files.py, `clear`: which files it removes.
use crate_probe.FilePath.{Text, FilePath, path_eq, is_parent, codes}
use crate_probe.FilePath.Decimal.{decimal, decimal-injective}
use crate_probe.FilePath.Prefix.{text_eq_sound, path_eq_sound}
use crate_probe.JobFiles.{
  Disk, FileEntry, JobFileStore, read, rmtree, clear, job_dir, files_dir, artifacts_dir,
}
use crate_probe.Table.{find, delete}
use crate_probe.Prelude.{
  ℕ, ◌≡◌, Bool, ◌++◌, String, ◌≢◌, if◌then◌else◌, ◌||◌, ◌∷◌, true, none, [], Bool-cases, arith, inl,
  inr,
}

find-rmtree :
    (directory q : FilePath) (disk : Disk)
    → find (λ (e : FileEntry). path_eq e.path q) (delete (λ e. is_parent directory e.path) disk)
      ≡ (if is_parent directory q then none else find (λ e. path_eq e.path q) disk)
find-rmtree directory q [] = ground arith
find-rmtree directory q (e ∷ disk) =
    ground (arith, find-rmtree directory q disk, path_eq_sound e.path q)

pub read-rmtree :
    (directory q : FilePath) (disk : Disk)
    → read q (rmtree directory disk) ≡ (if is_parent directory q then none else read q disk)
unfolding read rmtree
read-rmtree directory q disk = ground (arith, find-rmtree directory q disk)

-- A path in one of the two trees of a job.
abbrev pub is_of_job : JobFileStore → ℕ → FilePath → Bool
is_of_job store job_id q =
    is_parent (files_dir store job_id) q || is_parent (artifacts_dir store job_id) q

-- After a job is cleared, no file is left in its two trees, and every other file is as it was.
pub read-clear :
    (store : JobFileStore) (job_id : ℕ) (q : FilePath) (disk : Disk)
    → read q (clear store job_id disk) ≡ (if is_of_job store job_id q then none else read q disk)
unfolding clear
read-clear store job_id q disk = ground (
  arith,
  read-rmtree (artifacts_dir store job_id) q (rmtree (files_dir store job_id) disk),
  read-rmtree (files_dir store job_id) q disk,
)

same_component :
    (base : FilePath) (x a b c d : Text) (q : FilePath)
    → is_parent (base ++ x ∷ a ∷ b ∷ []) q ≡ true
    → is_parent (base ++ x ∷ c ∷ d ∷ []) q ≡ true
    → a ≡ c
same_component [] x a b c d [] h g = absurd (cc)
same_component [] x a b c d (y ∷ []) h g = absurd (ground arith)
same_component [] x a b c d (y ∷ z ∷ q) h g = ground (arith, text_eq_sound a z, text_eq_sound c z)
same_component (w ∷ base) x a b c d [] h g = absurd (cc)
same_component (w ∷ base) x a b c d (y ∷ q) h g =
    same_component base x a b c d q (ground arith) (ground arith)

same_job :
    (store : JobFileStore) (j k : ℕ) (tree tree' : String) (q : FilePath)
    → is_parent (job_dir store j tree) q ≡ true
    → is_parent (job_dir store k tree') q ≡ true
    → j ≡ k
unfolding job_dir
same_job store j k tree tree' q h g = decimal-injective j k (
    same_component store.workspace (codes "jobs") (decimal j) (codes tree) (decimal k) (codes tree')
      q h g)

in_tree :
    (store : JobFileStore) (j : ℕ) (q : FilePath)
    → is_of_job store j q ≡ true
    → (tree : String) × (is_parent (job_dir store j tree) q ≡ true)
unfolding files_dir artifacts_dir
in_tree store j q h = elim (Bool-cases (is_parent (job_dir store j "files") q)) [
  | inl here ↦ ("files", here)
  | inr apart ↦ ("artifacts", ground arith)
]

-- The trees of two jobs have no path in common, so that clearing one leaves the files of the other.
pub read-clear_other :
    (store : JobFileStore) (j k : ℕ) (q : FilePath) (disk : Disk)
    → j ≢ k
    → is_of_job store j q ≡ true
    → read q (clear store k disk) ≡ read q disk
read-clear_other store j k q disk differ mine = elim (Bool-cases (is_of_job store k q)) [
  | inl shared ↦
      let (tree, h) = in_tree store j q mine in
      let (tree', g) = in_tree store k q shared in
      absurd (differ (same_job store j k tree tree' q h g))
  | inr apart ↦ ground (arith, read-clear store k q disk)
]
