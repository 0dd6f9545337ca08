-- ===== src/Runner/TaskCache/Genuine.antt =====
-- backend/runner/task_cache.py, `ensure`: what stands in the directories.
use crate_probe.Prelude.{
  Bool, Option, none, some, String, ◌≡◌, ◌⊎◌, inl, inr, arith, refl, Option-cases, eq_iff, ℕ, true,
  opt_str_eq_iff, Bool-cases, ◌==◌, ◌∙◌, sym, ap, ==-self,
}
use crate_probe.TaskStore.{Upload, bad_name}
use crate_probe.Runner.{HttpResult, body}
use crate_probe.Runner.TaskCache.{
  TaskDir, ok, fetch, download, verify_sha256, extracted, validate_entries, Fetched, has_marker,
  replace, ensure, FetchError, Dirs, is_hit, error,
}

-- A directory with a marker holds the entries of a zip with that sha256, none of which leaves it.
abbrev pub IsGenuine : Option TaskDir → Type 0
IsGenuine none = Unit
IsGenuine (some dir) =
    (dir.marker ≡ none)
    ⊎ ((zip : Upload) × (dir.marker ≡ some zip.sha256)
        × (zip.archive ≡ some dir.entries)
        × (bad_name dir.entries ≡ none))

-- What is fetched is the archive of the zip that was downloaded, with the sha256 that was asked for.
fetch_lem :
    (reply : HttpResult Upload) (extracts : Bool) (sha256 : String) (dir : TaskDir)
    → fetch reply extracts sha256 ≡ ok dir
    → (zip : Upload) × (reply ≡ body zip)
      × (zip.sha256 ≡ sha256)
      × (zip.archive ≡ some dir.entries)
      × (bad_name dir.entries ≡ none)
      × (dir.marker ≡ some sha256)
unfolding fetch download verify_sha256 extracted validate_entries
fetch_lem (body zip) extracts sha256 dir e = elim (Option-cases zip.archive) [
  | inl none_ ↦ absurd (ground arith)
  | inr (entries, a) ↦ elim (Option-cases (bad_name entries)) [
    | inr (b, bad) ↦ absurd (ground arith)
    | inl good ↦ (
      zip,
      refl,
      ground (arith, eq_iff zip.sha256 sha256),
      ground arith,
      ground arith,
      ground arith,
    )
  ]
]
fetch_lem reply extracts sha256 dir e = absurd (ground arith)

Fetched-cases :
    {A : Type 0} (r : Fetched A) → ((a : A) × (r ≡ ok a)) ⊎ ((e : FetchError) × (r ≡ error e))
Fetched-cases (ok a) = inl (a, refl)
Fetched-cases (error e) = inr (e, refl)

-- A directory of a task that holds the entries of a zip with the sha256.
abbrev pub Provides : ℕ → String → Dirs → Type 0
Provides task_id sha256 dirs =
    (dir : TaskDir) × (zip : Upload) × (dirs task_id ≡ some dir)
    × (zip.sha256 ≡ sha256)
    × (zip.archive ≡ some dir.entries)
    × (bad_name dir.entries ≡ none)

has_marker-genuine :
    (d : Option TaskDir) (sha256 : String)
    → IsGenuine d
    → has_marker d sha256 ≡ true
    → (dir : TaskDir) × (zip : Upload) × (d ≡ some dir)
      × (zip.sha256 ≡ sha256)
      × (zip.archive ≡ some dir.entries)
      × (bad_name dir.entries ≡ none)
has_marker-genuine none sha256 g h = absurd (cc)
has_marker-genuine (some dir) sha256 (inl e) h =
    absurd (ground (arith, opt_str_eq_iff dir.marker sha256))
has_marker-genuine (some dir) sha256 (inr (zip, m, a, good)) h =
    (dir, zip, refl, ground (arith, m, (opt_str_eq_iff dir.marker sha256).0 h), a, good)

replace-IsGenuine :
    (task_id : ℕ) (dir : TaskDir) (dirs : Dirs)
    → IsGenuine (some dir)
    → ((k : ℕ) → IsGenuine (dirs k))
    → (k : ℕ) → IsGenuine (replace task_id dir dirs k)
unfolding replace
replace-IsGenuine task_id dir dirs g h k = elim (Bool-cases (k == task_id)) [
  | inl here ↦ rw here g
  | inr there ↦ rw there (h k)
]

-- After `ensure` every directory of the cache that has a marker holds the whole archive of a zip with
-- the marked sha256, none of whose entries leaves the directory; the task's directory does so for
-- the sha256 asked for if the call returns; and if it raises, no directory has changed. So it does
-- whatever the client and the extraction end with, if it was so before and what others do while the call
-- waits for the lock keeps it.
pub ensure-IsGenuine :
    (waited : Dirs → Dirs) (reply : HttpResult Upload) (extracts : Bool) (task_id : ℕ)
    (sha256 : String) (dirs : Dirs)
    → ((k : ℕ) → IsGenuine (dirs k))
    → ((k : ℕ) → IsGenuine (waited dirs k))
    → let (result, dirs') = ensure waited reply extracts task_id sha256 dirs in
      ((k : ℕ) → IsGenuine (dirs' k))
      × (((result ≡ ok tt) × Provides task_id sha256 dirs')
          ⊎ ((e : FetchError) × (result ≡ error e) × (dirs' ≡ waited dirs)))
unfolding ensure is_hit
ensure-IsGenuine waited reply extracts task_id sha256 dirs g w =
    elim (Bool-cases (is_hit task_id sha256 dirs)) [
      | inl hit ↦ rw hit (g, inl (refl, has_marker-genuine (dirs task_id) sha256 (g task_id) hit))
      | inr miss ↦ rw miss (elim (Bool-cases (is_hit task_id sha256 (waited dirs))) [
        | inl hit ↦
            rw hit (w, inl (refl, has_marker-genuine (waited dirs task_id) sha256 (w task_id) hit))
        | inr miss' ↦ rw miss' (elim (Fetched-cases (fetch reply extracts sha256)) [
          | inl (dir, e) ↦
              let (zip, r, s, a, good, m) = fetch_lem reply extracts sha256 dir e in
              rw e (
                replace-IsGenuine task_id dir (waited dirs)
                    (inr (zip, m ∙ ap some (sym s), a, good)) w,
                inl (
                  refl,
                  (dir, zip, unfold replace in (ground (arith, ==-self task_id)), s, a, good),
                ),
              )
          | inr (x, e) ↦ rw e (w, inr (x, refl, refl))
        ])
      ])
    ]
