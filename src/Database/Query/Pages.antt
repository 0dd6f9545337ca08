-- ===== src/Database/Query/Pages.antt =====
-- backend/app/database.py, `query_jobs`: the pages of the list of jobs.
use crate_probe.Prelude.{
  ℕ, zero, suc, ◌+◌, ◌*◌, ◌≤◌, [], ◌∷◌, ◌++◌, Bool, Option, List, String, ◌≡◌, arith, refl, length,
  take, drop, ap, ◌∙◌, sym, subst,
}
use crate_probe.Table.{select}
use crate_probe.Database.Types.{JobRecord, Database}
use crate_probe.Database.Query.{selected, SortColumn, row_before, query_jobs, IsOrdering}
use crate_probe.Database.Query.Orderings.{IsOrdering-unique}

suc_plus : (a b : ℕ) → suc a + b ≡ suc (a + b)
suc_plus a b = omega arith

drop_nil : {A : Type 0} (k : ℕ) → drop {A = A} k [] ≡ []
drop_nil zero = refl
drop_nil (suc k) = refl

take_nil : {A : Type 0} (k : ℕ) → take {A = A} k [] ≡ []
take_nil zero = refl
take_nil (suc k) = refl

drop-drop : {A : Type 0} (o k : ℕ) (xs : List A) → drop k (drop o xs) ≡ drop (o + k) xs
drop-drop zero k xs = ap (λ n. drop n xs) (omega arith)
drop-drop (suc o) k [] = rw (suc_plus o k, drop_nil k) refl
drop-drop (suc o) k (x ∷ xs) = rw (suc_plus o k) (drop-drop o k xs)

take-take-drop :
    {A : Type 0} (a b : ℕ) (xs : List A) → take a xs ++ take b (drop a xs) ≡ take (a + b) xs
take-take-drop zero b xs = ap (λ n. take n xs) (omega arith)
take-take-drop (suc a) b [] = rw (suc_plus a b, take_nil b) refl
take-take-drop (suc a) b (x ∷ xs) = rw (suc_plus a b) (ap (λ ys. x ∷ ys) (take-take-drop a b xs))

zero_times : (k : ℕ) → 0 ≡ zero * k
zero_times k = omega arith

suc_times : (k n : ℕ) → k + n * k ≡ suc n * k
suc_times k n = omega arith

take_of_length : {A : Type 0} (n : ℕ) (xs : List A) → length xs ≤ n → take n xs ≡ xs
take_of_length zero [] h = refl
take_of_length (suc n) [] h = refl
take_of_length zero (x ∷ xs) h = absurd (omega arith)
take_of_length (suc n) (x ∷ xs) h = ap (λ ys. x ∷ ys) (take_of_length n xs (omega arith))

module _ (now : ℕ) (status crate_name task_name : Option String) (sort_by : SortColumn)
    (ascending : Bool) (db : Database) (page_size : ℕ) where
  abbrev pub rows : List JobRecord
  rows = select (selected status crate_name task_name) db.jobs

  abbrev by : JobRecord → JobRecord → Bool
  by = row_before now sort_by ascending

  -- So many pages from an offset on, one after the other; each may be sorted in its own way.
  unfoldable pub pages :
      (ℕ → (JobRecord → JobRecord → Bool) → List JobRecord → List JobRecord)
      → ℕ
      → ℕ
      → List JobRecord
  pages sorts zero offset = []
  pages sorts (suc n) offset =
      (query_jobs (sorts n) now status crate_name task_name sort_by ascending page_size offset db).1
      ++ pages sorts n (offset + page_size)

  module _ (sorts : ℕ → (JobRecord → JobRecord → Bool) → List JobRecord → List JobRecord)
      (sound : (i : ℕ) → IsOrdering by rows (sorts i by rows)) where
    pages-take :
        (n offset : ℕ) → pages sorts n offset ≡ take (n * page_size) (drop offset (sorts 0 by rows))
    unfolding pages query_jobs
    pages-take zero offset = ap (λ k. take k (drop offset (sorts 0 by rows))) (zero_times page_size)
    pages-take (suc n) offset =
        let same : sorts n by rows ≡ sorts 0 by rows =
          IsOrdering-unique now sort_by ascending rows (sorts n by rows) (sorts 0 by rows) (sound n)
            (sound 0) in
        ap (λ ordered. take page_size (drop offset ordered) ++ pages sorts n (offset + page_size))
          same
        ∙ ap (λ ys. take page_size (drop offset (sorts 0 by rows)) ++ ys)
            (pages-take n (offset + page_size)
              ∙ ap (λ ys. take (n * page_size) ys)
                  (sym (drop-drop offset page_size (sorts 0 by rows))))
        ∙ take-take-drop page_size (n * page_size) (drop offset (sorts 0 by rows))
        ∙ ap (λ k. take k (drop offset (sorts 0 by rows))) (suc_times page_size n)

    -- Enough pages, one after the other, are an ordering of the rows.
    pub pages-IsOrdering :
        (n : ℕ)
        → (query_jobs (sorts n) now status crate_name task_name sort_by ascending page_size 0 db).0
          ≤ n * page_size
        → IsOrdering by rows (pages sorts n 0)
          × (length (pages sorts n 0)
              ≡ (query_jobs
                  (sorts n)
                  now
                  status
                  crate_name
                  task_name
                  sort_by
                  ascending
                  page_size
                  0
                  db).0)
    unfolding query_jobs
    pages-IsOrdering n enough =
        let whole : pages sorts n 0 ≡ sorts 0 by rows =
          pages-take n 0
          ∙ take_of_length (n * page_size) (sorts 0 by rows) (omega (arith, (sound 0).size)) in
        (
          subst (IsOrdering by rows) (sym whole) (sound 0),
          ap (λ xs. length xs) whole ∙ (sound 0).size,
        )
