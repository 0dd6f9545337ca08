-- ===== src/Database/Query/Listings.antt =====
-- backend/app/database.py, `query_jobs`: the pages as its docstring has them, by the columns of the jobs.
use crate_probe.Prelude.{
  ℕ, ◌≡◌, ◌≤◌, ◌<◌, ◌⊎◌, ◌↔◌, [], ◌∷◌, List, Option, none, some, Bool, true, false, String, All,
  int_leb, In,
}
use crate_probe.FilePath.{Text, codes}
use crate_probe.Models.{value}
use crate_probe.Database.Types.{JobRecord, Database}
use crate_probe.Database.Query.{Key, number, text, SortColumn, column_value, AreApart}
use crate_probe.Database.Query.Substrings.{Stands}
use crate_probe.Database.Query.Pages.{rows}

-- A text before another, by the first character in which they differ.
abbrev pub IsLessText : Text → Text → Type 0
IsLessText [] [] = ⊥
IsLessText [] (d ∷ ds) = Unit
IsLessText (c ∷ cs) [] = ⊥
IsLessText (c ∷ cs) (d ∷ ds) = (c < d) ⊎ ((c ≡ d) × IsLessText cs ds)

abbrev pub IsLess : Key → Key → Type 0
IsLess (number a) (number b) = int_leb b a ≡ false
IsLess (number a) (text b) = Unit
IsLess (text a) (number b) = ⊥
IsLess (text a) (text b) = IsLessText a b

-- A value of a column with its id before another: by the direction, NULL last, and ties by the greater id.
abbrev pub Before : Bool → Option Key → Option Key → ℕ → ℕ → Type 0
Before ascending none none a b = b ≤ a
Before ascending none (some y) a b = ⊥
Before ascending (some x) none a b = Unit
Before true (some x) (some y) a b = IsLess x y ⊎ ((x ≡ y) × (b ≤ a))
Before false (some x) (some y) a b = IsLess y x ⊎ ((x ≡ y) × (b ≤ a))

abbrev pub IsInOrder : ℕ → SortColumn → Bool → List JobRecord → Type 0
IsInOrder now sort_by ascending [] = Unit
IsInOrder now sort_by ascending (j ∷ js) =
    All
      (λ (k : JobRecord).
        Before ascending (column_value now sort_by j) (column_value now sort_by k) j.id k.id)
      js
    × IsInOrder now sort_by ascending js

-- A filter that is given, and is not empty, is met.
abbrev pub IsMet : Option String → (String → Type 0) → Type 0
IsMet none P = Unit
IsMet (some t) P = (t ≡ "") ⊎ P t

abbrev pub IsWanted : Option String → Option String → Option String → JobRecord → Type 0
IsWanted status crate_name task_name j =
    IsMet status (λ s. value j.status ≡ s)
    × IsMet crate_name (λ t. Stands (codes t) (codes j.crate_name))
    × IsMet task_name (λ t. Stands (codes t) (codes j.task_name))

-- A list of the wanted jobs: each of them once, no other job, and in the order of the column.
pub record IsListing (now : ℕ) (status crate_name task_name : Option String) (sort_by : SortColumn)
    (ascending : Bool) (jobs listed : List JobRecord) : Type 0 where
  pub in_order : IsInOrder now sort_by ascending listed
  pub once : AreApart listed
  pub members : (j : JobRecord) → In j listed ↔ (In j jobs × IsWanted status crate_name task_name j)

module _ (now : ℕ) (status crate_name task_name : Option String) (sort_by : SortColumn)
    (ascending : Bool) (db : Database) where
  abbrev chosen : List JobRecord
  chosen = rows now status crate_name task_name sort_by ascending db 0
