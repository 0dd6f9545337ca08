-- ===== src/Database/Query.antt =====
-- backend/app/database.py, `query_jobs` and `_escape_like`: the list of jobs with its filters. LIKE is SQL's:
-- `%` stands for any text, `_` for one character, a character after the escape for itself, and the letters of
-- ASCII are compared without their case.
pub mod Substrings
pub mod Pages
pub mod Orderings
pub mod Listings
use crate_probe.Prelude.{
  ◌↔◌, ◌≡◌, In, All, ℕ, zero, suc, ◌+◌, ◌-◌, ◌≤◌, [], ◌∷◌, ◌++◌, Bool, true, false, not, ◌&&◌, ◌||◌,
  Option, none, some, List, String, str_eq, if◌then◌else◌, leb, ltb, ◌==◌, ℤ, pos, negsuc, int_leb,
  length, take, drop, coalesce, map_option,
}
use crate_probe.FilePath.{text_leb, Text, codes}
use crate_probe.Models.{value}
use crate_probe.Table.Sorting.{IsSorted}
use crate_probe.Table.{select, order_by}
use crate_probe.Database.Types.{JobRecord, Database}

-- `text.replace(c, "\\" + c)`
unfoldable pub escape_char : ℕ → Text → Text
escape_char c [] = []
escape_char c (x ∷ xs) =
    let rest = escape_char c xs in if x == c then b'\\' ∷ x ∷ rest else x ∷ rest

unfoldable pub escape_like : Text → Text
unfolding escape_char
escape_like text = escape_char b'_' (escape_char b'%' (escape_char b'\\' text))

-- a pattern of LIKE with the escape `\`; `never` is an escape at its end, which matches nothing
pub data Token : Type 0 where
  any one never : Token
  char : ℕ → Token

abbrev pub token_of : ℕ → Token
token_of c = if c == b'%' then any else if c == b'_' then one else char c

-- the first argument says whether an escape stands before
unfoldable pub tokens : Bool → Text → List Token
tokens true [] = never ∷ []
tokens true (c ∷ cs) = char c ∷ tokens false cs
tokens false [] = []
tokens false (c ∷ cs) =
    let escaped = tokens true cs in
    let rest = tokens false cs in if c == b'\\' then escaped else token_of c ∷ rest

abbrev pub lower : ℕ → ℕ
lower c = if leb b'A' c && leb c b'Z' then c + 32 else c

abbrev pub same_letter : ℕ → ℕ → Bool
same_letter c d = lower c == lower d

unfoldable pub matches : List Token → Text → Bool
matches [] [] = true
matches [] (c ∷ cs) = false
matches (any ∷ p) [] = matches p []
matches (any ∷ p) (c ∷ cs) =
    let here = matches p (c ∷ cs) in let later = matches (any ∷ p) cs in here || later
matches (never ∷ p) cs = false
matches (one ∷ p) [] = false
matches (one ∷ p) (c ∷ cs) = matches p cs
matches (char x ∷ p) [] = false
matches (char x ∷ p) (c ∷ cs) = let rest = matches p cs in same_letter x c && rest

-- `column LIKE ? ESCAPE '\'` with the parameter `%...%` of the escaped text
unfoldable pub like_filter : Text → Text → Bool
unfolding escape_like tokens matches
like_filter text column = matches (tokens false (b'%' ∷ escape_like text ++ b'%' ∷ [])) column

-- a filter that is not given, or is empty, selects everything
abbrev pub like_given : Option String → String → Bool
like_given none column = true
like_given (some text) column =
    if str_eq text "" then true else like_filter (codes text) (codes column)

abbrev pub status_given : Option String → String → Bool
status_given none column = true
status_given (some status) column = if str_eq status "" then true else str_eq column status

-- the WHERE clause
unfoldable pub selected : Option String → Option String → Option String → JobRecord → Bool
unfolding like_filter
selected status crate_name task_name j =
    status_given status (value j.status)
    && like_given crate_name j.crate_name
    && like_given task_name j.task_name

-- the columns to sort by, and their values
pub data SortColumn : Type 0 where
  by_id by_crate_name by_version by_task_name by_status by_started_at by_runner_id by_created_at :
      SortColumn
  by_runtime : SortColumn

pub data Key : Type 0 where
  number : ℤ → Key
  text : Text → Key

-- numbers stand before texts
abbrev pub key_leb : Key → Key → Bool
key_leb (number a) (number b) = int_leb a b
key_leb (number a) (text b) = true
key_leb (text a) (number b) = false
key_leb (text a) (text b) = text_leb a b

abbrev pub difference : ℕ → ℕ → ℤ
difference a b = if leb b a then pos (a - b) else negsuc (b - suc a)

-- the value of the column at the time `now`; `none` is NULL
unfoldable pub column_value : ℕ → SortColumn → JobRecord → Option Key
column_value now by_id j = some (number (pos j.id))
column_value now by_crate_name j = some (text (codes j.crate_name))
column_value now by_version j = some (text (codes j.version))
column_value now by_task_name j = some (text (codes j.task_name))
column_value now by_status j = some (text (codes (value j.status)))
column_value now by_started_at j = map_option (λ t. number (pos t)) j.started_at
column_value now by_runner_id j = map_option (λ r. text (codes r)) j.runner_id
column_value now by_created_at j = some (number (pos j.created_at))
column_value now by_runtime j =
    map_option (λ t. number (difference (coalesce j.finished_at now) t)) j.started_at

-- `ORDER BY (column) IS NULL, column direction, id DESC`: whether `a` may stand before `b`
abbrev pub key_before : Bool → Option Key → Option Key → ℕ → ℕ → Bool
key_before ascending none none a b = leb b a
key_before ascending none (some y) a b = false
key_before ascending (some x) none a b = true
key_before ascending (some x) (some y) a b =
    let le = if ascending then key_leb x y else key_leb y x in
    let ge = if ascending then key_leb y x else key_leb x y in
    if le then (if ge then leb b a else true) else false

unfoldable pub row_before : ℕ → SortColumn → Bool → JobRecord → JobRecord → Bool
unfolding column_value
row_before now sort_by ascending a b =
    key_before ascending (column_value now sort_by a) (column_value now sort_by b) a.id b.id

-- No two of the rows have the same id.
abbrev pub AreApart : List JobRecord → Type 0
AreApart [] = Unit
AreApart (j ∷ rows) = All (λ (r : JobRecord). (r.id == j.id) ≡ false) rows × AreApart rows

-- An ordering of the rows that an ORDER BY allows: each row stands in it once, and none before a row
-- that has to stand before it. Where two rows are equal for the ORDER BY, it leaves their order open.
pub record IsOrdering (le : JobRecord → JobRecord → Bool) (rows ordered : List JobRecord)
    : Type 0 where
  pub sorted : IsSorted le ordered
  pub once : AreApart ordered
  pub members : (j : JobRecord) → In j ordered ↔ In j rows
  pub size : length ordered ≡ length rows

-- `sort` is SQLite's sorter: what it makes of rows for an ORDER BY
unfoldable pub query_jobs :
    ((JobRecord → JobRecord → Bool) → List JobRecord → List JobRecord)
    → ℕ
    → Option String
    → Option String
    → Option String
    → SortColumn
    → Bool
    → ℕ
    → ℕ
    → Database
    → ℕ × List JobRecord
unfolding selected row_before
query_jobs sort now status crate_name task_name sort_by ascending limit offset db =
    let rows = select (selected status crate_name task_name) db.jobs in
    (length rows, take limit (drop offset (sort (row_before now sort_by ascending) rows)))
