-- ===== src/Table.antt =====
-- The statements of SQL that backend/app/database.py issues, over a table held as the list of its
-- rows in rowid order. A WHERE clause is a test on a row, an ORDER BY clause an order on rows.
pub mod Rows
pub mod Members
pub mod Sorting
pub mod Keys
use crate_probe.Prelude.{
  ℕ, suc, Bool, true, false, Option, none, some, List, [], ◌∷◌, if◌then◌else◌,
}

module _ {A : Type 0} where
  -- SELECT ... WHERE p, the row that `fetchone` returns
  abbrev pub find : (A → Bool) → List A → Option A
  find p [] = none
  find p (r ∷ rows) = let rest = find p rows in if p r then some r else rest

  -- SELECT ... WHERE p
  abbrev pub select : (A → Bool) → List A → List A
  select p [] = []
  select p (r ∷ rows) = let rest = select p rows in if p r then r ∷ rest else rest

  -- UPDATE ... SET f WHERE p
  abbrev pub update : (A → Bool) → (A → A) → List A → List A
  update p f [] = []
  update p f (r ∷ rows) = (if p r then f r else r) ∷ update p f rows

  -- DELETE ... WHERE p
  abbrev pub delete : (A → Bool) → List A → List A
  delete p [] = []
  delete p (r ∷ rows) = let rest = delete p rows in if p r then rest else r ∷ rest

  -- the `rowcount` of an UPDATE or DELETE with that WHERE clause
  abbrev pub count : (A → Bool) → List A → ℕ
  count p [] = 0
  count p (r ∷ rows) = let rest = count p rows in if p r then suc rest else rest

  abbrev pub insert_by : (A → A → Bool) → A → List A → List A
  insert_by le x [] = x ∷ []
  insert_by le x (y ∷ ys) = if le x y then x ∷ y ∷ ys else y ∷ insert_by le x ys

  -- ORDER BY. SQL leaves the order of equal rows open; here they keep the table's order.
  abbrev pub order_by : (A → A → Bool) → List A → List A
  order_by le [] = []
  order_by le (r ∷ rows) = insert_by le r (order_by le rows)

  -- LIMIT 1
  abbrev pub first : List A → Option A
  first [] = none
  first (r ∷ rows) = some r
