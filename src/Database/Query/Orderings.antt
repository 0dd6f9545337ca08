-- ===== src/Database/Query/Orderings.antt =====
-- backend/app/database.py, `query_jobs`: what its ORDER BY leaves open.
use crate_probe.Prelude.{
  ℕ, [], ◌∷◌, Bool, true, false, Option, none, some, List, ◌≡◌, arith, refl, ap, ◌∙◌, sym, subst,
  In, All, inl, inr, ◌==◌, ==-self,
}
use crate_probe.Table.Rows.{All-In}
use crate_probe.Table.Sorting.{IsSorted}
use crate_probe.Database.Types.{JobRecord}
use crate_probe.Database.Query.{
  Key, SortColumn, key_before, column_value, row_before, IsOrdering, AreApart,
}

-- Two rows that may stand either way have the same id: `id DESC` decides the ties.
key_before_antisymm :
    (ascending : Bool) (x y : Option Key) (a b : ℕ)
    → key_before ascending x y a b ≡ true
    → key_before ascending y x b a ≡ true
    → a ≡ b
key_before_antisymm ascending none none a b h k = ground arith
key_before_antisymm ascending none (some y) a b h k = absurd (cc)
key_before_antisymm ascending (some x) none a b h k = absurd (cc)
key_before_antisymm true (some x) (some y) a b h k = ground arith
key_before_antisymm false (some x) (some y) a b h k = ground arith

row_before_antisymm :
    (now : ℕ) (sort_by : SortColumn) (ascending : Bool) (a b : JobRecord)
    → row_before now sort_by ascending a b ≡ true
    → row_before now sort_by ascending b a ≡ true
    → a.id ≡ b.id
unfolding row_before
row_before_antisymm now sort_by ascending a b h k =
    key_before_antisymm ascending (column_value now sort_by a) (column_value now sort_by b) a.id
      b.id h k

abbrev Antisymm : (JobRecord → JobRecord → Bool) → Type 0
Antisymm le = (a b : JobRecord) → le a b ≡ true → le b a ≡ true → a.id ≡ b.id

cons_same : {x y : JobRecord} {xs ys : List JobRecord} → x ≡ y → xs ≡ ys → x ∷ xs ≡ y ∷ ys
cons_same e f = rw (e, f) refl

-- A row among rows with other ids has another id.
other_id :
    (r j : JobRecord) (rows : List JobRecord)
    → All (λ (x : JobRecord). (x.id == r.id) ≡ false) rows
    → In j rows
    → ¬ (j.id ≡ r.id)
other_id r j rows h i e =
    ground (arith, All-In (λ (x : JobRecord). (x.id == r.id) ≡ false) rows h j i, ==-self r.id)

-- Rows that are the same by their ids, where no two others have the same.
same_of_id :
    (rows : List JobRecord) (a b : JobRecord)
    → AreApart rows
    → In a rows
    → In b rows
    → a.id ≡ b.id
    → a ≡ b
same_of_id [] a b h i k e = absurd (i tt)
same_of_id (r ∷ rows) a b h (inl p) (inl q) e = p ∙ sym q
same_of_id (r ∷ rows) a b h (inl p) (inr k) e =
    absurd (other_id r b rows h.0 k (sym e ∙ ap (λ (j : JobRecord). j.id) p))
same_of_id (r ∷ rows) a b h (inr i) (inl q) e =
    absurd (other_id r a rows h.0 i (e ∙ ap (λ (j : JobRecord). j.id) q))
same_of_id (r ∷ rows) a b h (inr i) (inr k) e = same_of_id rows a b h.1 i k e

-- Where two orderings have the same rows, they have the same rows after the same head.
tail_members :
    (x : JobRecord) (xs ys : List JobRecord)
    → AreApart (x ∷ xs)
    → ((j : JobRecord) → In j (x ∷ xs) → In j (x ∷ ys))
    → (j : JobRecord) → In j xs
    → In j ys
tail_members x xs ys apart all_ j i = elim (all_ j (inr i)) [
  | inl e ↦ absurd (other_id x j xs apart.0 i (ap (λ (r : JobRecord). r.id) e))
  | inr k ↦ k
]

module _ (le : JobRecord → JobRecord → Bool) (antisymm : Antisymm le) where
  head_same :
      (x y : JobRecord) (xs ys : List JobRecord)
      → IsSorted le (x ∷ xs)
      → IsSorted le (y ∷ ys)
      → AreApart (x ∷ xs)
      → In x (y ∷ ys)
      → In y (x ∷ xs)
      → x ≡ y
  head_same x y xs ys s t apart (inl e) k = e
  head_same x y xs ys s t apart (inr i) (inl e) = sym e
  head_same x y xs ys s t apart (inr i) (inr k) = same_of_id (x ∷ xs) x y apart (inl refl) (inr k) (
      antisymm x y (All-In (λ r. le x r ≡ true) xs s.0 y k)
        (All-In (λ r. le y r ≡ true) ys t.0 x i))

  -- An antisymmetric order leaves no choice.
  pub sorted_unique :
      (xs ys : List JobRecord)
      → IsSorted le xs
      → IsSorted le ys
      → AreApart xs
      → AreApart ys
      → ((j : JobRecord) → In j xs → In j ys)
      → ((j : JobRecord) → In j ys → In j xs)
      → xs ≡ ys
  sorted_unique [] [] s t a b f g = refl
  sorted_unique [] (y ∷ ys) s t a b f g = absurd (g y (inl refl) tt)
  sorted_unique (x ∷ xs) [] s t a b f g = absurd (f x (inl refl) tt)
  sorted_unique (x ∷ xs) (y ∷ ys) s t a b f g =
      let e : x ≡ y = head_same x y xs ys s t a (f x (inl refl)) (g y (inl refl)) in
      let f' : (j : JobRecord) → In j (x ∷ xs) → In j (x ∷ ys) =
        subst (λ (z : JobRecord). (j : JobRecord) → In j (x ∷ xs) → In j (z ∷ ys)) (sym e) f in
      let g' : (j : JobRecord) → In j (y ∷ ys) → In j (y ∷ xs) =
        subst (λ (z : JobRecord). (j : JobRecord) → In j (y ∷ ys) → In j (z ∷ xs)) e g in
      cons_same e (
        sorted_unique xs ys s.1 t.1 a.1 b.1 (tail_members x xs ys a f') (tail_members y ys xs b g'))

-- The ORDER BY of the list of jobs allows one ordering.
pub IsOrdering-unique :
    (now : ℕ) (sort_by : SortColumn) (ascending : Bool) (rows xs ys : List JobRecord)
    → IsOrdering (row_before now sort_by ascending) rows xs
    → IsOrdering (row_before now sort_by ascending) rows ys
    → xs ≡ ys
IsOrdering-unique now sort_by ascending rows xs ys h k =
    sorted_unique (row_before now sort_by ascending) (row_before_antisymm now sort_by ascending) xs
      ys h.sorted k.sorted h.once k.once (λ j i. (k.members j).1 ((h.members j).0 i))
      (λ j i. (h.members j).1 ((k.members j).0 i))
