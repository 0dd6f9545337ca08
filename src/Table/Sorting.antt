-- ===== src/Table/Sorting.antt =====
-- ORDER BY and LIMIT 1: the order of the result and its rows.
use mathlib.Core.List.{Perm}
use mathlib.Core.List.Perm
use crate_probe.Prelude.{
  ◌≡◌, Bool, true, false, none, some, List, [], ◌∷◌, arith, inl, inr, In, All, Bool-cases, length,
  suc, ◌∙◌, ap, refl,
}
use crate_probe.Table.{insert_by, order_by, first, select}
use crate_probe.Table.Rows.{All-In, select-In, In-select}

-- A total preorder, as the sort keys of the queries define one.
pub record IsOrder {A : Type 0} (le : A → A → Bool) : Type 0 where
  pub total : (a b : A) → le a b ≡ false → le b a ≡ true
  pub trans : (a b c : A) → le a b ≡ true → le b c ≡ true → le a c ≡ true

abbrev pub IsSorted : {A : Type 0} → (A → A → Bool) → List A → Type 0
IsSorted le [] = Unit
IsSorted le (x ∷ xs) = All (λ y. le x y ≡ true) xs × IsSorted le xs

module _ {A : Type 0} (le : A → A → Bool) where
  insert_by-perm : (x : A) (ys : List A) → Perm (insert_by le x ys) (x ∷ ys)
  insert_by-perm x [] = Perm.refl (x ∷ [])
  insert_by-perm x (y ∷ ys) = elim (Bool-cases (le x y)) [
    | inl e ↦ rw e (Perm.refl (x ∷ y ∷ ys))
    | inr e ↦ rw e (Perm.trans (Perm.cons y (insert_by-perm x ys)) (Perm.swap x y ys))
  ]

  length-insert_by : (x : A) (ys : List A) → length (insert_by le x ys) ≡ suc (length ys)
  length-insert_by x [] = refl
  length-insert_by x (y ∷ ys) = ground (arith, length-insert_by x ys)

  pub length-order_by : (rows : List A) → length (order_by le rows) ≡ length rows
  length-order_by [] = refl
  length-order_by (r ∷ rows) = length-insert_by r (order_by le rows) ∙ ap suc (length-order_by rows)

  pub order_by-perm : (rows : List A) → Perm (order_by le rows) rows
  order_by-perm [] = Perm.refl []
  order_by-perm (r ∷ rows) =
      Perm.trans (insert_by-perm r (order_by le rows)) (Perm.cons r (order_by-perm rows))

  In-insert_by : (x a : A) (ys : List A) → In a (insert_by le x ys) → In a (x ∷ ys)
  In-insert_by x a [] i = i
  In-insert_by x a (y ∷ ys) i = elim (Bool-cases (le x y)) [
    | inl e ↦ ground arith
    | inr e ↦ ground (arith, In-insert_by x a ys)
  ]

  pub In-order_by : (a : A) (rows : List A) → In a (order_by le rows) → In a rows
  In-order_by a [] i = i
  In-order_by a (r ∷ rows) i =
      ground (arith, In-insert_by r a (order_by le rows) i, In-order_by a rows)

module _ {A : Type 0} {le : A → A → Bool} (o : IsOrder le) where
  All-insert_by :
      (z x : A) (ys : List A)
      → le z x ≡ true
      → All (λ y. le z y ≡ true) ys
      → All (λ y. le z y ≡ true) (insert_by le x ys)
  All-insert_by z x [] h k = (h, k)
  All-insert_by z x (y ∷ ys) h k = elim (Bool-cases (le x y)) [
    | inl e ↦ rw e (h, k)
    | inr e ↦ rw e (k.0, All-insert_by z x ys h k.1)
  ]

  All-trans :
      (z y : A) (ys : List A)
      → le z y ≡ true
      → All (λ a. le y a ≡ true) ys
      → All (λ a. le z a ≡ true) ys
  All-trans z y [] h k = tt
  All-trans z y (a ∷ ys) h k = (o.trans z y a h k.0, All-trans z y ys h k.1)

  insert_by-IsSorted : (x : A) (ys : List A) → IsSorted le ys → IsSorted le (insert_by le x ys)
  insert_by-IsSorted x [] h = (tt, tt)
  insert_by-IsSorted x (y ∷ ys) h = elim (Bool-cases (le x y)) [
    | inl e ↦ rw e ((e, All-trans x y ys e h.0), h)
    | inr e ↦ rw e (All-insert_by y x ys (o.total x y e) h.0, insert_by-IsSorted x ys h.1)
  ]

  pub order_by-IsSorted : (rows : List A) → IsSorted le (order_by le rows)
  order_by-IsSorted [] = tt
  order_by-IsSorted (r ∷ rows) = insert_by-IsSorted r (order_by le rows) (order_by-IsSorted rows)

insert_by-keeps :
    {A : Type 0} (le : A → A → Bool) (x a : A) (ys : List A)
    → In a (x ∷ ys)
    → In a (insert_by le x ys)
insert_by-keeps le x a [] i = i
insert_by-keeps le x a (y ∷ ys) i = elim (Bool-cases (le x y)) [
  | inl e ↦ rw e i
  | inr e ↦ rw e (elim i [
    | inl p ↦ inr (insert_by-keeps le x a ys (inl p))
    | inr (inl p) ↦ inl p
    | inr (inr q) ↦ inr (insert_by-keeps le x a ys (inr q))
  ])
]

pub order_by-keeps :
    {A : Type 0} (le : A → A → Bool) (a : A) (rows : List A) → In a rows → In a (order_by le rows)
order_by-keeps le a [] i = i
order_by-keeps le a (r ∷ rows) (inl e) = insert_by-keeps le r a (order_by le rows) (inl e)
order_by-keeps le a (r ∷ rows) (inr i) =
    insert_by-keeps le r a (order_by le rows) (inr (order_by-keeps le a rows i))

first-In : {A : Type 0} (rows : List A) {r : A} → first rows ≡ some r → In r rows
first-In [] h = cc
first-In (x ∷ rows) h = inl (ground arith)

first-sorted :
    {A : Type 0} (le : A → A → Bool) (o : IsOrder le) (rows : List A) {r : A}
    → IsSorted le rows
    → first rows ≡ some r
    → (a : A) → In a rows
    → le r a ≡ true
first-sorted le o [] h e a i = cc
first-sorted le o (x ∷ rows) {r} h e a (inl p) = elim (Bool-cases (le r a)) [
  | inl t ↦ t
  | inr f ↦ ground (arith, o.total r a f)
]
first-sorted le o (x ∷ rows) h e a (inr i) =
    ground (arith, All-In (λ y. le x y ≡ true) rows h.0 a i)

-- ORDER BY ... LIMIT 1 over the rows that a WHERE clause selects: the row is in the table, satisfies
-- the clause, and no row that satisfies it comes before.
pub first_of_order :
    {A : Type 0} (le : A → A → Bool) (o : IsOrder le) (p : A → Bool) (rows : List A) {r : A}
    → first (order_by le (select p rows)) ≡ some r
    → In r rows × (p r ≡ true) × ((a : A) → In a rows → p a ≡ true → le r a ≡ true)
first_of_order le o p rows {r} e =
    let i = In-order_by le r (select p rows) (first-In (order_by le (select p rows)) e) in
    (
      (select-In p rows r i).0,
      (select-In p rows r i).1,
      λ a j pa.
          first-sorted le o (order_by le (select p rows)) (order_by-IsSorted o (select p rows)) e a
            (order_by-keeps le a (select p rows) (In-select p rows a j pa)),
    )

first-none : {A : Type 0} (rows : List A) → first rows ≡ none → (a : A) → ¬ In a rows
first-none [] e a i = i tt
first-none (x ∷ rows) e a i = cc

-- It finds nothing only where no row satisfies the clause.
pub first_of_none :
    {A : Type 0} (le : A → A → Bool) (p : A → Bool) (rows : List A)
    → first (order_by le (select p rows)) ≡ none
    → (a : A) → In a rows
    → p a ≡ false
first_of_none le p rows e a i = elim (Bool-cases (p a)) [
  | inl t ↦ absurd (
      first-none (order_by le (select p rows)) e a
        (order_by-keeps le a (select p rows) (In-select p rows a i t)))
  | inr f ↦ f
]
