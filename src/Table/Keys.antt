-- ===== src/Table/Keys.antt =====
-- INTEGER PRIMARY KEY AUTOINCREMENT: the ids of a table ascend, up to the last one given out.
use crate_probe.Prelude.{
  ℕ, suc, ◌<◌, ◌≤◌, ◌≡◌, refl, Bool, none, some, List, [], ◌∷◌, ◌++◌, arith, inl, inr, In,
  Bool-cases, ◌==◌, ==-self,
}
use crate_probe.Table.{find, update, delete}

-- The ids lie above `lo`, ascend, and are at most `hi`.
abbrev pub HasKeys : {A : Type 0} → (A → ℕ) → ℕ → List A → ℕ → Type 0
HasKeys id lo [] hi = lo ≤ hi
HasKeys id lo (r ∷ rows) hi = (lo < id r) × HasKeys id (id r) rows hi

module _ {A : Type 0} (id : A → ℕ) where
  pub HasKeys-bound : (lo : ℕ) (rows : List A) (hi : ℕ) → HasKeys id lo rows hi → lo ≤ hi
  HasKeys-bound lo [] hi h = h
  HasKeys-bound lo (r ∷ rows) hi h = omega (arith, HasKeys-bound (id r) rows hi h.1, h.0)

  pub HasKeys-lower :
      (k lo : ℕ) (rows : List A) (hi : ℕ) → k ≤ lo → HasKeys id lo rows hi → HasKeys id k rows hi
  HasKeys-lower k lo [] hi le h = omega arith
  HasKeys-lower k lo (r ∷ rows) hi le h = (omega (arith, h.0), h.1)

  -- A new row takes the next id.
  pub HasKeys-append :
      (lo : ℕ) (rows : List A) (hi : ℕ) (r : A)
      → id r ≡ suc hi
      → HasKeys id lo rows hi
      → HasKeys id lo (rows ++ r ∷ []) (suc hi)
  HasKeys-append lo [] hi r e h = (omega arith, omega arith)
  HasKeys-append lo (x ∷ rows) hi r e h = (h.0, HasKeys-append (id x) rows hi r e h.1)

  pub HasKeys-update :
      (p : A → Bool) (f : A → A)
      → ((r : A) → id (f r) ≡ id r)
      → (lo : ℕ) (rows : List A) (hi : ℕ) → HasKeys id lo rows hi
      → HasKeys id lo (update p f rows) hi
  HasKeys-update p f keep lo [] hi h = h
  HasKeys-update p f keep lo (r ∷ rows) hi h = elim (Bool-cases (p r)) [
    | inl e ↦ rw (e, keep r) (h.0, HasKeys-update p f keep (id r) rows hi h.1)
    | inr e ↦ rw e (h.0, HasKeys-update p f keep (id r) rows hi h.1)
  ]

  pub HasKeys-delete :
      (p : A → Bool) (lo : ℕ) (rows : List A) (hi : ℕ)
      → HasKeys id lo rows hi
      → HasKeys id lo (delete p rows) hi
  HasKeys-delete p lo [] hi h = h
  HasKeys-delete p lo (r ∷ rows) hi h = elim (Bool-cases (p r)) [
    | inl e ↦ rw e (
        HasKeys-lower lo (id r) (delete p rows) hi (omega (arith, h.0))
          (HasKeys-delete p (id r) rows hi h.1))
    | inr e ↦ rw e (h.0, HasKeys-delete p (id r) rows hi h.1)
  ]

  pub In-bounds :
      (lo : ℕ) (rows : List A) (hi : ℕ) (r : A)
      → HasKeys id lo rows hi
      → In r rows
      → (lo < id r) × (id r ≤ hi)
  In-bounds lo [] hi r h i = absurd (i tt)
  In-bounds lo (x ∷ rows) hi r h (inl e) =
      rw e (h.0, omega (arith, HasKeys-bound (id x) rows hi h.1))
  In-bounds lo (x ∷ rows) hi r h (inr i) =
      let b = In-bounds (id x) rows hi r h.1 i in (omega (arith, b.0, h.0), b.1)

  -- The id of a row leads back to that row and to no other.
  pub find-In_id :
      (lo : ℕ) (rows : List A) (hi : ℕ) (r : A)
      → HasKeys id lo rows hi
      → In r rows
      → find (λ x. id x == id r) rows ≡ some r
  find-In_id lo [] hi r h i = absurd (i tt)
  find-In_id lo (x ∷ rows) hi r h (inl e) = rw (e, ==-self (id x))
  find-In_id lo (x ∷ rows) hi r h (inr i) =
      ground (arith, In-bounds (id x) rows hi r h.1 i, find-In_id (id x) rows hi r h.1 i)

  -- An id that was not given out yet is not found.
  pub find-fresh :
      (lo : ℕ) (rows : List A) (hi k : ℕ)
      → HasKeys id lo rows hi
      → hi < k
      → find (λ x. id x == k) rows ≡ none
  find-fresh lo [] hi k h lt = refl
  find-fresh lo (x ∷ rows) hi k h lt =
      ground (arith, HasKeys-bound (id x) rows hi h.1, find-fresh (id x) rows hi k h.1 lt)
