-- ===== src/Table/Members.antt =====
-- The rows of a table after INSERT, UPDATE and DELETE.
use crate_probe.Table.{find, update, delete}
use crate_probe.Prelude.{
  refl, [], ◌∷◌, ◌++◌, false, List, Bool, In, ◌≡◌, ◌⊎◌, if◌then◌else◌, Bool-cases, none, inl, arith,
  inr,
}

module _ {A : Type 0} where
  pub In-append_one : (rows : List A) (x r : A) → In r (rows ++ x ∷ []) → In r rows ⊎ (r ≡ x)
  In-append_one [] x r i = elim i [ inl same ↦ inr same | inr i ↦ absurd (i tt) ]
  In-append_one (y ∷ rows) x r i = elim i [
    | inl same ↦ inl (inl same)
    | inr i ↦ elim (In-append_one rows x r i) [ inl there ↦ inl (inr there) | inr same ↦ inr same ]
  ]

  pub In-update :
      (p : A → Bool) (f : A → A) (rows : List A) (r : A)
      → In r (update p f rows)
      → (o : A) × In o rows × (r ≡ (if p o then f o else o))
  In-update p f [] r i = absurd (i tt)
  In-update p f (y ∷ rows) r i = elim i [
    | inl same ↦ (y, inl refl, same)
    | inr i ↦ let (o, there, e) = In-update p f rows r i in (o, inr there, e)
  ]

  pub In-delete :
      (p : A → Bool) (rows : List A) (r : A) → In r (delete p rows) → In r rows × (p r ≡ false)
  In-delete p [] r i = absurd (i tt)
  In-delete p (y ∷ rows) r i = elim (Bool-cases (p y)) [
    | inl gone ↦ let (there, e) = In-delete p rows r (ground arith) in (inr there, e)
    | inr kept ↦ ground (arith, In-delete p rows r)
  ]

  -- A query that finds nothing holds of no row.
  pub find-none-In :
      (p : A → Bool) (rows : List A) (r : A) → find p rows ≡ none → In r rows → p r ≡ false
  find-none-In p [] r e i = absurd (i tt)
  find-none-In p (y ∷ rows) r e i = ground (arith, find-none-In p rows r)
