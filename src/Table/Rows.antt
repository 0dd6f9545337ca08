-- ===== src/Table/Rows.antt =====
-- What the statements do to the rows: which are found, changed and left alone.
use crate_probe.Prelude.{
  suc, ◌<◌, ◌≡◌, refl, ap, Bool, true, false, none, some, map_option, List, [], ◌∷◌, ◌++◌, arith,
  ◌⊎◌, inl, inr, In, All, if◌then◌else◌, Bool-cases, is_some, length, ◌+◌, ◌≢◌, map,
}
use crate_probe.Table.{find, select, update, delete, count}

module _ {A : Type 0} where
  -- An update that keeps what a query tests is seen by the query in the row that it finds.
  pub find-update :
      (q p : A → Bool) (f : A → A)
      → ((r : A) → q (f r) ≡ q r)
      → (rows : List A)
      → find q (update p f rows) ≡ map_option (λ r. if p r then f r else r) (find q rows)
  find-update q p f keep [] = refl
  find-update q p f keep (r ∷ rows) = ground (arith, keep r, find-update q p f keep rows)

  pub find-append :
      (q : A → Bool) (rows : List A) (x : A)
      → find q (rows ++ x ∷ []) ≡ (if is_some (find q rows) then find q rows else find q (x ∷ []))
  find-append q [] x = ground arith
  find-append q (r ∷ rows) x = ground (arith, find-append q rows x)

  pub find-map :
      (q : A → Bool) (f : A → A)
      → ((r : A) → q (f r) ≡ q r)
      → (rows : List A) → find q (map f rows) ≡ map_option f (find q rows)
  find-map q f keep [] = refl
  find-map q f keep (r ∷ rows) = ground (arith, keep r, find-map q f keep rows)

  -- A query that no deleted row answers is answered as before.
  pub find-delete :
      (q p : A → Bool)
      → ((r : A) → q r ≡ true → p r ≡ false)
      → (rows : List A) → find q (delete p rows) ≡ find q rows
  find-delete q p apart [] = refl
  find-delete q p apart (r ∷ rows) = ground (arith, apart r, find-delete q p apart rows)

  pub find-delete_self : (p : A → Bool) (rows : List A) → find p (delete p rows) ≡ none
  find-delete_self p [] = refl
  find-delete_self p (r ∷ rows) = ground (arith, find-delete_self p rows)

  pub find-holds : (p : A → Bool) (rows : List A) {r : A} → find p rows ≡ some r → p r ≡ true
  find-holds p [] h = ground arith
  find-holds p (x ∷ rows) {r} h = ground (arith, find-holds p rows {r = r})

  pub find-In : (p : A → Bool) (rows : List A) {r : A} → find p rows ≡ some r → In r rows
  find-In p [] h = ground arith
  find-In p (x ∷ rows) {r} h = elim (Bool-cases (p x)) [
    | inl e ↦ inl (ground arith)
    | inr e ↦ inr (find-In p rows (ground arith))
  ]

  pub count-find : (p : A → Bool) (rows : List A) → (0 < count p rows) ⊎ (find p rows ≡ none)
  count-find p [] = inr refl
  count-find p (r ∷ rows) = ground (arith, count-find p rows)

  pub length-update :
      (p : A → Bool) (f : A → A) (rows : List A) → length (update p f rows) ≡ length rows
  length-update p f [] = refl
  length-update p f (r ∷ rows) = ap suc (length-update p f rows)

  -- Every row is either deleted or kept.
  pub length-delete :
      (p : A → Bool) (rows : List A) → length (delete p rows) + count p rows ≡ length rows
  length-delete p [] = omega arith
  length-delete p (r ∷ rows) = ground (arith, length-delete p rows)

  pub select-In :
      (p : A → Bool) (rows : List A) (r : A) → In r (select p rows) → In r rows × (p r ≡ true)
  select-In p [] r h = absurd (h tt)
  select-In p (x ∷ rows) r h = elim (Bool-cases (p x)) [
    | inl e ↦ ground (arith, select-In p rows r)
    | inr e ↦ ground (arith, select-In p rows r)
  ]

  pub In-select :
      (p : A → Bool) (rows : List A) (r : A) → In r rows → p r ≡ true → In r (select p rows)
  In-select p [] r h e = h
  In-select p (x ∷ rows) r h e = elim (Bool-cases (p x)) [
    | inl y ↦ ground (arith, In-select p rows r)
    | inr n ↦ ground (arith, In-select p rows r)
  ]

pub All-In : {A : Type 0} (P : A → Type 0) (rows : List A) → All P rows → (r : A) → In r rows → P r
All-In P [] h r i = absurd (i tt)
All-In P (x ∷ rows) h r (inl e) = rw e h.0
All-In P (x ∷ rows) h r (inr i) = All-In P rows h.1 r i

pub All-of-In :
    {A : Type 0} (P : A → Type 0) (rows : List A) → ((r : A) → In r rows → P r) → All P rows
All-of-In P [] h = tt
All-of-In P (x ∷ rows) h = (h x (inl refl), All-of-In P rows (λ r i. h r (inr i)))

-- What an update makes of every row, the changed and the others.
pub All-update :
    {A : Type 0} (P Q : A → Type 0) (p : A → Bool) (f : A → A)
    → ((r : A) → P r → Q (if p r then f r else r))
    → (rows : List A) → All P rows
    → All Q (update p f rows)
All-update P Q p f keep [] h = tt
All-update P Q p f keep (r ∷ rows) h = (keep r h.0, All-update P Q p f keep rows h.1)

pub All-delete :
    {A : Type 0} (P : A → Type 0) (p : A → Bool) (rows : List A)
    → All P rows
    → All P (delete p rows)
All-delete P p [] h = tt
All-delete P p (r ∷ rows) h = elim (Bool-cases (p r)) [
  | inl e ↦ rw e (All-delete P p rows h.1)
  | inr e ↦ rw e (h.0, All-delete P p rows h.1)
]

pub find-ne-none :
    {A : Type 0} (p : A → Bool) (rows : List A) (r : A)
    → In r rows
    → p r ≡ true
    → find p rows ≢ none
find-ne-none p [] r i h e = i tt
find-ne-none p (x ∷ rows) r (inl i) h e = ground arith
find-ne-none p (x ∷ rows) r (inr i) h e = ground (arith, find-ne-none p rows r i h)

-- A statement that counts no row changes none.
pub count-zero :
    {A : Type 0} (p : A → Bool) (f : A → A) (rows : List A)
    → count p rows ≡ 0
    → update p f rows ≡ rows
count-zero p f [] e = refl
count-zero p f (r ∷ rows) e = ground (arith, count-zero p f rows)

keep_if :
    {A : Type 0} (P : A → Type 0) (p : A → Bool) (f : A → A) (r : A) (b : Bool)
    → p r ≡ b
    → (p r ≡ true → P r → P (f r))
    → P r
    → P (if b then f r else r)
keep_if P p f r true e keep h = keep e h
keep_if P p f r false e keep h = h

-- An update keeps what holds of every row, if it does so for the rows that it changes.
pub All-update_where :
    {A : Type 0} (P : A → Type 0) (p : A → Bool) (f : A → A)
    → ((r : A) → p r ≡ true → P r → P (f r))
    → (rows : List A) → All P rows
    → All P (update p f rows)
All-update_where P p f keep [] h = tt
All-update_where P p f keep (r ∷ rows) h =
    (keep_if P p f r (p r) refl (keep r) h.0, All-update_where P p f keep rows h.1)

pub All-update-In :
    {A : Type 0} (P : A → Type 0) (p : A → Bool) (f : A → A) (rows : List A)
    → ((r : A) → In r rows → p r ≡ true → P r → P (f r))
    → All P rows
    → All P (update p f rows)
All-update-In P p f [] keep h = tt
All-update-In P p f (r ∷ rows) keep h = (
  keep_if P p f r (p r) refl (keep r (inl refl)) h.0,
  All-update-In P p f rows (λ x i. keep x (inr i)) h.1,
)
