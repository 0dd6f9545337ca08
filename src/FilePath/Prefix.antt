-- ===== src/FilePath/Prefix.antt =====
-- Comparison of paths, and what it means to lie below a directory.
use crate_probe.FilePath.{Text, FilePath, text_eq, path_eq, is_parent}
use crate_probe.Prelude.{◌≡◌, ◌++◌, true, ◌∷◌, arith, [], refl, ◌↔◌}

pub text_eq_sound : (a b : Text) → text_eq a b ≡ true → a ≡ b
text_eq_sound [] [] h = refl
text_eq_sound [] (y ∷ ys) h = ground arith
text_eq_sound (x ∷ xs) [] h = ground arith
text_eq_sound (x ∷ xs) (y ∷ ys) h = ground (arith, text_eq_sound xs ys)

pub text_eq_refl : (a : Text) → text_eq a a ≡ true
text_eq_refl [] = refl
text_eq_refl (x ∷ xs) = ground (arith, text_eq_refl xs)

pub path_eq_sound : (a b : FilePath) → path_eq a b ≡ true → a ≡ b
path_eq_sound [] [] h = refl
path_eq_sound [] (y ∷ ys) h = ground arith
path_eq_sound (x ∷ xs) [] h = ground arith
path_eq_sound (x ∷ xs) (y ∷ ys) h = ground (arith, text_eq_sound x y, path_eq_sound xs ys)

pub path_eq_refl : (a : FilePath) → path_eq a a ≡ true
path_eq_refl [] = refl
path_eq_refl (x ∷ xs) = ground (arith, text_eq_refl x, path_eq_refl xs)

pub is_parent_sound :
    (base p : FilePath)
    → is_parent base p ≡ true
    → (t : Text) × (ts : FilePath) × (p ≡ base ++ t ∷ ts)
is_parent_sound base [] h = absurd (cc)
is_parent_sound [] (y ∷ ys) h = (y, ys, refl)
is_parent_sound (x ∷ xs) (y ∷ ys) h =
    let (t, ts, e) = is_parent_sound xs ys (ground arith) in
    (t, ts, ground (arith, text_eq_sound x y))

pub is_parent-append :
    (base : FilePath) (t : Text) (ts : FilePath) → is_parent base (base ++ t ∷ ts) ≡ true
is_parent-append [] t ts = refl
is_parent-append (x ∷ xs) t ts = ground (arith, text_eq_refl x, is_parent-append xs t ts)

pub path_eq_iff : (p q : FilePath) → (path_eq p q ≡ true) ↔ (p ≡ q)
path_eq_iff p q = (path_eq_sound p q, λ e. rw e (path_eq_refl q))
