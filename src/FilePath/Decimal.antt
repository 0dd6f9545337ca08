-- ===== src/FilePath/Decimal.antt =====
-- `str(n)` of a natural number: the decimal digits.
use crate_probe.Prelude.{
  ℕ, zero, suc, ◌+◌, ◌-◌, ◌*◌, ◌/◌, ◌%◌, ◌<◌, ◌≡◌, refl, ap, sym, ◌∙◌, List, [], ◌∷◌, ◌++◌, ltb,
  arith, if◌then◌else◌, Bool-cases, inl, inr,
}

-- The fuel `suc n` is enough: a quotient by 10 is smaller.
digits_fuel : ℕ → ℕ → List ℕ
digits_fuel zero n = []
digits_fuel (suc f) n =
    let more = digits_fuel f (n / 10) in
    if ltb n 10 then (48 + n) ∷ [] else more ++ (48 + n % 10) ∷ []

unfoldable pub decimal : ℕ → List ℕ
unfolding digits_fuel
decimal n = digits_fuel (suc n) n

value_from : ℕ → List ℕ → ℕ
value_from acc [] = acc
value_from acc (d ∷ ds) = value_from (acc * 10 + (d - 48)) ds

value_from-append :
    (acc : ℕ) (ds : List ℕ) (d : ℕ)
    → value_from acc (ds ++ d ∷ []) ≡ value_from acc ds * 10 + (d - 48)
unfolding value_from
value_from-append acc [] d = refl
value_from-append acc (x ∷ ds) d = value_from-append (acc * 10 + (x - 48)) ds d

value_from-digits : (f n : ℕ) → n < f → value_from 0 (digits_fuel f n) ≡ n
unfolding digits_fuel
value_from-digits zero n h = absurd (omega arith)
value_from-digits (suc f) n h = elim (Bool-cases (ltb n 10)) [
  | inl small ↦ rw small (unfold value_from in ground arith)
  | inr big ↦ rw big (
      value_from-append 0 (digits_fuel f (n / 10)) (48 + n % 10)
      ∙ rw (value_from-digits f (n / 10) (ground arith)) (omega arith))
]

pub decimal-injective : (m n : ℕ) → decimal m ≡ decimal n → m ≡ n
unfolding decimal
decimal-injective m n e =
    sym (value_from-digits (suc m) m (omega arith))
    ∙ ap (value_from 0) e
    ∙ value_from-digits (suc n) n (omega arith)
