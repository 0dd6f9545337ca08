-- ===== src/TaskSpec/Regex.antt =====
-- backend/core/task_spec.py, the two patterns: `^\d+(\.\d+)?[bkmgBKMG]?$` of a memory limit and
-- `^(\d+(\.\d+)?)([smh])$` of a duration.
use crate_probe.Prelude.{
  ℕ, Bool, true, false, ◌||◌, ◌&&◌, Option, none, some, [], ◌∷◌, ◌++◌, ◌==◌, if◌then◌else◌,
}
use crate_probe.FilePath.{Text}

-- `\d` of a text pattern (any Unicode digit), and `int(round(float(number) * multiplier))`.
pub record Numbers : Type 0 where
  pub is_digit : ℕ → Bool
  pub round_product : Text → ℕ → ℕ

-- the digits at the front, and the rest
unfoldable pub digits : (ℕ → Bool) → Text → Text × Text
digits is_digit [] = ([], [])
digits is_digit (c ∷ cs) =
    let (ds, rest) = digits is_digit cs in if is_digit c then (c ∷ ds, rest) else ([], c ∷ cs)

-- `\d+` at the front: the digits and the rest
unfoldable pub some_digits : (ℕ → Bool) → Text → Option (Text × Text)
unfolding digits
some_digits is_digit [] = none
some_digits is_digit (c ∷ cs) =
    let (ds, rest) = digits is_digit cs in if is_digit c then some (c ∷ ds, rest) else none

-- `\d+(\.\d+)?` at the front. No other match can succeed: what follows is neither a digit nor a dot.
unfoldable pub fraction : (ℕ → Bool) → Text → Text → Option (Text × Text)
unfolding some_digits
fraction is_digit whole [] = some (whole, [])
fraction is_digit whole (c ∷ cs) =
    if c == b'.'
    then elim (some_digits is_digit cs) [
      | none ↦ none
      | some (ds, rest) ↦ some (whole ++ c ∷ ds, rest)
    ]
    else some (whole, c ∷ cs)

unfoldable pub number : (ℕ → Bool) → Text → Option (Text × Text)
unfolding some_digits fraction
number is_digit t = elim (some_digits is_digit t) [
  | none ↦ none
  | some (ds, rest) ↦ fraction is_digit ds rest
]

-- `$` also matches before a newline that ends the text
abbrev pub at_end : Text → Bool
at_end [] = true
at_end (c ∷ []) = c == 10
at_end (c ∷ d ∷ cs) = false

abbrev pub is_unit : ℕ → Bool
is_unit c =
    c == b'b'
    || c == b'k'
    || c == b'm'
    || c == b'g'
    || c == b'B'
    || c == b'K'
    || c == b'M'
    || c == b'G'

abbrev pub unit_then_end : Text → Bool
unit_then_end [] = true
unit_then_end (c ∷ cs) = (is_unit c && at_end cs) || at_end (c ∷ cs)

unfoldable pub mem_matches : Numbers → Text → Bool
unfolding number
mem_matches numbers t = elim (number numbers.is_digit t) [
  | none ↦ false
  | some (n, rest) ↦ unit_then_end rest
]

-- _TIMEOUT_MULTIPLIERS
abbrev pub multiplier : ℕ → Option ℕ
multiplier c =
    if c == b's'
    then some 1
    else if c == b'm'
    then some 60
    else if c == b'h'
    then some 3600
    else none

abbrev pub with_unit : Numbers → Text → Text → Option ℕ
with_unit numbers n [] = none
with_unit numbers n (c ∷ cs) = elim (multiplier c) [
  | none ↦ none
  | some m ↦ if at_end cs then some (numbers.round_product n m) else none
]

-- the seconds of a duration that matches
unfoldable pub timeout_match : Numbers → Text → Option ℕ
unfolding number
timeout_match numbers t = elim (number numbers.is_digit t) [
  | none ↦ none
  | some (n, rest) ↦ with_unit numbers n rest
]
