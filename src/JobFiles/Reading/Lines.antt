-- ===== src/JobFiles/Reading/Lines.antt =====
-- backend/app/utils/file_utils.py, `read_last_n_lines`: which lines are read.
use crate_probe.Prelude.{
  ℕ, ◌-◌, Bool, true, false, ◌||◌, List, [], ◌∷◌, ◌++◌, ◌≡◌, All, ◌==◌, leb, length, drop, map,
  arith, refl, ap, ◌∙◌, Bool-cases, inl, inr, sym,
}
use crate_probe.FilePath.{Text}
use crate_probe.JobFiles.Reading.{
  universal_newlines, readlines, rstrip_newlines, read_last_n_lines, last_n,
}

-- A line has no character that ends one.
abbrev pub IsLine : Text → Type 0
IsLine line = All (λ c. (c == b'\n' || c == b'\r') ≡ false) line

-- Lines as a program prints them.
unfoldable pub print_lines : List Text → Text
print_lines [] = []
print_lines (line ∷ lines) = line ++ b'\n' ∷ print_lines lines

universal-line :
    (line rest : Text) (b : Bool)
    → IsLine line
    → universal_newlines false (line ++ b'\n' ∷ rest)
      ≡ line ++ b'\n' ∷ universal_newlines false rest
unfolding universal_newlines
universal-line [] rest b h = refl
universal-line (c ∷ line) rest b h = ground (arith, universal-line line rest b h.1)

universal-print_lines :
    (lines : List Text)
    → All IsLine lines
    → universal_newlines false (print_lines lines) ≡ print_lines lines
unfolding print_lines universal_newlines
universal-print_lines [] h = refl
universal-print_lines (line ∷ lines) h =
    universal-line line (print_lines lines) true h.0
    ∙ ap (λ t. line ++ b'\n' ∷ t) (universal-print_lines lines h.1)

readlines-line :
    (line rest : Text)
    → IsLine line
    → readlines (line ++ b'\n' ∷ rest) ≡ (line ++ b'\n' ∷ []) ∷ readlines rest
unfolding readlines
readlines-line [] rest h = refl
readlines-line (c ∷ line) rest h = ground (arith, readlines-line line rest h.1)

rstrip-line : (line : Text) → IsLine line → rstrip_newlines (line ++ b'\n' ∷ []) ≡ line
unfolding rstrip_newlines
rstrip-line [] h = refl
rstrip-line (c ∷ line) h = ground (arith, rstrip-line line h.1)

lines-print_lines :
    (lines : List Text)
    → All IsLine lines
    → map rstrip_newlines (readlines (print_lines lines)) ≡ lines
unfolding print_lines
lines-print_lines [] h = unfold readlines in refl
lines-print_lines (line ∷ lines) h =
    ap (λ ls. map rstrip_newlines ls) (readlines-line line (print_lines lines) h.0)
    ∙ ap (λ l. l ∷ map rstrip_newlines (readlines (print_lines lines))) (rstrip-line line h.0)
    ∙ ap (λ ls. line ∷ ls) (lines-print_lines lines h.1)

drop_all : {A : Type 0} (xs : List A) → drop (length xs) xs ≡ []
drop_all [] = refl
drop_all (x ∷ xs) = drop_all xs

last_n-drop : (n : ℕ) (lines : List Text) → last_n n lines ≡ drop (length lines - n) lines
last_n-drop n lines = elim (Bool-cases (leb (length lines) n)) [
  | inl few ↦ let z : length lines - n ≡ 0 = ground arith in rw (few, z) refl
  | inr many ↦ rw many refl
]

-- Of lines that a program printed, the last ones are read, as many as are asked for and there are, as they
-- were printed.
pub read_last_n_lines-print_lines :
    (n : ℕ) (lines : List Text)
    → All IsLine lines
    → read_last_n_lines n (print_lines lines) ≡ drop (length lines - n) lines
unfolding read_last_n_lines
read_last_n_lines-print_lines n lines h =
    let e : map rstrip_newlines (readlines (universal_newlines false (print_lines lines))) ≡ lines =
      ap (λ t. map rstrip_newlines (readlines t)) (universal-print_lines lines h)
      ∙ lines-print_lines lines h in
    elim (Bool-cases (leb n 0)) [
      | inl none_ ↦
          let z : length lines - n ≡ length lines = ground arith in
          rw (none_, z) (sym (drop_all lines))
      | inr some_ ↦ rw (some_, e) (last_n-drop n lines)
    ]
