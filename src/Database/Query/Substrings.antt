-- ===== src/Database/Query/Substrings.antt =====
-- backend/app/database.py, `query_jobs` and `_escape_like`: what the text filters select.
use crate_probe.Prelude.{
  sym, ◌≤◌, ◌+◌, ◌⊎◌, ◌↔◌, ℕ, [], ◌∷◌, ◌++◌, Bool, true, false, ◌&&◌, ◌||◌, List, ◌≡◌, inl, inr,
  arith, refl, map, if◌then◌else◌, ◌==◌, Bool-cases, ap, ◌∙◌,
}
use crate_probe.FilePath.{Text}
use crate_probe.Database.Query.{
  escape_char, escape_like, Token, any, char, tokens, same_letter, matches, like_filter,
}

-- The text stands at the start of the column, or somewhere in it, but for the case of its letters.
abbrev pub starts : Text → Text → Bool
starts [] cs = true
starts (x ∷ xs) [] = false
starts (x ∷ xs) (c ∷ cs) = same_letter x c && starts xs cs

abbrev pub contains : Text → Text → Bool
contains xs [] = starts xs []
contains xs (c ∷ cs) = starts xs (c ∷ cs) || contains xs cs

-- The escaped text, by one character.
abbrev special : ℕ → Bool
special c = c == b'\\' || c == b'%' || c == b'_'

escape : Text → Text
escape [] = []
escape (c ∷ cs) = if special c then b'\\' ∷ c ∷ escape cs else c ∷ escape cs

escape_like-escape : (cs : Text) → escape_like cs ≡ escape cs
unfolding escape_like escape_char escape
escape_like-escape [] = refl
escape_like-escape (c ∷ cs) = ground (arith, escape_like-escape cs)

tokens-escape :
    (cs : Text) (rest : Text) → tokens false (escape cs ++ rest) ≡ map char cs ++ tokens false rest
unfolding tokens escape
tokens-escape [] rest = refl
tokens-escape (c ∷ cs) rest = elim (Bool-cases (special c)) [
  | inl e ↦ rw e (ap (λ ts. char c ∷ ts) (tokens-escape cs rest))
  | inr e ↦ rw e (ground (arith, tokens-escape cs rest))
]

matches-any : (cs : Text) → matches (any ∷ []) cs ≡ true
unfolding matches
matches-any [] = refl
matches-any (c ∷ cs) = ground (arith, matches-any cs)

matches-starts : (xs cs : Text) → matches (map char xs ++ any ∷ []) cs ≡ starts xs cs
unfolding matches
matches-starts [] cs = matches-any cs
matches-starts (x ∷ xs) [] = refl
matches-starts (x ∷ xs) (c ∷ cs) = ground (arith, matches-starts xs cs)

matches-contains : (xs cs : Text) → matches (any ∷ map char xs ++ any ∷ []) cs ≡ contains xs cs
unfolding matches
matches-contains xs [] = matches-starts xs []
matches-contains xs (c ∷ cs) = ground (arith, matches-starts xs (c ∷ cs), matches-contains xs cs)

-- A filter by the code's own comparison of letters.
like_filter-contains : (xs cs : Text) → like_filter xs cs ≡ contains xs cs
unfolding like_filter tokens
like_filter-contains xs cs =
    ap (λ (p : List Token). matches p cs)
      (ap (λ ts. any ∷ ts)
        (ap (λ e. tokens false (e ++ b'%' ∷ [])) (escape_like-escape xs)
          ∙ tokens-escape xs (b'%' ∷ [])))
    ∙ matches-contains xs cs

-- One of the letters A to Z.
abbrev pub IsCapital : ℕ → Type 0
IsCapital c = (65 ≤ c) × (c ≤ 90)

-- The same character, or a letter of A to Z and the small one.
abbrev pub IsSameLetter : ℕ → ℕ → Type 0
IsSameLetter x c = (x ≡ c) ⊎ ((IsCapital x × (x + 32 ≡ c)) ⊎ (IsCapital c × (c + 32 ≡ x)))

abbrev pub IsSameText : Text → Text → Type 0
IsSameText [] [] = Unit
IsSameText [] (c ∷ cs) = ⊥
IsSameText (x ∷ xs) [] = ⊥
IsSameText (x ∷ xs) (c ∷ cs) = IsSameLetter x c × IsSameText xs cs

-- The text stands somewhere in the column.
abbrev pub Stands : Text → Text → Type 0
Stands xs cs =
    (before middle after : Text) × (cs ≡ before ++ middle ++ after) × IsSameText xs middle

same_letter_sound : (x c : ℕ) → same_letter x c ≡ true → IsSameLetter x c
same_letter_sound x c h = ground arith

same_letter_complete : (x c : ℕ) → IsSameLetter x c → same_letter x c ≡ true
same_letter_complete x c (inl e) = ground arith
same_letter_complete x c (inr (inl ((lo, hi), e))) = ground arith
same_letter_complete x c (inr (inr ((lo, hi), e))) = ground arith

starts_sound :
    (xs cs : Text)
    → starts xs cs ≡ true
    → (middle after : Text) × (cs ≡ middle ++ after) × IsSameText xs middle
starts_sound [] cs h = ([], cs, refl, tt)
starts_sound (x ∷ xs) [] h = absurd (cc)
starts_sound (x ∷ xs) (c ∷ cs) h =
    let (middle, after, e, same) = starts_sound xs cs (ground arith) in
    (c ∷ middle, after, ap (λ t. c ∷ t) e, (same_letter_sound x c (ground arith), same))

starts_complete :
    (xs middle after : Text) → IsSameText xs middle → starts xs (middle ++ after) ≡ true
starts_complete [] middle after h = refl
starts_complete (x ∷ xs) [] after h = absurd h
starts_complete (x ∷ xs) (c ∷ middle) after h =
    rw (same_letter_complete x c h.0) (starts_complete xs middle after h.1)

contains_sound : (xs cs : Text) → contains xs cs ≡ true → Stands xs cs
contains_sound xs [] h =
    let (middle, after, e, same) = starts_sound xs [] h in ([], middle, after, e, same)
contains_sound xs (c ∷ cs) h = elim (Bool-cases (starts xs (c ∷ cs))) [
  | inl here ↦
      let (middle, after, e, same) = starts_sound xs (c ∷ cs) here in ([], middle, after, e, same)
  | inr later ↦
      let (before, middle, after, e, same) = contains_sound xs cs (ground arith) in
      (c ∷ before, middle, after, ap (λ t. c ∷ t) e, same)
]

contains-starts : (xs cs : Text) → starts xs cs ≡ true → contains xs cs ≡ true
contains-starts xs [] h = h
contains-starts xs (c ∷ cs) h = rw h refl

contains_complete :
    (xs before middle after : Text)
    → IsSameText xs middle
    → contains xs (before ++ middle ++ after) ≡ true
contains_complete xs [] middle after h =
    contains-starts xs (middle ++ after) (starts_complete xs middle after h)
contains_complete xs (c ∷ before) middle after h =
    ground (arith, contains_complete xs before middle after h)

-- A text filter selects exactly the columns in which the given text stands, with the letters A to Z taken
-- without their case and every other character as it is: those that LIKE gives a meaning stand for
-- themselves.
pub like_filter-Stands : (xs cs : Text) → (like_filter xs cs ≡ true) ↔ Stands xs cs
like_filter-Stands xs cs = (
  λ h. contains_sound xs cs (sym (like_filter-contains xs cs) ∙ h),
  λ (before, middle, after, e, same).
      like_filter-contains xs cs
      ∙ ap (λ t. contains xs t) e
      ∙ contains_complete xs before middle after same,
)
