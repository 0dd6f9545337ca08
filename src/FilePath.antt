-- ===== src/FilePath.antt =====
-- POSIX paths, as pathlib reads them in backend/app/services/job_files.py, backend/app/services/
-- task_store.py and backend/core/task_spec.py: a text is a list of code points, a path its parts.
pub mod Decimal
pub mod Prefix
use Prim.Native.Char.{code}
use Prim.Native.String
use crate_probe.Prelude.{
  ℕ, ◌≡◌, Bool, true, false, not, ◌&&◌, ◌||◌, List, [], ◌∷◌, ◌==◌, if◌then◌else◌, leb,
}

-- one component of a path, or any other text
abbrev pub Text : Type 0
Text = List ℕ

-- an absolute path by its parts below the root
abbrev pub FilePath : Type 0
FilePath = List Text

-- The code points of a literal.
abbrev pub codes : String.String → Text
codes String.[] = []
codes (String.◌∷◌ c s) = code c ∷ codes s

abbrev pub text_eq : Text → Text → Bool
text_eq [] [] = true
text_eq [] (y ∷ ys) = false
text_eq (x ∷ xs) [] = false
text_eq (x ∷ xs) (y ∷ ys) = x == y && text_eq xs ys

-- the order of texts by their code points, as SQLite's BINARY collation and Python's `<=` have it
abbrev pub text_leb : Text → Text → Bool
text_leb [] t = true
text_leb (c ∷ cs) [] = false
text_leb (c ∷ cs) (d ∷ ds) = if c == d then text_leb cs ds else leb c d

abbrev pub path_eq : FilePath → FilePath → Bool
path_eq [] [] = true
path_eq [] (y ∷ ys) = false
path_eq (x ∷ xs) [] = false
path_eq (x ∷ xs) (y ∷ ys) = text_eq x y && path_eq xs ys

-- `base in path.parents`
abbrev pub is_parent : FilePath → FilePath → Bool
is_parent base [] = false
is_parent [] (y ∷ ys) = true
is_parent (x ∷ xs) (y ∷ ys) = text_eq x y && is_parent xs ys

abbrev extend_first : ℕ → List Text → List Text
extend_first c [] = (c ∷ []) ∷ []
extend_first c (p ∷ ps) = (c ∷ p) ∷ ps

-- `text.split("/")`
unfoldable pub split_slash : Text → List Text
split_slash [] = [] ∷ []
split_slash (c ∷ cs) =
    let rest = split_slash cs in if c == b'/' then [] ∷ rest else extend_first c rest

-- pathlib drops empty components and single dots
abbrev pub is_component : Text → Bool
is_component [] = false
is_component (c ∷ cs) = not (text_eq (c ∷ cs) (codes "."))

unfoldable pub keep_components : List Text → List Text
keep_components [] = []
keep_components (p ∷ ps) =
    let rest = keep_components ps in if is_component p then p ∷ rest else rest

-- the parts of a relative path, or of an absolute one below its root
unfoldable pub parts : Text → List Text
unfolding split_slash keep_components
parts text = keep_components (split_slash text)

abbrev pub is_absolute : Text → Bool
is_absolute [] = false
is_absolute (c ∷ cs) = c == b'/'

-- `".." in path.parts`
abbrev pub has_parent : List Text → Bool
has_parent [] = false
has_parent (p ∷ ps) = text_eq p (codes "..") || has_parent ps
