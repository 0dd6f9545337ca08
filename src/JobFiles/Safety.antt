-- ===== src/JobFiles/Safety.antt =====
-- backend/app/services/job_files.py, `safe_join`: which paths it returns.
use crate_probe.FilePath.{Text, FilePath, parts, is_absolute, has_parent, path_eq, is_parent}
use crate_probe.FilePath.Prefix.{path_eq_sound, is_parent_sound, is_parent-append}
use crate_probe.JobFiles.{joined, is_empty, safe_join}
use crate_probe.Prelude.{
  ◌≡◌, not, ◌++◌, ◌&&◌, false, Bool-cases, inl, [], ◌∙◌, sym, append-nil, subst, arith, inr, ◌∷◌,
}

-- The path is the directory itself or lies below it.
abbrev pub IsBelow : FilePath → FilePath → Type 0
IsBelow base p = (rest : FilePath) × (p ≡ base ++ rest)

IsBelow-of_test :
    (base p : FilePath) → not (path_eq p base) && not (is_parent base p) ≡ false → IsBelow base p
IsBelow-of_test base p h = elim (Bool-cases (path_eq p base)) [
  | inl same ↦ ([], path_eq_sound p base same ∙ sym (append-nil base))
  | inr differ ↦ let (t, ts, e) = is_parent_sound base p (ground arith) in (t ∷ ts, e)
]

-- Whatever the links on the disk, a path that `safe_join` returns is the base or lies below it, and
-- was asked for by a relative path that has no `..` component.
pub safe_join-IsBelow :
    (resolve : FilePath → FilePath) (base : FilePath) (rel : Text) (p : FilePath)
    → safe_join resolve base rel ≡ joined p
    → IsBelow (resolve base) p × (is_absolute rel ≡ false) × (has_parent (parts rel) ≡ false)
unfolding safe_join
safe_join-IsBelow resolve base rel p h = (
  subst (λ q. IsBelow (resolve base) q) (ground arith)
      (IsBelow-of_test (resolve base) (resolve (resolve base ++ parts rel)) (ground arith)),
  ground arith,
  ground arith,
)

joins_below :
    (base ps : FilePath)
    → is_empty ps ≡ false
    → not (path_eq (base ++ ps) base) && not (is_parent base (base ++ ps)) ≡ false
joins_below base [] e = ground arith
joins_below base (t ∷ ts) e = ground (arith, is_parent-append base t ts)

-- Without links, every relative path with a component and without `..` is joined to the base.
pub safe_join-no_links :
    (base : FilePath) (rel : Text)
    → is_absolute rel ≡ false
    → has_parent (parts rel) ≡ false
    → is_empty (parts rel) ≡ false
    → safe_join (λ p. p) base rel ≡ joined (base ++ parts rel)
unfolding safe_join
safe_join-no_links base [] a d e = unfold parts in ground arith
safe_join-no_links base (c ∷ cs) a d e = ground (arith, joins_below base (parts (c ∷ cs)) e)
