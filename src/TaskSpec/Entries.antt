-- ===== src/TaskSpec/Entries.antt =====
-- backend/core/task_spec.py, `_rel_path_list`: the entries of `artifacts` and `watch`.
use crate_probe.FilePath.{codes, parts, is_absolute, has_parent}
use crate_probe.TaskSpec.TomlValue.{Toml, Items, Fields, text, array, nil, cons, get_field}
use crate_probe.TaskSpec.{
  Parsed, ok, error, ◌>>=◌, rel_entry, rel_entries, rel_path_list, not_a_list, no_text,
}
use crate_probe.Prelude.{
  ◌≢◌, ◌≡◌, [], All, false, Option, Bool-cases, inl, inr, none, some, arith, String, eq_iff,
}

-- An entry of `artifacts` or `watch` that stays inside the workspace.
pub record IsContained (t : String) : Type 0 where
  pub nonempty : t ≢ ""
  pub relative : is_absolute (codes t) ≡ false
  pub no_parent : has_parent (parts (codes t)) ≡ false

-- What holds of the value, if there is one.
abbrev pub Ensures : {A : Type 0} → (A → Type 0) → Parsed A → Type 0
Ensures P (ok a) = P a
Ensures P (error e) = Unit

pub bind-Ensures :
    {A B : Type 0} (P : A → Type 0) (Q : B → Type 0) (m : Parsed A) (f : A → Parsed B)
    → Ensures P m
    → ((a : A) → P a → Ensures Q (f a))
    → Ensures Q (m >>= f)
bind-Ensures P Q (ok a) f h k = k a h
bind-Ensures P Q (error e) f h k = tt

abbrev pub Any : {A : Type 0} → A → Type 0
Any a = Unit

pub anything : {A : Type 0} (m : Parsed A) → Ensures Any m
anything (ok a) = tt
anything (error e) = tt

pub not_empty : (t : String) → no_text t ≡ false → t ≢ ""
not_empty t h e = ground (arith, eq_iff t "")

rel_text-IsContained : (t : String) → Ensures IsContained (rel_entry (text t))
unfolding rel_entry
rel_text-IsContained t = elim (Bool-cases (no_text t)) [
  | inl z ↦ rw z tt
  | inr some_text ↦ elim (Bool-cases (is_absolute (codes t))) [
    | inl a ↦ rw (some_text, a) tt
    | inr r ↦ elim (Bool-cases (has_parent (parts (codes t)))) [
      | inl d ↦ rw (some_text, r, d) tt
      | inr n ↦
          rw (some_text, r, n)
            (record { nonempty = not_empty t some_text; relative = r; no_parent = n })
    ]
  ]
]

rel_entry-IsContained : (v : Toml) → Ensures IsContained (rel_entry v)
rel_entry-IsContained (text t) = rel_text-IsContained t
rel_entry-IsContained _ = unfold rel_entry in tt

rel_entries-IsContained : (vs : Items) → Ensures (All IsContained) (rel_entries vs)
unfolding rel_entries
rel_entries-IsContained nil = tt
rel_entries-IsContained (cons v vs) =
    bind-Ensures IsContained (All IsContained) (rel_entry v) _ (rel_entry-IsContained v) λ t h.
      bind-Ensures (All IsContained) (All IsContained) (rel_entries vs) _
        (rel_entries-IsContained vs) λ ts hs. (h, hs)

pub rel_path_list-IsContained :
    (raw : Fields) (key : String) → Ensures (All IsContained) (rel_path_list raw key)
unfolding rel_path_list
rel_path_list-IsContained raw key = go (get_field raw key)
  where
    go :
        (v : Option Toml)
        → Ensures (All IsContained) (elim v [
          | none ↦ ok []
          | some (array items) ↦ rel_entries items
          | some _ ↦ error not_a_list
        ])
    go none = tt
    go (some (array items)) = rel_entries-IsContained items
    go (some _) = tt
