-- ===== src/Runner/Cache/History.antt =====
-- backend/runner/cache.py, `TTLCache`: what a read finds, by the calls before it.
use crate_probe.Prelude.{
  ℕ, ◌+◌, ◌≤◌, [], ◌∷◌, true, false, Option, none, some, List, if◌then◌else◌, leb, ◌≡◌, arith, refl,
  Bool-cases, Option-cases, inl, inr, ◌∙◌,
}
use crate_probe.FilePath.{Text, text_eq}
use crate_probe.FilePath.Prefix.{text_eq_sound, text_eq_refl}
use crate_probe.Table.{find}
use crate_probe.Table.Rows.{find-delete, find-delete_self}
use crate_probe.Runner.Cache.{Entry, TtlCache, key_of, at_key, get, set}

-- A call with the time at which it is made.
pub data Call (V : Type 0) : Type 0 where
  gets : ℕ → List Text → Call V
  sets : ℕ → V → List Text → Call V

module _ {V : Type 0} where
  abbrev pub time_of : Call V → ℕ
  time_of (gets t parts) = t
  time_of (sets t v parts) = t

  unfoldable pub call : Call V → TtlCache V → TtlCache V
  call (gets t parts) cache = (get t parts cache).1
  call (sets t v parts) cache = set t v parts cache

  -- The cache after the calls, of which the latest stands first.
  unfoldable pub run : ℕ → List (Call V) → TtlCache V
  run ttl [] = record { ttl = ttl; store = [] }
  run ttl (c ∷ calls) = call c (run ttl calls)

  -- No call is later than the one after it, nor than `now`.
  abbrev pub InTime : ℕ → List (Call V) → Type 0
  InTime now [] = Unit
  InTime now (c ∷ calls) = (time_of c ≤ now) × InTime (time_of c) calls

  -- The last value that was set for a key, if its time to live is not over.
  abbrev pub kept : ℕ → ℕ → ℕ → V → Option V
  kept ttl now t v = if leb (t + ttl) now then none else some v

  unfoldable pub last_set : ℕ → ℕ → Text → List (Call V) → Option V
  last_set ttl now key [] = none
  last_set ttl now key (gets t parts ∷ calls) = last_set ttl now key calls
  last_set ttl now key (sets t v parts ∷ calls) =
      let earlier = last_set ttl now key calls in
      if text_eq (key_of parts) key then kept ttl now t v else earlier

  -- What a read of the key would find.
  abbrev live : ℕ → Option (Entry V) → Option V
  live now none = none
  live now (some e) = if leb e.expires_at now then none else some e.value

  abbrev view : ℕ → Text → TtlCache V → Option V
  view now key cache = live now (find (at_key key) cache.store)

  apart :
      (e : Entry V) (key key' : Text)
      → text_eq key key' ≡ false
      → text_eq e.key key' ≡ true
      → text_eq e.key key ≡ false
  apart e key key' h g =
      ground (arith, text_eq_sound e.key key', text_eq_sound e.key key, text_eq_refl key)

  ttl-run : (ttl : ℕ) (calls : List (Call V)) → (run ttl calls).ttl ≡ ttl
  unfolding run call get set
  ttl-run ttl [] = refl
  ttl-run ttl (gets t parts ∷ calls) = ground (arith, ttl-run ttl calls)
  ttl-run ttl (sets t v parts ∷ calls) = ttl-run ttl calls

  view-get :
      (t now : ℕ) (parts : List Text) (key : Text) (cache : TtlCache V)
      → t ≤ now
      → view now key (get t parts cache).1 ≡ view now key cache
  unfolding get
  view-get t now parts key cache h =
      elim (Option-cases (find (at_key (key_of parts)) cache.store)) [
        | inl missing ↦ ground arith
        | inr (e, found) ↦ elim (Bool-cases (leb e.expires_at t)) [
          | inr fresh ↦ ground arith
          | inl over ↦ elim (Bool-cases (text_eq (key_of parts) key)) [
            | inr there ↦ ground (
              arith,
              find-delete (at_key key) (at_key (key_of parts))
                  (λ e. apart e (key_of parts) key there) cache.store,
            )
            | inl here ↦ ground (
              arith,
              text_eq_sound (key_of parts) key here,
              find-delete_self (at_key (key_of parts)) cache.store,
            )
          ]
        ]
      ]

  get-view :
      (now : ℕ) (parts : List Text) (cache : TtlCache V)
      → (get now parts cache).0 ≡ view now (key_of parts) cache
  unfolding get
  get-view now parts cache = ground arith

  InTime-later : (t now : ℕ) (calls : List (Call V)) → t ≤ now → InTime t calls → InTime now calls
  InTime-later t now [] h k = tt
  InTime-later t now (c ∷ calls) h k = (omega (arith, h, k.0), k.1)

  view-set :
      (t now : ℕ) (v : V) (parts : List Text) (key : Text) (cache : TtlCache V)
      → view now key (set t v parts cache)
        ≡ (if text_eq (key_of parts) key then kept cache.ttl now t v else view now key cache)
  unfolding set
  view-set t now v parts key cache = elim (Bool-cases (text_eq (key_of parts) key)) [
    | inl here ↦ ground arith
    | inr there ↦ ground (
      arith,
      find-delete (at_key key) (at_key (key_of parts)) (λ e. apart e (key_of parts) key there)
          cache.store,
    )
  ]

  view-run :
      (ttl now : ℕ) (key : Text) (calls : List (Call V))
      → InTime now calls
      → view now key (run ttl calls) ≡ last_set ttl now key calls
  unfolding run call last_set
  view-run ttl now key [] h = refl
  view-run ttl now key (gets t parts ∷ calls) h =
      view-get t now parts key (run ttl calls) h.0
      ∙ view-run ttl now key calls (InTime-later (time_of (gets t parts)) now calls h.0 h.1)
  view-run ttl now key (sets t v parts ∷ calls) h = ground (
    arith,
    view-set t now v parts key (run ttl calls),
    ttl-run ttl calls,
    view-run ttl now key calls (InTime-later t now calls h.0 h.1),
  )

  -- A read finds the value that was last set for its key, if its time to live is not over, whatever was
  -- read and set before; the calls are made in the order of time.
  pub get-run :
      (ttl now : ℕ) (parts : List Text) (calls : List (Call V))
      → InTime now calls
      → (get now parts (run ttl calls)).0 ≡ last_set ttl now (key_of parts) calls
  get-run ttl now parts calls h =
      get-view now parts (run ttl calls) ∙ view-run ttl now (key_of parts) calls h
