-- ===== src/Runner/Cache.antt =====
-- backend/runner/cache.py, `TTLCache`. A time is a number of microseconds; a part of a key is its text.
pub mod History
use crate_probe.Prelude.{ℕ, ◌+◌, [], ◌∷◌, ◌++◌, Option, none, some, List, if◌then◌else◌, leb, Bool}
use crate_probe.FilePath.{Text, codes, text_eq}
use crate_probe.Table.{find, delete}

pub record Entry (V : Type 0) : Type 0 where
  pub key : Text
  pub value : V
  pub expires_at : ℕ

pub record TtlCache (V : Type 0) : Type 0 where
  pub ttl : ℕ
  pub store : List (Entry V)

-- `"|".join(str(p) for p in parts)`
unfoldable pub key_of : List Text → Text
key_of [] = []
key_of (part ∷ []) = part
key_of (part ∷ part' ∷ parts) = part ++ codes "|" ++ key_of (part' ∷ parts)

module _ {V : Type 0} where
  abbrev pub at_key : Text → Entry V → Bool
  at_key key e = text_eq e.key key

  unfoldable pub get : ℕ → List Text → TtlCache V → Option V × TtlCache V
  get now parts cache = elim (find (at_key (key_of parts)) cache.store) [
    | none ↦ (none, cache)
    | some e ↦
        if leb e.expires_at now
        then (none, record cache { store = delete (at_key (key_of parts)) cache.store })
        else (some e.value, cache)
  ]

  unfoldable pub set : ℕ → V → List Text → TtlCache V → TtlCache V
  set now value parts cache = record cache {
    store =
        (record { key = key_of parts; value = value; expires_at = now + cache.ttl })
        ∷ delete (at_key (key_of parts)) cache.store;
  }
