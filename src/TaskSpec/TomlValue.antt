-- ===== src/TaskSpec/TomlValue.antt =====
-- The values that `tomllib.loads` returns.
use crate_probe.Prelude.{
  ℕ, zero, suc, Bool, true, false, Option, none, some, String, str_eq, ℤ, pos, negsuc,
  if◌then◌else◌,
}

-- A float: a finite value m / 10 ^ k, an infinity, or not a number.
pub data Float : Type 0 where
  finite : ℤ → ℕ → Float
  infinity minus_infinity nan : Float

abbrev pub of_int : ℤ → Float
of_int n = finite n 0

abbrev pub int_positive : ℤ → Bool
int_positive (pos zero) = false
int_positive (pos (suc n)) = true
int_positive (negsuc n) = false

-- `not x <= 0`: every comparison with nan is false
abbrev pub is_positive : Float → Bool
is_positive (finite m k) = int_positive m
is_positive infinity = true
is_positive minus_infinity = false
is_positive nan = true

mutual
  pub data Toml : Type 0 where
    text : String → Toml
    int : ℤ → Toml
    float : Float → Toml
    bool : Bool → Toml
    date : ℕ → Toml
    array : Items → Toml
    table : Fields → Toml

  pub data Items : Type 0 where
    nil : Items
    cons : Toml → Items → Items

  pub data Fields : Type 0 where
    end : Fields
    field : String → Toml → Fields → Fields

-- `raw.get(key)`
unfoldable pub get_field : Fields → String → Option Toml
get_field end key = none
get_field (field k v rest) key = if str_eq k key then some v else get_field rest key
