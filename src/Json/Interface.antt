-- ===== src/Json/Interface.antt =====
-- The interface of `serde_json`, a package outside the repository: its type and operations are a
-- parameter of the model, with the laws that the program relies on.
use picoshift.Prelude.{ℕ, ◌^◌, ◌<◌, String, ◌≡◌, Bool, Option, some, List}
use picoshift.Prelude.Maps.{Map, lookup}

pub record Serde : Type 1 where
  pub Value : Type 0
  -- `Value::get` of a key, and the `as_…` methods.
  pub get : Value → String → Option Value
  pub as_str : Value → Option String
  pub as_bool : Value → Option Bool
  pub as_u64 : Value → Option ℕ
  pub as_array : Value → Option (List Value)
  -- The values that `json!` builds; an object is given by its entries, each key once.
  pub str : String → Value
  pub bool : Bool → Value
  pub num : ℕ → Value
  pub arr : List Value → Value
  pub obj : Map Value → Value
  -- `Value::to_string`.
  pub to_string : Value → String
  pub get-obj : (m : Map Value) (k : String) → get (obj m) k ≡ lookup k m
  pub as_str-str : (s : String) → as_str (str s) ≡ some s
  pub as_bool-bool : (b : Bool) → as_bool (bool b) ≡ some b
  pub as_u64-num : (n : ℕ) → n < 2 ^ 64 → as_u64 (num n) ≡ some n
  pub as_array-arr : (vs : List Value) → as_array (arr vs) ≡ some vs
