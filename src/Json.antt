-- ===== src/Json.antt =====
-- JSON values as the program reads them with chains of `get` and `and_then`, over any
-- implementation of the interface of `serde_json`.
pub mod Interface
pub mod Tree
use picoshift.Prelude.{String, Bool, true, false, Option, none, some, List, [], ◌∷◌, ◌==◌}
use picoshift.Prelude.Options.{◌>>=◌}
use Interface.{Serde}

module _ (J : Serde) where
  open J use {Value, get, as_str, as_array}

  -- `v.get(a).and_then(|x| x.get(b))…`
  abbrev pub get_in : Value → List String → Option Value
  get_in v [] = some v
  get_in v (k ∷ ks) = get v k >>= λ x. get_in x ks

  abbrev pub str_in : Value → List String → Option String
  str_in v ks = get_in v ks >>= as_str

  abbrev pub array_in : Value → List String → Option (List Value)
  array_in v ks = get_in v ks >>= as_array

  -- `v.get(…)….as_str() == Some(t)`
  abbrev pub is_text : Option String → String → Bool
  is_text none t = false
  is_text (some s) t = s == t
