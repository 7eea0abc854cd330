-- ===== src/Prelude/Text/Replace.antt =====
-- `str::replace` of one character, given by its code point, by a text.
use Prim.Native.Nat.{ℕ}
use Prim.Native.Char.{code}
use Prim.Native.String
use Prim.Native.String.{String}
use picoshift.Prelude.Tests.{eqb, if◌then◌else◌}
use mathlib.Core.List.{List, [], ◌∷◌}

unfoldable pub replace : ℕ → String → String → String
replace d t String.[] = ""
replace d t (String.◌∷◌ c s) =
    let rest = replace d t s in if eqb (code c) d then String.◌++◌ t rest else String.◌∷◌ c rest

-- `format!` with its holes filled: the pieces one after the other.
abbrev pub format : List String → String
format [] = ""
format (s ∷ []) = s
format (s ∷ t ∷ r) = String.◌++◌ s (format (t ∷ r))
