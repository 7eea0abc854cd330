-- ===== src/Prelude/Text/Split.antt =====
-- `str::split_once` and `str::split` at one character, given by its code point.
use Prim.Native.Nat.{ℕ}
use Prim.Native.Char.{Char, code}
use Prim.Native.String
use Prim.Native.String.{String}
use mathlib.Core.Path.{◌≡◌}
use mathlib.Core.Logic.{◌≢◌}
use mathlib.Core.Option.{Option, none, some}
use mathlib.Core.List.{List, [], ◌∷◌}
use native.Mathlib.Omega.{arith}
use text.Mathlib.TextLemmas.{nil-append, cons-append}
use picoshift.Prelude.Tests.{eqb, if◌then◌else◌}

abbrev cons_left : Char → Option (String × String) → Option (String × String)
cons_left c none = none
cons_left c (some (a, b)) = some (String.◌∷◌ c a, b)

unfoldable pub split_once : ℕ → String → Option (String × String)
split_once d String.[] = none
split_once d (String.◌∷◌ c s) =
    let rest = split_once d s in if eqb (code c) d then some ("", s) else cons_left c rest

abbrev cons_first : Char → List String → List String
cons_first c [] = (String.◌∷◌ c "") ∷ []
cons_first c (l ∷ ls) = (String.◌∷◌ c l) ∷ ls

-- Never empty: a text without the separator is its one part.
unfoldable pub split : ℕ → String → List String
split d String.[] = "" ∷ []
split d (String.◌∷◌ c s) =
    let rest = split d s in if eqb (code c) d then "" ∷ rest else cons_first c rest

-- The separator does not occur.
abbrev pub Lacks : ℕ → String → Type 0
Lacks d String.[] = Unit
Lacks d (String.◌∷◌ c s) = (code c ≢ d) × Lacks d s

pub split_once-append :
    (d : Char) (a b : String)
    → Lacks (code d) a
    → split_once (code d) (String.◌++◌ a (String.◌∷◌ d b)) ≡ some (a, b)
unfolding split_once
split_once-append d String.[] b h = rw nil-append (ground arith)
split_once-append d (String.◌∷◌ c a) b (h, k) =
    rw (cons-append, split_once, split_once-append d a b k) (ground arith)
