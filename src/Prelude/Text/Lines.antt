-- ===== src/Prelude/Text/Lines.antt =====
-- `str::lines`: cut at line feeds; a carriage return before a line feed goes too, and a line feed at
-- the end opens no further line.
use Prim.Native.Char.{Char, code}
use Prim.Native.String
use Prim.Native.String.{String}
use mathlib.Core.Path.{◌≡◌, refl, ap, ◌∙◌}
use mathlib.Core.Logic.{◌≢◌}
use mathlib.Core.Bool.{Bool, false, ◌&&◌}
use mathlib.Core.List.{List, [], ◌∷◌}
use native.Mathlib.Omega.{arith}
use text.Mathlib.TextLemmas.{nil-append, cons-append}
use picoshift.Prelude.Lists.{All}
use picoshift.Prelude.Tests.{eqb, if◌then◌else◌}

abbrev cons_head : Char → List String → List String
cons_head c [] = (String.◌∷◌ c "") ∷ []
cons_head c (l ∷ ls) = (String.◌∷◌ c l) ∷ ls

abbrev starts_line : String → Bool
starts_line String.[] = false
starts_line (String.◌∷◌ c s) = eqb (code c) 10

unfoldable pub lines : String → List String
lines String.[] = []
lines (String.◌∷◌ c s) =
    let rest = lines s in
    if eqb (code c) 10
    then "" ∷ rest
    else if eqb (code c) 13 && starts_line s
    then rest
    else cons_head c rest

-- A text with no line break in it.
abbrev pub IsOneLine : String → Type 0
IsOneLine String.[] = Unit
IsOneLine (String.◌∷◌ c s) = (code c ≢ 10) × (code c ≢ 13) × IsOneLine s

-- Every line with its line feed.
abbrev pub unlines : List String → String
unlines [] = ""
unlines (l ∷ ls) = String.◌++◌ l (String.◌∷◌ "\n" (unlines ls))

lines-append_line :
    (l rest : String) → IsOneLine l → lines (String.◌++◌ l (String.◌∷◌ "\n" rest)) ≡ l ∷ lines rest
unfolding lines
lines-append_line String.[] rest h = rw nil-append
lines-append_line (String.◌∷◌ c l) rest (h, k, t) =
    rw (cons-append, lines, lines-append_line l rest t) (ground arith)

-- `lines` takes the line feeds off again.
pub lines-unlines : (ls : List String) → All IsOneLine ls → lines (unlines ls) ≡ ls
unfolding lines
lines-unlines [] h = refl
lines-unlines (l ∷ ls) h =
    lines-append_line l (unlines ls) h.0 ∙ ap (λ r. l ∷ r) (lines-unlines ls h.1)
