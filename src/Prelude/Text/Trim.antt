-- ===== src/Prelude/Text/Trim.antt =====
-- `str::trim`: the characters of Unicode's White_Space come off both ends.
use Prim.Native.Nat.{ℕ}
use Prim.Native.Char.{Char, code}
use Prim.Native.String.{String}
use mathlib.Core.Path.{◌≡◌, refl}
use mathlib.Core.Bool.{Bool, true, false, ◌&&◌, ◌||◌}
use picoshift.Prelude.Tests.{eqb, leb, if◌then◌else◌}

-- `str::is_empty`.
abbrev pub is_nil : String → Bool
is_nil String.[] = true
is_nil (String.◌∷◌ c s) = false

-- `char::is_whitespace`, on code points.
unfoldable pub is_whitespace : ℕ → Bool
is_whitespace c =
    (leb 9 c && leb c 13)
    || eqb c 32
    || eqb c 0x85
    || eqb c 0xa0
    || eqb c 0x1680
    || (leb 0x2000 c && leb c 0x200a)
    || eqb c 0x2028
    || eqb c 0x2029
    || eqb c 0x202f
    || eqb c 0x205f
    || eqb c 0x3000

unfoldable pub trim_start : String → String
trim_start String.[] = ""
trim_start (String.◌∷◌ c s) =
    let rest = trim_start s in if is_whitespace (code c) then rest else String.◌∷◌ c s

abbrev cons_unless_blank : Char → String → String
cons_unless_blank c String.[] = if is_whitespace (code c) then "" else String.◌∷◌ c ""
cons_unless_blank c (String.◌∷◌ d s) = String.◌∷◌ c (String.◌∷◌ d s)

unfoldable pub trim_end : String → String
trim_end String.[] = ""
trim_end (String.◌∷◌ c s) = cons_unless_blank c (trim_end s)

unfoldable pub trim : String → String
unfolding trim_start trim_end is_whitespace
trim s = trim_end (trim_start s)

-- No blank at the front, and none at the end.
abbrev StartsSolid : String → Type 0
StartsSolid String.[] = Unit
StartsSolid (String.◌∷◌ c s) = is_whitespace (code c) ≡ false

abbrev EndsSolid : String → Type 0
EndsSolid String.[] = Unit
EndsSolid (String.◌∷◌ c String.[]) = is_whitespace (code c) ≡ false
EndsSolid (String.◌∷◌ c (String.◌∷◌ d s)) = EndsSolid (String.◌∷◌ d s)

abbrev pub IsTrimmed : String → Type 0
IsTrimmed s = StartsSolid s × EndsSolid s

trim_start_of_solid : (s : String) → StartsSolid s → trim_start s ≡ s
unfolding trim_start
trim_start_of_solid String.[] h = refl
trim_start_of_solid (String.◌∷◌ c s) h = rw h

trim_end_of_solid : (s : String) → EndsSolid s → trim_end s ≡ s
unfolding trim_end
trim_end_of_solid String.[] h = refl
trim_end_of_solid (String.◌∷◌ c String.[]) h = rw h
trim_end_of_solid (String.◌∷◌ c (String.◌∷◌ d s)) h = rw (trim_end_of_solid (String.◌∷◌ d s) h)

pub trim_of_IsTrimmed : (s : String) → IsTrimmed s → trim s ≡ s
unfolding trim
trim_of_IsTrimmed s (h, k) = rw (trim_start_of_solid s h) (trim_end_of_solid s k)

cons_unless_blank-ne-empty :
    (c : Char) (s : String)
    → is_whitespace (code c) ≡ false
    → is_nil (cons_unless_blank c s) ≡ false
cons_unless_blank-ne-empty c String.[] h = rw h
cons_unless_blank-ne-empty c (String.◌∷◌ d s) h = refl

-- A text that begins with no blank is not trimmed away.
pub trim-ne-empty :
    (c : Char) (s : String)
    → is_whitespace (code c) ≡ false
    → is_nil (trim (String.◌∷◌ c s)) ≡ false
unfolding trim
trim-ne-empty c s h = rw h (cons_unless_blank-ne-empty c (trim_end s) h)
