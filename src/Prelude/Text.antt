-- ===== src/Prelude/Text.antt =====
-- The methods of `str` that the program uses, over the native texts: `lines`, `trim`, `split_once`,
-- `strip_prefix`, `split`, `replace` of a character, `contains`. The laws are in the children.
pub mod Lines
pub mod Trim
pub mod Split
pub mod Replace
pub mod Bytes
pub use Trim.{is_nil as is_empty}
use Prim.Native.Char.{code}
use Prim.Native.String.{String}
use mathlib.Core.Bool.{Bool, true, false, ◌||◌}
use mathlib.Core.Option.{Option, none}
use text.Mathlib.Text.{starts_with}
use picoshift.Prelude.Tests.{eqb, if◌then◌else◌}

-- `str::contains` of a text.
abbrev pub contains : String → String → Bool
contains String.[] t = starts_with "" t
contains (String.◌∷◌ c s) t = starts_with (String.◌∷◌ c s) t || contains s t

-- `str::strip_prefix`.
abbrev pub strip_prefix : String → String → Option String
strip_prefix s String.[] = Option.some s
strip_prefix String.[] (String.◌∷◌ d t) = none
strip_prefix (String.◌∷◌ c s) (String.◌∷◌ d t) =
    let rest = strip_prefix s t in if eqb (code c) (code d) then rest else none
