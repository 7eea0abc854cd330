-- ===== src/Prelude/Text/Bytes.antt =====
-- `str::as_bytes`: the UTF-8 encoding.
use Prim.Native.Nat.{ℕ, ◌+◌, ◌/◌, ◌%◌}
use Prim.Native.Char.{code}
use Prim.Native.String.{String}
use mathlib.Core.List.{List, [], ◌∷◌, ◌++◌}
use mathlib.Core.Bool.{Bool, true, false, ◌&&◌}
use picoshift.Prelude.Tests.{ltb, eqb, if◌then◌else◌}

-- The low six bits of a code point, as a byte that continues another.
abbrev tail_byte : ℕ → ℕ
tail_byte c = 0x80 + c % 64

unfoldable pub encode_utf8 : ℕ → List ℕ
encode_utf8 c =
    if ltb c 0x80
    then c ∷ []
    else if ltb c 0x800
    then (0xc0 + c / 64) ∷ tail_byte c ∷ []
    else if ltb c 0x10000
    then (0xe0 + c / 4096) ∷ tail_byte (c / 64) ∷ tail_byte c ∷ []
    else (0xf0 + c / 262144) ∷ tail_byte (c / 4096) ∷ tail_byte (c / 64) ∷ tail_byte c ∷ []

unfoldable pub as_bytes : String → List ℕ
as_bytes String.[] = []
as_bytes (String.◌∷◌ c s) = encode_utf8 (code c) ++ as_bytes s

-- `==` of two slices of bytes.
unfoldable pub same_bytes : List ℕ → List ℕ → Bool
same_bytes [] [] = true
same_bytes [] (b ∷ bs) = false
same_bytes (a ∷ bs) [] = false
same_bytes (a ∷ bs) (c ∷ cs) = eqb a c && same_bytes bs cs
