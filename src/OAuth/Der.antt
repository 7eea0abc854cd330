-- ===== src/OAuth/Der.antt =====
-- The reader of RSA public keys in simulator/src/oauth/types.rs: `JwtKeys::parse_rsa_integers`,
-- `der_len_size` and `read_der_len`. A byte is a number below 256, and `none` is a panic: an index
-- or a slice out of range. `usize` has 64 bits.
pub mod RoundTrip
use picoshift.Prelude.{
  ℕ, zero, suc, ◌+◌, ◌-◌, ◌*◌, ◌%◌, ◌^◌, Option, none, some, List, [], ◌∷◌, first, ltb, eqb,
  if◌then◌else◌,
}
use picoshift.Prelude.Options.{◌>>=◌}

-- `&der[pos..]`
abbrev pub slice_from : List ℕ → ℕ → Option (List ℕ)
slice_from der zero = some der
slice_from [] (suc pos) = none
slice_from (b ∷ der) (suc pos) = slice_from der pos

-- `&der[..n]`
abbrev pub slice_to : List ℕ → ℕ → Option (List ℕ)
slice_to der zero = some []
slice_to [] (suc n) = none
slice_to (b ∷ der) (suc n) = do r ← slice_to der n; some (b ∷ r)

unfoldable pub der_len_size : List ℕ → Option ℕ
der_len_size der = do b ← first der; if ltb b 0x80 then some 1 else some (1 + b % 128)

-- The loop of `read_der_len`, over what follows the first byte.
unfoldable pub read_from : List ℕ → ℕ → ℕ → Option ℕ
read_from der zero len = some len
read_from [] (suc num) len = none
read_from (b ∷ der) (suc num) len = read_from der num (len * 256 % 2 ^ 64 + b)

unfoldable pub read_der_len : List ℕ → Option ℕ
unfolding read_from
read_der_len [] = none
read_der_len (b ∷ der) = if ltb b 0x80 then some b else read_from der (b % 128) 0

-- `if !n.is_empty() && n[0] == 0 { n.remove(0); }`
abbrev pub without_sign : List ℕ → List ℕ
without_sign [] = []
without_sign (b ∷ n) = if eqb b 0 then n else b ∷ n

unfoldable pub parse_rsa_integers : List ℕ → Option (List ℕ × List ℕ)
parse_rsa_integers der = do
  s ← slice_from der 1
  header ← der_len_size s
  s ← slice_from der (1 + header + 1)
  n_len ← read_der_len s
  n_size ← der_len_size s
  s ← slice_from der (1 + header + 1 + n_size)
  n ← slice_to s n_len
  s ← slice_from der (1 + header + 1 + n_size + n_len + 1)
  e_len ← read_der_len s
  e_size ← der_len_size s
  s ← slice_from der (1 + header + 1 + n_size + n_len + 1 + e_size)
  e ← slice_to s e_len
  some (without_sign n, e)
