-- ===== src/OAuth/Der/RoundTrip.antt =====
-- The reader finds the two integers of a DER sequence.
use picoshift.Prelude.{
  ℕ, zero, suc, ◌+◌, ◌*◌, ◌%◌, ◌^◌, ◌<◌, ◌≤◌, ◌≡◌, refl, ap, false, some, List, [], ◌∷◌, ◌++◌,
  append_assoc, length, length-append, arith, ltb,
}
use picoshift.OAuth.Der.{
  slice_from, slice_to, der_len_size, read_from, read_der_len, without_sign, parse_rsa_integers,
}

-- The number that big-endian bytes stand for, after the value of those before them.
abbrev pub big_endian : ℕ → List ℕ → ℕ
big_endian v [] = v
big_endian v (b ∷ bs) = big_endian (v * 256 + b) bs

-- `l` is a DER length that stands for `n`: one byte below 128, or a count and that many bytes.
pub data IsLength (n : ℕ) : List ℕ → Type 0 where
  short : n < 128 → IsLength n (n ∷ [])
  long :
      (b : ℕ) (bs : List ℕ)
      → b ≡ 128 + length bs
      → length bs < 128
      → big_endian 0 bs ≡ n
      → n < 2 ^ 64
      → IsLength n (b ∷ bs)

big_endian-ge : (v : ℕ) (bs : List ℕ) → v ≤ big_endian v bs
big_endian-ge v [] = omega arith
big_endian-ge v (b ∷ bs) = omega (arith, big_endian-ge (v * 256 + b) bs)

read_from-append :
    (bs rest : List ℕ) (v : ℕ)
    → big_endian v bs < 2 ^ 64
    → read_from (bs ++ rest) (length bs) v ≡ some (big_endian v bs)
unfolding read_from
read_from-append [] rest v h = refl
read_from-append (b ∷ bs) rest v h =
    let fits : v * 256 % 2 ^ 64 ≡ v * 256 = omega (arith, big_endian-ge (v * 256 + b) bs) in
    rw fits (read_from-append bs rest (v * 256 + b) h)

read_der_len-append :
    (n : ℕ) {l : List ℕ} (rest : List ℕ) → IsLength n l → read_der_len (l ++ rest) ≡ some n
unfolding read_der_len
read_der_len-append n rest (short h) = ground arith
read_der_len-append n rest (long b bs e small v fits) =
    let test : ltb b 0x80 ≡ false = ground arith in
    let count : b % 128 ≡ length bs = omega arith in
    rw (test, count, read_from-append bs rest 0 (omega arith)) (ap some v)

der_len_size-append :
    (n : ℕ) {l : List ℕ} (rest : List ℕ) → IsLength n l → der_len_size (l ++ rest) ≡ some (length l)
unfolding der_len_size
der_len_size-append n rest (short h) = ground arith
der_len_size-append n rest (long b bs e small v fits) = ground arith

slice_from-append :
    (pre rest : List ℕ) (pos : ℕ) → pos ≡ length pre → slice_from (pre ++ rest) pos ≡ some rest
slice_from-append [] rest pos e = rw e
slice_from-append (b ∷ pre) rest zero e = cc
slice_from-append (b ∷ pre) rest (suc pos) e = slice_from-append pre rest pos (omega arith)

slice_to-append : (xs rest : List ℕ) → slice_to (xs ++ rest) (length xs) ≡ some xs
slice_to-append [] rest = refl
slice_to-append (x ∷ xs) rest = rw (slice_to-append xs rest)

-- A sequence of two integers, with the three lengths given by their bytes.
abbrev pub sequence : List ℕ → List ℕ → List ℕ → List ℕ → List ℕ → List ℕ → List ℕ
sequence header n_len n e_len e rest =
    0x30 ∷ (header ++ (0x02 ∷ (n_len ++ (n ++ (0x02 ∷ (e_len ++ (e ++ rest)))))))

-- Where the pieces lie, as the prefixes before them.
module _ (header n_len n e_len e rest : List ℕ) where
  abbrev upto_n_len : List ℕ
  upto_n_len = 0x30 ∷ (header ++ (0x02 ∷ []))

  abbrev upto_n : List ℕ
  upto_n = upto_n_len ++ n_len

  abbrev upto_e_len : List ℕ
  upto_e_len = upto_n ++ (n ++ (0x02 ∷ []))

  abbrev upto_e : List ℕ
  upto_e = upto_e_len ++ e_len

  at_n_len :
      slice_from (sequence header n_len n e_len e rest) (1 + length header + 1)
      ≡ some (n_len ++ (n ++ (0x02 ∷ (e_len ++ (e ++ rest)))))
  at_n_len =
      let shape : sequence header n_len n e_len e rest
          ≡ upto_n_len ++ (n_len ++ (n ++ (0x02 ∷ (e_len ++ (e ++ rest))))) =
        simp append_assoc in
      rw shape (
        slice_from-append upto_n_len _ (1 + length header + 1)
          (omega (arith, length-append header (0x02 ∷ []))))

  at_n :
      slice_from (sequence header n_len n e_len e rest) (1 + length header + 1 + length n_len)
      ≡ some (n ++ (0x02 ∷ (e_len ++ (e ++ rest))))
  at_n =
      let shape : sequence header n_len n e_len e rest
          ≡ upto_n ++ (n ++ (0x02 ∷ (e_len ++ (e ++ rest)))) =
        simp append_assoc in
      rw shape (
        slice_from-append upto_n _ (1 + length header + 1 + length n_len)
          (omega (arith, length-append header (0x02 ∷ []), length-append upto_n_len n_len)))

  at_e_len :
      slice_from
        (sequence header n_len n e_len e rest)
        (1 + length header + 1 + length n_len + length n + 1)
      ≡ some (e_len ++ (e ++ rest))
  at_e_len =
      let shape : sequence header n_len n e_len e rest ≡ upto_e_len ++ (e_len ++ (e ++ rest)) =
        simp append_assoc in
      rw shape (
        slice_from-append upto_e_len _ (1 + length header + 1 + length n_len + length n + 1) (
          omega (
            arith,
            length-append header (0x02 ∷ []),
            length-append upto_n_len n_len,
            length-append upto_n (n ++ (0x02 ∷ [])),
            length-append n (0x02 ∷ []),
          )))

  at_e :
      slice_from
        (sequence header n_len n e_len e rest)
        (1 + length header + 1 + length n_len + length n + 1 + length e_len)
      ≡ some (e ++ rest)
  at_e =
      let shape : sequence header n_len n e_len e rest ≡ upto_e ++ (e ++ rest) =
        simp append_assoc in
      rw shape (
        slice_from-append upto_e _
          (1 + length header + 1 + length n_len + length n + 1 + length e_len)
          (omega (
            arith,
            length-append header (0x02 ∷ []),
            length-append upto_n_len n_len,
            length-append upto_n (n ++ (0x02 ∷ [])),
            length-append n (0x02 ∷ []),
            length-append upto_e_len e_len,
          )))

-- Whatever total length the header states, the bytes of the two integers of a sequence whose lengths
-- are DER lengths are found, the first without the zero byte that keeps it positive.
pub parse_rsa_integers-sequence :
    (total : ℕ) (header n_len n e_len e rest : List ℕ)
    → IsLength total header
    → IsLength (length n) n_len
    → IsLength (length e) e_len
    → parse_rsa_integers (sequence header n_len n e_len e rest) ≡ some (without_sign n, e)
unfolding parse_rsa_integers
parse_rsa_integers-sequence total header n_len n e_len e rest h hn he = rw (
  der_len_size-append total (0x02 ∷ (n_len ++ (n ++ (0x02 ∷ (e_len ++ (e ++ rest)))))) h,
  at_n_len header n_len n e_len e rest,
  read_der_len-append (length n) (n ++ (0x02 ∷ (e_len ++ (e ++ rest)))) hn,
  der_len_size-append (length n) (n ++ (0x02 ∷ (e_len ++ (e ++ rest)))) hn,
  at_n header n_len n e_len e rest,
  slice_to-append n (0x02 ∷ (e_len ++ (e ++ rest))),
  at_e_len header n_len n e_len e rest,
  read_der_len-append (length e) (e ++ rest) he,
  der_len_size-append (length e) (e ++ rest) he,
  at_e header n_len n e_len e rest,
  slice_to-append e rest,
)
