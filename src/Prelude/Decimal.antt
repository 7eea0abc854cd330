-- ===== src/Prelude/Decimal.antt =====
-- `Display` of an unsigned integer: its decimal digits, and the number that they stand for.
use Prim.Native.Nat.{ℕ, zero, suc, ◌+◌, ◌-◌, ◌*◌, ◌/◌, ◌%◌, ◌<◌}
use Prim.Native.Char.{Char, code}
use Prim.Native.String.{String}
use mathlib.Core.Path.{◌≡◌, refl, ap, sym, ◌∙◌}
use mathlib.Core.Logic.{inl, inr}
use native.Mathlib.Omega.{arith}
use picoshift.Prelude.Tests.{ltb, Bool-cases, if◌then◌else◌}

digit : ℕ → Char
digit zero = "0"
digit (suc zero) = "1"
digit (suc (suc zero)) = "2"
digit (suc (suc (suc zero))) = "3"
digit (suc (suc (suc (suc zero)))) = "4"
digit (suc (suc (suc (suc (suc zero))))) = "5"
digit (suc (suc (suc (suc (suc (suc zero)))))) = "6"
digit (suc (suc (suc (suc (suc (suc (suc zero))))))) = "7"
digit (suc (suc (suc (suc (suc (suc (suc (suc zero)))))))) = "8"
digit _ = "9"

-- The fuel bounds the digits; `suc n` is always enough.
show_from : ℕ → ℕ → String → String
show_from zero n acc = acc
show_from (suc f) n acc =
    let rest = show_from f (n / 10) (String.◌∷◌ (digit (n % 10)) acc) in
    if ltb n 10 then String.◌∷◌ (digit n) acc else rest

unfoldable pub show : ℕ → String
unfolding show_from digit
show n = show_from (suc n) n ""

abbrev value_from : ℕ → String → ℕ
value_from n String.[] = n
value_from n (String.◌∷◌ c s) = value_from (n * 10 + (code c - 48)) s

-- The number that a run of digits stands for.
abbrev pub value : String → ℕ
value s = value_from 0 s

code-digit : (n : ℕ) → n < 10 → code (digit n) - 48 ≡ n
unfolding digit
code-digit zero h = refl
code-digit (suc zero) h = refl
code-digit (suc (suc zero)) h = refl
code-digit (suc (suc (suc zero))) h = refl
code-digit (suc (suc (suc (suc zero)))) h = refl
code-digit (suc (suc (suc (suc (suc zero))))) h = refl
code-digit (suc (suc (suc (suc (suc (suc zero)))))) h = refl
code-digit (suc (suc (suc (suc (suc (suc (suc zero))))))) h = refl
code-digit (suc (suc (suc (suc (suc (suc (suc (suc zero)))))))) h = refl
code-digit (suc (suc (suc (suc (suc (suc (suc (suc (suc n))))))))) h = omega arith

value-show_from :
    (f n : ℕ) (acc : String) → n < f → value_from 0 (show_from f n acc) ≡ value_from n acc
unfolding show_from
value-show_from zero n acc h = elim h [ ]
value-show_from (suc f) n acc h = elim (Bool-cases (ltb n 10)) [
  | inl small ↦ rw small (ap (λ k. value_from k acc) (omega (arith, code-digit n (ground arith))))
  | inr large ↦ rw large (
      value-show_from f (n / 10) (String.◌∷◌ (digit (n % 10)) acc) (ground arith)
      ∙ ap (λ k. value_from k acc) (omega (arith, code-digit (n % 10) (omega arith))))
]

-- The digits that are printed stand for the number.
pub value-show : (n : ℕ) → value (show n) ≡ n
unfolding show
value-show n = value-show_from (suc n) n "" (omega arith)

-- Two numbers that print alike are one.
pub show-injective : (m n : ℕ) → show m ≡ show n → m ≡ n
show-injective m n e = sym (value-show m) ∙ ap value e ∙ value-show n
