-- ===== src/Prelude/Options.antt =====
-- The methods of `Option` that the program chains, and `do` over `Option` for the `?` operator.
use mathlib.Core.Bool.{Bool, true, false}
use mathlib.Core.Path.{◌≡◌, refl}
use mathlib.Core.Option.{Option, none, some}

module _ {ℓ κ} {A : Type ℓ} {B : Type κ} where
  infixl 5 ◌>>=◌
  abbrev pub ◌>>=◌ : Option A → (A → Option B) → Option B
  none >>= f = none
  some a >>= f = f a

  -- `Option::and_then`
  abbrev pub and_then : Option A → (A → Option B) → Option B
  and_then o f = o >>= f

  pub >>=-eq-some :
      (o : Option A) (f : A → Option B) {b : B}
      → (o >>= f) ≡ some b
      → (a : A) × (o ≡ some a) × (f a ≡ some b)
  >>=-eq-some none f h = cc
  >>=-eq-some (some a) f h = (a, refl, h)

module _ {ℓ} {A : Type ℓ} where
  -- `Option::unwrap_or`
  abbrev pub unwrap_or : Option A → A → A
  unwrap_or none d = d
  unwrap_or (some a) d = a

  -- `Option::or_else`
  abbrev pub or_else : Option A → Option A → Option A
  or_else none o = o
  or_else (some a) o = some a

  abbrev pub is_some : Option A → Bool
  is_some none = false
  is_some (some a) = true

  abbrev pub is_none : Option A → Bool
  is_none none = true
  is_none (some a) = false

  -- `Option::filter`
  abbrev pub keep_if : (A → Bool) → Option A → Option A
  keep_if p none = none
  keep_if p (some a) = elim (p a) [ true ↦ some a | false ↦ none ]
