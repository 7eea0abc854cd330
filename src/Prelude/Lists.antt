-- ===== src/Prelude/Lists.antt =====
-- Lists measured by native numbers, iterator adaptors as the Rust standard library has them, and
-- predicates on all or some of a list.
use Prim.Native.Nat.{ℕ, suc, zero, ◌+◌, ◌≤◌}
use mathlib.Core.Path.{◌≡◌}
use mathlib.Core.Logic.{inl, inr}
use mathlib.Core.Bool.{Bool, true, false, ◌||◌}
use mathlib.Core.Option.{Option, none, some}
use mathlib.Core.List.{List, [], ◌∷◌, ◌++◌}
use native.Mathlib.Omega.{arith}
use picoshift.Prelude.Tests.{if◌then◌else◌, Bool-cases}

module _ {ℓ} {A : Type ℓ} where
  abbrev pub length : List A → ℕ
  length [] = 0
  length (x ∷ xs) = suc (length xs)

  -- `slice::is_empty`
  abbrev pub is_nil : List A → Bool
  is_nil [] = true
  is_nil (x ∷ xs) = false

  -- `slice::first`, and `Iterator::next` of a list that is walked once
  abbrev pub first : List A → Option A
  first [] = none
  first (x ∷ xs) = some x

  abbrev pub get_elem? : List A → ℕ → Option A
  get_elem? [] i = none
  get_elem? (x ∷ xs) zero = some x
  get_elem? (x ∷ xs) (suc i) = get_elem? xs i

  abbrev pub drop : ℕ → List A → List A
  drop zero xs = xs
  drop (suc n) [] = []
  drop (suc n) (x ∷ xs) = drop n xs

  -- `Iterator::any`
  abbrev pub any : (A → Bool) → List A → Bool
  any p [] = false
  any p (x ∷ xs) = p x || any p xs

  -- `Iterator::find`
  abbrev pub find : (A → Bool) → List A → Option A
  find p [] = none
  find p (x ∷ xs) = if p x then some x else find p xs

  -- `Iterator::filter`, `retain`
  abbrev pub filter : (A → Bool) → List A → List A
  filter p [] = []
  filter p (x ∷ xs) = let rest = filter p xs in if p x then x ∷ rest else rest

  pub length-append : (xs ys : List A) → length (xs ++ ys) ≡ length xs + length ys
  length-append [] ys = omega arith
  length-append (x ∷ xs) ys = omega (arith, length-append xs ys)

  -- Where the element stands in the list.
  pub data In (a : A) : List A → Type ℓ where
    here : {xs : List A} → In a (a ∷ xs)
    there : {x : A} {xs : List A} → In a xs → In a (x ∷ xs)

abbrev pub consed {κ} : {B : Type κ} → Option B → List B → List B
consed none ys = ys
consed (some y) ys = y ∷ ys

module _ {ℓ κ} {A : Type ℓ} {B : Type κ} where
  -- `Iterator::filter_map`
  abbrev pub filter_map : (A → Option B) → List A → List B
  filter_map f [] = []
  filter_map f (x ∷ xs) = consed (f x) (filter_map f xs)

  pub length-filter_map : (f : A → Option B) (xs : List A) → length (filter_map f xs) ≤ length xs
  length-filter_map f [] = omega arith
  length-filter_map f (x ∷ xs) = ground (arith, length-filter_map f xs)

module _ {ℓ κ} {A : Type ℓ} where
  abbrev pub All : (A → Type κ) → List A → Type κ
  All P [] = Unit
  All P (x ∷ xs) = P x × All P xs

  pub All-append : (P : A → Type κ) (xs ys : List A) → All P xs → All P ys → All P (xs ++ ys)
  All-append P [] ys hx hy = hy
  All-append P (x ∷ xs) ys hx hy = (hx.0, All-append P xs ys hx.1 hy)

  pub All-split : (P : A → Type κ) (xs ys : List A) → All P (xs ++ ys) → All P xs × All P ys
  All-split P [] ys h = (tt, h)
  All-split P (x ∷ xs) ys (p, h) = let (hx, hy) = All-split P xs ys h in ((p, hx), hy)

  pub All-In : (P : A → Type κ) {a : A} (xs : List A) → All P xs → In a xs → P a
  All-In P [] h i = elim i [ ]
  All-In P (x ∷ xs) h here = h.0
  All-In P (x ∷ xs) h (there i) = All-In P xs h.1 i

module _ {ℓ} {A : Type ℓ} where
  pub any-witness :
      (p : A → Bool) (xs : List A) → any p xs ≡ true → (a : A) × In a xs × (p a ≡ true)
  any-witness p [] h = cc
  any-witness p (x ∷ xs) h = elim (Bool-cases (p x)) [
    | inl yes_x ↦ (x, here, yes_x)
    | inr no_x ↦ let (a, i, e) = any-witness p xs (ground arith) in (a, there i, e)
  ]

  pub any-In : (p : A → Bool) {a : A} (xs : List A) → In a xs → p a ≡ true → any p xs ≡ true
  any-In p [] i e = elim i [ ]
  any-In p (x ∷ xs) here e = ground arith
  any-In p (x ∷ xs) (there i) e = ground (arith, any-In p xs i e)

  pub any-none : (p : A → Bool) (xs : List A) → any p xs ≡ false → All (λ a. p a ≡ false) xs
  any-none p [] h = tt
  any-none p (x ∷ xs) h = (ground arith, any-none p xs (ground arith))

  pub find-some : (p : A → Bool) (xs : List A) {a : A} → find p xs ≡ some a → In a xs × (p a ≡ true)
  find-some p [] h = cc
  find-some p (x ∷ xs) {a} h = elim (Bool-cases (p x)) [
    | inl yes_x ↦ let e : x ≡ a = ground arith in rw (← e) (here, yes_x)
    | inr no_x ↦ let (i, e) = find-some p xs {a = a} (ground arith) in (there i, e)
  ]

  pub find-none : (p : A → Bool) (xs : List A) → find p xs ≡ none → All (λ a. p a ≡ false) xs
  find-none p [] h = tt
  find-none p (x ∷ xs) h = (ground arith, find-none p xs (ground arith))
