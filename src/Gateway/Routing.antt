-- ===== src/Gateway/Routing.antt =====
-- Which route Envoy takes: the first of the configuration whose prefix the path has.
use package.text.Mathlib.Text.{starts_with}
use picoshift.Prelude.{
  ℕ, ◌≤◌, String, ◌≡◌, sym, ap, ◌∙◌, inl, inr, Bool, true, false, ◌&&◌, none, some, List, [], ◌∷◌,
  first, In, here, there, All, find, find-some, find-none, leb, arith, Bool-cases,
}
use picoshift.Prelude.Options.{is_some, unwrap_or}
use picoshift.Gateway.{HttpRouteRule, prefix_len, insert_rule, sorted_routes}

-- The rule has a backend, and the path its prefix.
abbrev pub matches : String → HttpRouteRule → Bool
matches path r = is_some (first r.backends) && starts_with path r.path_prefix

abbrev IsSorted : List HttpRouteRule → Type 0
IsSorted [] = Unit
IsSorted (r ∷ rs) = All (λ x. prefix_len x ≤ prefix_len r) rs × IsSorted rs

All-weaken :
    (m n : ℕ) (xs : List HttpRouteRule)
    → m ≤ n
    → All (λ x. prefix_len x ≤ m) xs
    → All (λ x. prefix_len x ≤ n) xs
All-weaken m n [] le h = tt
All-weaken m n (x ∷ xs) le (a, h) = (omega (arith, a), All-weaken m n xs le h)

All-insert_rule :
    (n : ℕ) (r : HttpRouteRule) (xs : List HttpRouteRule)
    → prefix_len r ≤ n
    → All (λ x. prefix_len x ≤ n) xs
    → All (λ x. prefix_len x ≤ n) (insert_rule r xs)
unfolding insert_rule
All-insert_rule n r [] a h = (a, tt)
All-insert_rule n r (x ∷ xs) a (b, h) = elim (Bool-cases (leb (prefix_len x) (prefix_len r))) [
  | inl e ↦ rw (insert_rule, e) (a, (b, h))
  | inr e ↦ rw (insert_rule, e) (b, All-insert_rule n r xs a h)
]

insert_rule-IsSorted :
    (r : HttpRouteRule) (xs : List HttpRouteRule) → IsSorted xs → IsSorted (insert_rule r xs)
unfolding insert_rule
insert_rule-IsSorted r [] h = (tt, tt)
insert_rule-IsSorted r (x ∷ xs) (a, h) = elim (Bool-cases (leb (prefix_len x) (prefix_len r))) [
  | inl e ↦
      let le : prefix_len x ≤ prefix_len r = ground (arith, e) in
      rw (insert_rule, e) ((le, All-weaken (prefix_len x) (prefix_len r) xs le a), (a, h))
  | inr e ↦
      let le : prefix_len r ≤ prefix_len x = ground (arith, e) in
      rw (insert_rule, e) (All-insert_rule (prefix_len x) r xs le a, insert_rule-IsSorted r xs h)
]

sorted_routes-IsSorted : (rs : List HttpRouteRule) → IsSorted (sorted_routes rs)
unfolding sorted_routes
sorted_routes-IsSorted [] = tt
sorted_routes-IsSorted (r ∷ rs) =
    insert_rule-IsSorted r (sorted_routes rs) (sorted_routes-IsSorted rs)

-- What holds of all rules of the sorted list holds of all that were given.
module _ (P : HttpRouteRule → Type 0) where
  All-insert_rule_inv :
      (r : HttpRouteRule) (xs : List HttpRouteRule) → All P (insert_rule r xs) → P r × All P xs
  unfolding insert_rule
  All-insert_rule_inv r [] h = h
  All-insert_rule_inv r (x ∷ xs) h = elim (Bool-cases (leb (prefix_len x) (prefix_len r))) [
    | inl e ↦ rw (insert_rule, e) at h
    | inr e ↦
        let (a, rest) = rw (insert_rule, e) at h in
        let (b, c) = All-insert_rule_inv r xs rest in (b, (a, c))
  ]

  All-sorted_routes : (rs : List HttpRouteRule) → All P (sorted_routes rs) → All P rs
  unfolding sorted_routes
  All-sorted_routes [] h = tt
  All-sorted_routes (r ∷ rs) h =
      let (a, rest) = All-insert_rule_inv r (sorted_routes rs) h in (a, All-sorted_routes rs rest)

later : (r x y : HttpRouteRule) (xs : List HttpRouteRule) → In y (r ∷ xs) → In y (r ∷ x ∷ xs)
later r x y xs here = here
later r x y xs (there i) = there (there i)

swap :
    (r x y : HttpRouteRule) (xs zs : List HttpRouteRule)
    → In y (x ∷ zs)
    → (In y zs → In y (r ∷ xs))
    → In y (r ∷ x ∷ xs)
swap r x y xs zs here f = there here
swap r x y xs zs (there i) f = later r x y xs (f i)

In-insert_rule :
    (r y : HttpRouteRule) (xs : List HttpRouteRule) → In y (insert_rule r xs) → In y (r ∷ xs)
unfolding insert_rule
In-insert_rule r y [] i = i
In-insert_rule r y (x ∷ xs) i = elim (Bool-cases (leb (prefix_len x) (prefix_len r))) [
  | inl e ↦ rw (insert_rule, e) at i
  | inr e ↦ swap r x y xs (insert_rule r xs) (rw (insert_rule, e) at i) (In-insert_rule r y xs)
]

deeper :
    (r y : HttpRouteRule) (rs : List HttpRouteRule) {zs : List HttpRouteRule}
    → In y (r ∷ zs)
    → (In y zs → In y rs)
    → In y (r ∷ rs)
deeper r y rs here f = here
deeper r y rs (there i) f = there (f i)

In-sorted_routes : (y : HttpRouteRule) (rs : List HttpRouteRule) → In y (sorted_routes rs) → In y rs
unfolding sorted_routes
In-sorted_routes y [] i = i
In-sorted_routes y (r ∷ rs) i =
    deeper r y rs (In-insert_rule r y (sorted_routes rs) i) (In-sorted_routes y rs)

All-const :
    (path : String) (n : ℕ) (xs : List HttpRouteRule)
    → All (λ x. prefix_len x ≤ n) xs
    → All (λ x. matches path x ≡ true → prefix_len x ≤ n) xs
All-const path n [] h = tt
All-const path n (x ∷ xs) (a, h) = ((λ m. a), All-const path n xs h)

first_IsLongest :
    (path : String) (xs : List HttpRouteRule) (r : HttpRouteRule)
    → IsSorted xs
    → find (matches path) xs ≡ some r
    → All (λ x. matches path x ≡ true → prefix_len x ≤ prefix_len r) xs
first_IsLongest path [] r h e = tt
first_IsLongest path (x ∷ xs) r (a, h) e = elim (Bool-cases (matches path x)) [
  | inl hit ↦
      let same : x ≡ r = ap (λ o. unwrap_or o x) (rw hit at e) in
      let same_len = ap prefix_len same in
      let le : prefix_len x ≤ prefix_len r = omega (arith, same_len) in
      (
        (λ m. le),
        All-const path (prefix_len r) xs (All-weaken (prefix_len x) (prefix_len r) xs le a),
      )
  | inr miss ↦ (
    (λ m. let bad : false ≡ true = sym miss ∙ m in absurd cc),
    first_IsLongest path xs r h (rw miss at e),
  )
]

-- Of the rules that have a backend and whose prefix the path has, the first in the order of the
-- configuration is one with the longest prefix; and where there is none, no rule given is one.
pub sorted_routes-find :
    (path : String) (rules : List HttpRouteRule)
    → ((r : HttpRouteRule)
        → find (matches path) (sorted_routes rules) ≡ some r
        → In r rules
          × (matches path r ≡ true)
          × All (λ x. matches path x ≡ true → prefix_len x ≤ prefix_len r) rules)
      × (find (matches path) (sorted_routes rules) ≡ none → All (λ x. matches path x ≡ false) rules)
sorted_routes-find path rules = (
  (λ r e.
      let (i, m) = find-some (matches path) (sorted_routes rules) e in
      (
        In-sorted_routes r rules i,
        m,
        All-sorted_routes (λ x. matches path x ≡ true → prefix_len x ≤ prefix_len r) rules
            (first_IsLongest path (sorted_routes rules) r (sorted_routes-IsSorted rules) e),
      )),
  (λ e.
      All-sorted_routes (λ x. matches path x ≡ false) rules
        (find-none (matches path) (sorted_routes rules) e)),
)
