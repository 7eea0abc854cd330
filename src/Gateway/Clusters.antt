-- ===== src/Gateway/Clusters.antt =====
-- The clusters that the configuration gets: one for each name of a backend.
use picoshift.Prelude.{
  String, ◌≡◌, refl, ap, ◌∙◌, inl, inr, Bool, true, false, ◌||◌, List, [], ◌∷◌, ◌++◌, map, any,
  ◌==◌, eq_iff, eq_refl, Bool-cases, arith,
}
use picoshift.Gateway.{HttpRouteBackend, HttpRouteRule, cluster_name, add_backends, add_rules}

abbrev pub has : String → List String → Bool
has n names = any (λ m. m == n) names

abbrev pub names : List HttpRouteBackend → List String
names bs = map cluster_name bs

abbrev pub IsDistinct : List String → Type 0
IsDistinct [] = Unit
IsDistinct (n ∷ ns) = (has n ns ≡ false) × IsDistinct ns

-- The backends of all rules.
abbrev pub all_backends : List HttpRouteRule → List HttpRouteBackend
all_backends [] = []
all_backends (rule ∷ rules) = rule.backends ++ all_backends rules

has-append : (n : String) (xs ys : List String) → has n (xs ++ ys) ≡ (has n xs || has n ys)
has-append n [] ys = refl
has-append n (x ∷ xs) ys = ground (arith, has-append n xs ys)

names-append : (xs ys : List HttpRouteBackend) → names (xs ++ ys) ≡ names xs ++ names ys
names-append [] ys = refl
names-append (x ∷ xs) ys = ap (λ r. cluster_name x ∷ r) (names-append xs ys)

add_backends-seen :
    (n : String) (seen : List String) (bs : List HttpRouteBackend)
    → has n (add_backends seen bs).1 ≡ (has n seen || has n (names bs))
unfolding add_backends
add_backends-seen n seen [] = ground arith
add_backends-seen n seen (b ∷ bs) = ground (
  arith,
  add_backends-seen n seen bs,
  add_backends-seen n (cluster_name b ∷ seen) bs,
  eq_iff (cluster_name b) n,
)

add_backends-new :
    (n : String) (seen : List String) (bs : List HttpRouteBackend)
    → has n seen ≡ true
    → has n (names (add_backends seen bs).0) ≡ false
unfolding add_backends
add_backends-new n seen [] h = refl
add_backends-new n seen (b ∷ bs) h = ground (
  arith,
  add_backends-new n seen bs h,
  add_backends-new n (cluster_name b ∷ seen) bs,
  eq_iff (cluster_name b) n,
)

add_backends-names :
    (n : String) (seen : List String) (bs : List HttpRouteBackend)
    → (has n seen || has n (names (add_backends seen bs).0)) ≡ (has n seen || has n (names bs))
unfolding add_backends
add_backends-names n seen [] = refl
add_backends-names n seen (b ∷ bs) = ground (
  arith,
  add_backends-names n seen bs,
  add_backends-names n (cluster_name b ∷ seen) bs,
  eq_iff (cluster_name b) n,
)

kept_seen :
    (n : String) (seen : List String) (bs : List HttpRouteBackend)
    → has n (names (add_backends seen bs).0) ≡ true
    → has n (add_backends seen bs).1 ≡ true
kept_seen n seen bs h = ground (arith, add_backends-seen n seen bs, add_backends-names n seen bs)

add_backends-IsDistinct :
    (seen : List String) (bs : List HttpRouteBackend) → IsDistinct (names (add_backends seen bs).0)
unfolding add_backends
add_backends-IsDistinct seen [] = tt
add_backends-IsDistinct seen (b ∷ bs) = elim (Bool-cases (has (cluster_name b) seen)) [
  | inl old ↦ rw (add_backends, old) (add_backends-IsDistinct seen bs)
  | inr new ↦
      let again : has (cluster_name b) (cluster_name b ∷ seen) ≡ true =
        ground (arith, eq_refl (cluster_name b)) in
      rw (add_backends, new)
        (
          add_backends-new (cluster_name b) (cluster_name b ∷ seen) bs again,
          add_backends-IsDistinct (cluster_name b ∷ seen) bs,
        )
]

add_rules-new :
    (n : String) (seen : List String) (rules : List HttpRouteRule)
    → has n seen ≡ true
    → has n (names (add_rules seen rules)) ≡ false
unfolding add_rules
add_rules-new n seen [] h = refl
add_rules-new n seen (rule ∷ rules) h =
    let after : has n (add_backends seen rule.backends).1 ≡ true =
      ground (arith, add_backends-seen n seen rule.backends) in
    ap (has n) (
      names-append (add_backends seen rule.backends).0
        (add_rules (add_backends seen rule.backends).1 rules))
    ∙ has-append n (names (add_backends seen rule.backends).0)
        (names (add_rules (add_backends seen rule.backends).1 rules))
    ∙ ground (
      arith,
      add_backends-new n seen rule.backends h,
      add_rules-new n (add_backends seen rule.backends).1 rules after,
    )

add_rules-names :
    (n : String) (seen : List String) (rules : List HttpRouteRule)
    → (has n seen || has n (names (add_rules seen rules)))
      ≡ (has n seen || has n (names (all_backends rules)))
unfolding add_rules
add_rules-names n seen [] = refl
add_rules-names n seen (rule ∷ rules) =
    let kept = (add_backends seen rule.backends).0 in
    let after = (add_backends seen rule.backends).1 in
    rw
      (
        names-append kept (add_rules after rules),
        has-append n (names kept) (names (add_rules after rules)),
        names-append rule.backends (all_backends rules),
        has-append n (names rule.backends) (names (all_backends rules)),
      )
      (ground (
        arith,
        add_backends-seen n seen rule.backends,
        add_backends-names n seen rule.backends,
        add_rules-names n after rules,
      ))

IsDistinct-append :
    (xs ys : List String)
    → IsDistinct xs
    → IsDistinct ys
    → ((n : String) → has n xs ≡ true → has n ys ≡ false)
    → IsDistinct (xs ++ ys)
IsDistinct-append [] ys h k apart = k
IsDistinct-append (x ∷ xs) ys (a, h) k apart =
    let other = apart x (ground (arith, eq_refl x)) in
    (
      has-append x xs ys ∙ ground (arith, a, other),
      IsDistinct-append xs ys h k (λ n e. apart n (ground (arith, e))),
    )

add_rules-IsDistinct :
    (seen : List String) (rules : List HttpRouteRule) → IsDistinct (names (add_rules seen rules))
unfolding add_rules
add_rules-IsDistinct seen [] = tt
add_rules-IsDistinct seen (rule ∷ rules) =
    let kept = (add_backends seen rule.backends).0 in
    let after = (add_backends seen rule.backends).1 in
    rw (names-append kept (add_rules after rules)) (
      IsDistinct-append (names kept) (names (add_rules after rules))
        (add_backends-IsDistinct seen rule.backends) (add_rules-IsDistinct after rules)
        (λ n e. add_rules-new n after rules (kept_seen n seen rule.backends e)))

-- The backends that get a cluster have one for each name of a backend of the rules: no name twice,
-- and just the names that the backends have.
pub add_rules-names_once :
    (rules : List HttpRouteRule)
    → IsDistinct (names (add_rules [] rules))
      × ((n : String) → has n (names (add_rules [] rules)) ≡ has n (names (all_backends rules)))
add_rules-names_once rules = (add_rules-IsDistinct [] rules, λ n. add_rules-names n [] rules)
