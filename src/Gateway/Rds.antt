-- ===== src/Gateway/Rds.antt =====
-- The route configuration that is generated, `generate_rds_yaml`, as the list of the routes in it.
use Prim.Native.String
use Prim.Native.String.{String}
use text.Mathlib.Text.{starts_with}
use picoshift.Prelude.{
  ◌≤◌, ◌≡◌, refl, ap, inl, inr, Bool, true, false, Option, none, some, List, [], ◌∷◌, In, All,
  first, find, map, filter_map, show, arith, Bool-cases, Option-cases,
}
use text.Mathlib.TextLemmas.{cons-append}
use picoshift.Prelude.Options.{◌>>=◌}
use picoshift.Prelude.Text.Replace.{format}
use picoshift.Prelude.Text.Trim.{is_nil as is_empty}
use picoshift.Gateway.{
  HttpRouteBackend, HttpRouteRule, prefix_len, sorted_routes, route_entry, route_entries,
  cluster_name, generate_rds_yaml,
}
use picoshift.Gateway.Routing.{matches, sorted_routes-find}

-- A route of the configuration: paths with the prefix go to the cluster.
pub record Route : Type 0 where
  pub prefix : String
  pub cluster : String

abbrev pub print_route : Route → String
print_route r = format (
    "            - match:\n                prefix: \"" ∷ r.prefix
    ∷ "\"\n              route:\n                cluster: " ∷ r.cluster
    ∷ "\n                upgrade_configs:\n                - upgrade_type: websocket\n" ∷ [])

-- A configuration without routes answers every path itself.
abbrev pub print_routes : List Route → String
print_routes [] =
    "            - match:\n                prefix: \"/\"\n              direct_response:\n                status: 503\n                body:\n                  inline_string: \"no backends configured\"\n"
print_routes (r ∷ rs) = format (map print_route (r ∷ rs))

abbrev pub print_rds : String → List Route → String
print_rds hostname rs = format (
    "resources:\n- \"@type\": type.googleapis.com/envoy.config.route.v3.RouteConfiguration\n  name: gateway-routes\n  virtual_hosts:\n  - name: gateway\n    domains:\n    - \""
    ∷ hostname
    ∷ "\"\n    - \"*\"\n    routes:\n"
    ∷ print_routes rs
    ∷ [])

-- Envoy takes the first route whose prefix the path has.
abbrev pub covers : String → Route → Bool
covers path r = starts_with path r.prefix

abbrev name_of : HttpRouteBackend → String
name_of b = format (b.service_name ∷ "_" ∷ b.namespace ∷ "_" ∷ show b.port ∷ [])

-- The route is that of a rule to its first backend, and no rule with a backend has a longer prefix
-- of the path; without a route, no rule with a backend has a prefix of the path.
abbrev pub IsTaken : String → List HttpRouteRule → Option Route → Type 0
IsTaken path rules none = All (λ x. matches path x ≡ false) rules
IsTaken path rules (some r) =
    (rule : HttpRouteRule) × (b : HttpRouteBackend) × In rule rules
    × (first rule.backends ≡ some b)
    × (r.prefix ≡ rule.path_prefix)
    × (r.cluster ≡ name_of b)
    × (starts_with path r.prefix ≡ true)
    × All (λ x. matches path x ≡ true → prefix_len x ≤ prefix_len rule) rules

abbrev route_of : HttpRouteRule → Option Route
route_of rule =
    first rule.backends >>= λ b. some (record { prefix = rule.path_prefix; cluster = name_of b })

route_entry_lem :
    (xs : List HttpRouteRule) → filter_map route_entry xs ≡ map print_route (filter_map route_of xs)
unfolding route_entry cluster_name
route_entry_lem [] = refl
route_entry_lem (x ∷ xs) = elim (Option-cases (first x.backends)) [
  | inl e ↦ rw (route_entry, e) (route_entry_lem xs)
  | inr (b, e) ↦
      rw (route_entry, e)
        (ap (λ r. print_route (record { prefix = x.path_prefix; cluster = name_of b }) ∷ r)
          (route_entry_lem xs))
]

append_filled : (s t : String) → is_empty s ≡ false → is_empty (String.◌++◌ s t) ≡ false
append_filled String.[] t h = absurd cc
append_filled (String.◌∷◌ c s) t h = rw cons-append refl

print_route_filled : (r : Route) → is_empty (print_route r) ≡ false
print_route_filled r = append_filled _ _ refl

filled : (r : Route) (rs : List Route) → is_empty (format (map print_route (r ∷ rs))) ≡ false
filled r [] = print_route_filled r
filled r (x ∷ rs) = append_filled (print_route r) _ (print_route_filled r)

route_entries_lem :
    (rules : List HttpRouteRule)
    → route_entries rules ≡ print_routes (filter_map route_of (sorted_routes rules))
unfolding route_entries
route_entries_lem rules =
    by_routes (filter_map route_of (sorted_routes rules)) (route_entry_lem (sorted_routes rules))
  where
    by_routes :
        (rs : List Route)
        → filter_map route_entry (sorted_routes rules) ≡ map print_route rs
        → route_entries rules ≡ print_routes rs
    by_routes [] e = rw (route_entries, e) refl
    by_routes (r ∷ rs) e = rw (route_entries, e) (rw (filled r rs) refl)

find-route_of :
    (path : String) (xs : List HttpRouteRule)
    → find (covers path) (filter_map route_of xs) ≡ (find (matches path) xs >>= route_of)
find-route_of path [] = refl
find-route_of path (x ∷ xs) = elim (Option-cases (first x.backends)) [
  | inl e ↦ rw e (find-route_of path xs)
  | inr (b, e) ↦ elim (Bool-cases (starts_with path x.path_prefix)) [
    | inl m ↦ rw (e, m) (rw e refl)
    | inr m ↦ rw (e, m) (find-route_of path xs)
  ]
]

find-IsTaken :
    (path : String) (rules : List HttpRouteRule) (o : Option HttpRouteRule)
    → find (matches path) (sorted_routes rules) ≡ o
    → IsTaken path rules (o >>= route_of)
find-IsTaken path rules none e = (sorted_routes-find path rules).1 e
find-IsTaken path rules (some rule) e =
    let (member, matched, longest) = (sorted_routes-find path rules).0 rule e in
    elim (Option-cases (first rule.backends)) [
      | inl f ↦ absurd (ground (arith, rw f at matched))
      | inr (b, f) ↦
          let starts : starts_with path rule.path_prefix ≡ true = rw f at matched in
          rw f (rule, b, member, f, refl, refl, starts, longest)
    ]

-- The generated configuration is the text of a list of routes. For every path, the first of them
-- whose prefix the path has belongs to a rule with a backend: it has the prefix of the rule, leads to
-- the cluster of its first backend, and no rule with a backend has a longer prefix of the path. Where
-- no route has a prefix of the path, no rule with a backend does.
pub generate_rds_yaml-IsTaken :
    (hostname : String) (rules : List HttpRouteRule)
    → (rs : List Route) × (generate_rds_yaml hostname rules ≡ print_rds hostname rs)
      × ((path : String) → IsTaken path rules (find (covers path) rs))
unfolding generate_rds_yaml
generate_rds_yaml-IsTaken hostname rules = (
  filter_map route_of (sorted_routes rules),
  rw (generate_rds_yaml, route_entries_lem rules) refl,
  (λ path.
      rw (find-route_of path (sorted_routes rules))
        (find-IsTaken path rules (find (matches path) (sorted_routes rules)) refl)),
)
