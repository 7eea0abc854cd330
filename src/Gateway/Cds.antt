-- ===== src/Gateway/Cds.antt =====
-- The cluster configuration that is generated, `generate_cds_yaml`, as the list of the clusters in it.
use Prim.Native.Char.{code}
use Prim.Native.String
use Prim.Native.String.{String}
use text.Mathlib.TextLemmas.{nil-append, cons-append}
use picoshift.Prelude.{
  ℕ, ◌≡◌, refl, ap, sym, ◌∙◌, inl, inr, Bool, true, false, ◌||◌, List, [], ◌∷◌, In, here, there,
  All, All-append, All-split, any, map, eqb, ◌==◌, show, eq_iff, arith, Bool-cases,
}
use picoshift.Prelude.Text.Replace.{format}
use picoshift.Gateway.{
  HttpRouteBackend, HttpRouteRule, cluster_name, cluster_entry, add_backends, add_rules,
  generate_cds_yaml,
}
use picoshift.Gateway.Clusters.{IsDistinct, has, names, all_backends, add_rules-names_once}

-- A cluster: the port of a Service, and whether it is spoken to by TLS.
pub record Cluster : Type 0 where
  pub name : String
  pub tls : Bool
  pub service : String
  pub namespace : String
  pub port : ℕ

abbrev tls_lines : Bool → String
tls_lines false = ""
tls_lines true =
    "  transport_socket:\n    name: envoy.transport_sockets.tls\n    typed_config:\n      \"@type\": type.googleapis.com/envoy.extensions.transport_sockets.tls.v3.UpstreamTlsContext\n      common_tls_context:\n        validation_context:\n          trust_chain_verification: ACCEPT_UNTRUSTED\n"

abbrev pub print_cluster : Cluster → String
print_cluster c = format (
    "- \"@type\": type.googleapis.com/envoy.config.cluster.v3.Cluster\n  name: "
    ∷ c.name
    ∷ "\n  type: STRICT_DNS\n  lb_policy: ROUND_ROBIN\n"
    ∷ tls_lines c.tls
    ∷ "  load_assignment:\n    cluster_name: "
    ∷ c.name
    ∷ "\n    endpoints:\n    - lb_endpoints:\n      - endpoint:\n          address:\n            socket_address:\n              address: "
    ∷ c.service
    ∷ "."
    ∷ c.namespace
    ∷ ".svc.cluster.local\n              port_value: "
    ∷ show c.port
    ∷ "\n"
    ∷ [])

abbrev pub print_cds : List Cluster → String
print_cds cs = format ("resources:\n" ∷ map print_cluster cs)

abbrev pub auth_proxy : Cluster
auth_proxy = record {
  name = "kube-auth-proxy";
  tls = true;
  service = "kube-auth-proxy";
  namespace = "openshift-ingress";
  port = 8443;
}

abbrev pub name_of : HttpRouteBackend → String
name_of b = format (b.service_name ∷ "_" ∷ b.namespace ∷ "_" ∷ show b.port ∷ [])

-- The cluster that a backend asks for.
abbrev pub cluster_of : List ℕ → HttpRouteBackend → Cluster
cluster_of tls_ports b = record {
  name = name_of b;
  tls = any (λ p. eqb p b.port) tls_ports;
  service = b.service_name;
  namespace = b.namespace;
  port = b.port;
}

abbrev pub cluster_names : List Cluster → List String
cluster_names cs = map (λ c. c.name) cs

-- The cluster is that of a backend of the rules.
abbrev pub IsOf : List ℕ → List HttpRouteRule → Cluster → Type 0
IsOf tls_ports rules c =
    (b : HttpRouteBackend) × In b (all_backends rules) × (c ≡ cluster_of tls_ports b)

cluster_entry_lem :
    (tls_ports : List ℕ) (b : HttpRouteBackend)
    → cluster_entry tls_ports b ≡ print_cluster (cluster_of tls_ports b)
unfolding cluster_entry cluster_name
cluster_entry_lem tls_ports b = elim (Bool-cases (any (λ p. eqb p b.port) tls_ports)) [
  | inl e ↦ rw (cluster_entry, e) refl
  | inr e ↦ rw (cluster_entry, e) refl
]

entries :
    (tls_ports : List ℕ) (bs : List HttpRouteBackend)
    → map (cluster_entry tls_ports) bs ≡ map print_cluster (map (cluster_of tls_ports) bs)
entries tls_ports [] = refl
entries tls_ports (b ∷ bs) =
    rw (cluster_entry_lem tls_ports b)
      (ap (λ r. print_cluster (cluster_of tls_ports b) ∷ r) (entries tls_ports bs))

printed :
    (rules : List HttpRouteRule) (tls_ports : List ℕ)
    → generate_cds_yaml rules tls_ports
      ≡ print_cds (auth_proxy ∷ map (cluster_of tls_ports) (add_rules [] rules))
unfolding generate_cds_yaml show
printed rules tls_ports = rw (generate_cds_yaml, entries tls_ports (add_rules [] rules)) refl

same_names :
    (tls_ports : List ℕ) (bs : List HttpRouteBackend)
    → cluster_names (map (cluster_of tls_ports) bs) ≡ names bs
unfolding cluster_name
same_names tls_ports [] = refl
same_names tls_ports (b ∷ bs) = ap (λ r. name_of b ∷ r) (same_names tls_ports bs)

-- The names of the backends have an underscore, which the name of the proxy has not.
underscore : String → Bool
underscore String.[] = false
underscore (String.◌∷◌ c s) = eqb (code c) 95 || underscore s

underscore-append : (s t : String) → underscore (String.◌++◌ s t) ≡ (underscore s || underscore t)
unfolding underscore
underscore-append String.[] t = rw nil-append refl
underscore-append (String.◌∷◌ c s) t = rw cons-append (ground (arith, underscore-append s t))

other_name : (b : HttpRouteBackend) → (name_of b == "kube-auth-proxy") ≡ false
unfolding underscore
other_name b =
    let later = format (b.namespace ∷ "_" ∷ show b.port ∷ []) in
    let under : underscore (name_of b) ≡ true =
      underscore-append b.service_name (String.◌++◌ "_" later)
      ∙ ground (arith, underscore-append "_" later) in
    elim (Bool-cases (name_of b == "kube-auth-proxy")) [
      | inr other ↦ other
      | inl same ↦
          let e : name_of b ≡ "kube-auth-proxy" = (eq_iff (name_of b) "kube-auth-proxy").0 same in
          let bad : true ≡ false = sym under ∙ ap underscore e in absurd cc
    ]

not_auth : (bs : List HttpRouteBackend) → has "kube-auth-proxy" (names bs) ≡ false
unfolding cluster_name
not_auth [] = refl
not_auth (b ∷ bs) = ground (arith, other_name b, not_auth bs)

module _ (P : HttpRouteBackend → Type 0) where
  All-add_backends :
      (seen : List String) (bs : List HttpRouteBackend) → All P bs → All P (add_backends seen bs).0
  unfolding add_backends
  All-add_backends seen [] h = tt
  All-add_backends seen (b ∷ bs) (p, h) = elim (Bool-cases (any (λ n. n == cluster_name b) seen)) [
    | inl old ↦ rw (add_backends, old) (All-add_backends seen bs h)
    | inr new ↦ rw (add_backends, new) (p, All-add_backends (cluster_name b ∷ seen) bs h)
  ]

  All-add_rules :
      (seen : List String) (rules : List HttpRouteRule)
      → All P (all_backends rules)
      → All P (add_rules seen rules)
  unfolding add_rules
  All-add_rules seen [] h = tt
  All-add_rules seen (rule ∷ rules) h =
      let (own, rest) = All-split P rule.backends (all_backends rules) h in
      All-append P _ _ (All-add_backends seen rule.backends own)
        (All-add_rules (add_backends seen rule.backends).1 rules rest)

All-members :
    (P : HttpRouteBackend → Type 0) (xs : List HttpRouteBackend)
    → ((b : HttpRouteBackend) → In b xs → P b)
    → All P xs
All-members P [] f = tt
All-members P (x ∷ xs) f = (f x here, All-members P xs (λ b i. f b (there i)))

All-cluster_of :
    (tls_ports : List ℕ) (rules : List HttpRouteRule) (bs : List HttpRouteBackend)
    → All (λ b. In b (all_backends rules)) bs
    → All (IsOf tls_ports rules) (map (cluster_of tls_ports) bs)
All-cluster_of tls_ports rules [] h = tt
All-cluster_of tls_ports rules (b ∷ bs) (i, h) = ((b, i, refl), All-cluster_of tls_ports rules bs h)

wanted_names :
    (rules : List HttpRouteRule) → names (all_backends rules) ≡ map name_of (all_backends rules)
unfolding cluster_name
wanted_names rules = refl

-- The generated configuration is the text of a list of clusters: that of the authentication proxy,
-- and then clusters of backends of the rules, with the address of the backend's Service and TLS where
-- its port is one of the TLS ports. No name is there twice, and each backend of the rules has a
-- cluster of its name.
pub generate_cds_yaml-IsDistinct :
    (rules : List HttpRouteRule) (tls_ports : List ℕ)
    → (cs : List Cluster) × (generate_cds_yaml rules tls_ports ≡ print_cds (auth_proxy ∷ cs))
      × All (IsOf tls_ports rules) cs
      × IsDistinct (cluster_names (auth_proxy ∷ cs))
      × ((n : String) → has n (cluster_names cs) ≡ has n (map name_of (all_backends rules)))
generate_cds_yaml-IsDistinct rules tls_ports =
    let bs = add_rules [] rules in
    let (distinct, same) = add_rules-names_once rules in
    (
      map (cluster_of tls_ports) bs,
      printed rules tls_ports,
      All-cluster_of tls_ports rules bs (
          All-add_rules (λ b. In b (all_backends rules)) [] rules
            (All-members (λ b. In b (all_backends rules)) (all_backends rules) (λ b i. i))),
      rw (same_names tls_ports bs) (not_auth bs, distinct),
      (λ n. rw (same_names tls_ports bs, ← (wanted_names rules)) (same n)),
    )
