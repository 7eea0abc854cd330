-- ===== src/Gateway.antt =====
-- The gateway controller's routing, simulator/src/gateway.rs: the rules of HTTPRoutes, and the route
-- and cluster configuration that Envoy reads. A `u16` is below 2 ^ 16; a set is a list.
pub mod Routing
pub mod Rds
pub mod Clusters
pub mod Cds
pub mod Envoy
pub mod Workload
pub mod Reconcile
mod Tests
use picoshift.Prelude.{
  ℕ, ◌%◌, ◌^◌, String, Bool, true, false, not, ◌&&◌, Option, none, some, List, [], ◌∷◌, ◌++◌, map,
  first, any, filter_map, length, eqb, leb, ◌==◌, show, if◌then◌else◌,
}
use picoshift.Prelude.Options.{◌>>=◌, unwrap_or, is_some}
use picoshift.Prelude.Text.Bytes.{as_bytes}
use picoshift.Prelude.Text.Replace.{format}
use picoshift.Prelude.Text.Trim.{is_nil as is_empty}
use picoshift.Json.{get_in, str_in, array_in, is_text}
use picoshift.Json.Interface.{Serde}
use picoshift.Kube.{DynamicObject}

pub record HttpRouteBackend : Type 0 where
  pub service_name : String
  pub namespace : String
  pub port : ℕ

pub record HttpRouteRule : Type 0 where
  pub path_prefix : String
  pub backends : List HttpRouteBackend

module _ (J : Serde) where
  open J use {Value, get, as_u64, as_array}

  unfoldable pub extract_listener_hostname : DynamicObject J → Option String
  extract_listener_hostname gw = array_in J gw.value ("spec" ∷ "listeners" ∷ []) >>= first >>= λ l.
      str_in J l ("hostname" ∷ [])

  -- A backend reference; one without a name is left out.
  unfoldable pub read_backend : String → Value → Option HttpRouteBackend
  read_backend route_ns backend =
      let svc_name = unwrap_or (str_in J backend ("name" ∷ [])) "" in
      let read : HttpRouteBackend = record {
        service_name = svc_name;
        namespace = unwrap_or (str_in J backend ("namespace" ∷ [])) route_ns;
        port = unwrap_or (get backend "port" >>= as_u64) 80 % 2 ^ 16;
      } in
      if not (is_empty svc_name) then some read else none

  unfoldable pub read_rule : String → Value → HttpRouteRule
  read_rule route_ns rule = record {
    path_prefix =
        unwrap_or
          (array_in J rule ("matches" ∷ []) >>= first >>= λ m. str_in J m ("path" ∷ "value" ∷ []))
          "/";
    backends =
        filter_map (read_backend route_ns) (unwrap_or (array_in J rule ("backendRefs" ∷ [])) []);
  }

  unfoldable pub extract_httproute_rules : DynamicObject J → List HttpRouteRule
  extract_httproute_rules route =
      map (read_rule (unwrap_or route.namespace ""))
        (unwrap_or (array_in J route.value ("spec" ∷ "rules" ∷ [])) [])

  -- A setting adds its port where it has a TLS mode.
  unfoldable pub tls_port : Value → Option ℕ
  tls_port setting =
      let number =
        get_in J setting ("port" ∷ "number" ∷ []) >>= as_u64 >>= λ n. some (n % 2 ^ 16) in
      if is_some (str_in J setting ("tls" ∷ "mode" ∷ [])) then number else none

  unfoldable pub extract_tls_ports : DynamicObject J → List ℕ
  extract_tls_ports dr =
      filter_map tls_port
        (unwrap_or (array_in J dr.value ("spec" ∷ "trafficPolicy" ∷ "portLevelSettings" ∷ [])) [])

  unfoldable pub references_our_gateway : DynamicObject J → Bool
  references_our_gateway route =
      any (λ pr. is_text J (str_in J pr ("name" ∷ [])) "data-science-gateway")
        (unwrap_or (array_in J route.value ("spec" ∷ "parentRefs" ∷ [])) [])

  -- The rules of the routes that name the gateway, in the order of the list.
  unfoldable pub all_rules : List (DynamicObject J) → List HttpRouteRule
  all_rules [] = []
  all_rules (route ∷ routes) =
      let rest = all_rules routes in
      if references_our_gateway route then extract_httproute_rules route ++ rest else rest

-- `str::len`
abbrev pub prefix_len : HttpRouteRule → ℕ
prefix_len rule = length (as_bytes rule.path_prefix)

-- `sort_by` of the lengths, the longest first: a stable sort.
unfoldable pub insert_rule : HttpRouteRule → List HttpRouteRule → List HttpRouteRule
insert_rule r [] = r ∷ []
insert_rule r (x ∷ xs) =
    let rest = insert_rule r xs in
    if leb (prefix_len x) (prefix_len r) then r ∷ x ∷ xs else x ∷ rest

unfoldable pub sorted_routes : List HttpRouteRule → List HttpRouteRule
sorted_routes [] = []
sorted_routes (r ∷ rs) = insert_rule r (sorted_routes rs)

unfoldable pub cluster_name : HttpRouteBackend → String
cluster_name b = format (b.service_name ∷ "_" ∷ b.namespace ∷ "_" ∷ show b.port ∷ [])

-- The route of a rule that has a backend.
unfoldable pub route_entry : HttpRouteRule → Option String
route_entry rule = first rule.backends >>= λ backend. some (
    format (
      "            - match:\n                prefix: \""
      ∷ rule.path_prefix
      ∷ "\"\n              route:\n                cluster: "
      ∷ cluster_name backend
      ∷ "\n                upgrade_configs:\n                - upgrade_type: websocket\n"
      ∷ []))

abbrev catch_all : String
catch_all =
    "            - match:\n                prefix: \"/\"\n              direct_response:\n                status: 503\n                body:\n                  inline_string: \"no backends configured\"\n"

unfoldable pub route_entries : List HttpRouteRule → String
route_entries routes =
    let entries = format (filter_map route_entry (sorted_routes routes)) in
    if is_empty entries then catch_all else entries

unfoldable pub generate_rds_yaml : String → List HttpRouteRule → String
generate_rds_yaml hostname routes =
    let entries = route_entries routes in
    format (
      "resources:\n- \"@type\": type.googleapis.com/envoy.config.route.v3.RouteConfiguration\n  name: gateway-routes\n  virtual_hosts:\n  - name: gateway\n    domains:\n    - \""
      ∷ hostname ∷ "\"\n    - \"*\"\n    routes:\n" ∷ entries ∷ [])

abbrev auth_cluster : String
auth_cluster =
    "- \"@type\": type.googleapis.com/envoy.config.cluster.v3.Cluster\n  name: kube-auth-proxy\n  type: STRICT_DNS\n  lb_policy: ROUND_ROBIN\n  transport_socket:\n    name: envoy.transport_sockets.tls\n    typed_config:\n      \"@type\": type.googleapis.com/envoy.extensions.transport_sockets.tls.v3.UpstreamTlsContext\n      common_tls_context:\n        validation_context:\n          trust_chain_verification: ACCEPT_UNTRUSTED\n  load_assignment:\n    cluster_name: kube-auth-proxy\n    endpoints:\n    - lb_endpoints:\n      - endpoint:\n          address:\n            socket_address:\n              address: kube-auth-proxy.openshift-ingress.svc.cluster.local\n              port_value: 8443\n"

abbrev tls_socket : String
tls_socket =
    "  transport_socket:\n    name: envoy.transport_sockets.tls\n    typed_config:\n      \"@type\": type.googleapis.com/envoy.extensions.transport_sockets.tls.v3.UpstreamTlsContext\n      common_tls_context:\n        validation_context:\n          trust_chain_verification: ACCEPT_UNTRUSTED\n"

unfoldable pub cluster_entry : List ℕ → HttpRouteBackend → String
cluster_entry tls_ports b =
    let tls_block = if any (λ p. eqb p b.port) tls_ports then tls_socket else "" in
    format (
      "- \"@type\": type.googleapis.com/envoy.config.cluster.v3.Cluster\n  name: "
      ∷ cluster_name b
      ∷ "\n  type: STRICT_DNS\n  lb_policy: ROUND_ROBIN\n"
      ∷ tls_block
      ∷ "  load_assignment:\n    cluster_name: "
      ∷ cluster_name b
      ∷ "\n    endpoints:\n    - lb_endpoints:\n      - endpoint:\n          address:\n            socket_address:\n              address: "
      ∷ b.service_name
      ∷ "."
      ∷ b.namespace
      ∷ ".svc.cluster.local\n              port_value: "
      ∷ show b.port
      ∷ "\n"
      ∷ [])

-- The inner loop: the backends that get a cluster, and the names seen after them.
unfoldable pub add_backends :
    List String → List HttpRouteBackend → List HttpRouteBackend × List String
add_backends seen [] = ([], seen)
add_backends seen (b ∷ bs) =
    let skipped = add_backends seen bs in
    let (kept, after) = add_backends (cluster_name b ∷ seen) bs in
    if any (λ n. n == cluster_name b) seen then skipped else (b ∷ kept, after)

unfoldable pub add_rules : List String → List HttpRouteRule → List HttpRouteBackend
add_rules seen [] = []
add_rules seen (rule ∷ rules) =
    let (kept, after) = add_backends seen rule.backends in kept ++ add_rules after rules

unfoldable pub generate_cds_yaml : List HttpRouteRule → List ℕ → String
generate_cds_yaml routes tls_ports =
    format ("resources:\n" ∷ auth_cluster ∷ map (cluster_entry tls_ports) (add_rules [] routes))
