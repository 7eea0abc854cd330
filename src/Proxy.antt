-- ===== src/Proxy.antt =====
-- The route table of the reverse proxy, simulator/src/proxy.rs. An `i32` is its residue modulo
-- 2 ^ 32. The requests that the table serves are in the child.
pub mod Table
pub mod Requests
pub mod Tunnel
pub mod Answer
mod Tests
use picoshift.Prelude.{
  ℕ, ◌%◌, ◌^◌, String, Bool, true, false, not, ◌&&◌, ◌||◌, Option, none, some, List, [], ◌∷◌, ◌++◌,
  first, find, filter_map, eqb, ◌==◌, is_nil, if◌then◌else◌,
}
use picoshift.Prelude.Maps.{Map, lookup, insert}
use picoshift.Prelude.Options.{◌>>=◌, unwrap_or, or_else, keep_if}
use picoshift.Prelude.Text.Replace.{format}
use picoshift.Prelude.Text.Trim.{is_nil as is_empty}
use picoshift.Json.{get_in, str_in, array_in, is_text}
use picoshift.Json.Interface.{Serde}
use picoshift.Kube.{DynamicObject, Result, ok, err}

pub data TargetPort : Type 0 where
  number : ℕ → TargetPort
  name : String → TargetPort

pub record RouteBackend : Type 0 where
  pub service_name : String
  pub service_namespace : String
  pub target_port : TargetPort
  pub tls : Bool

pub record ServicePort : Type 0 where
  pub name : Option String
  pub port : ℕ

-- The fields of a Service that the proxy reads.
pub record Service : Type 0 where
  pub name_any : String
  pub namespace : Option String
  pub cluster_ip : Option String
  pub ports : Option (List ServicePort)

-- `p.name.as_deref() == Some(name)`
abbrev pub is_named : String → ServicePort → Bool
is_named n p = elim p.name [ none ↦ false | some m ↦ m == n ]

module _ (J : Serde) where
  open J use {Value, get, as_str, as_u64, as_array}

  unfoldable pub extract_host : DynamicObject J → Option String
  extract_host route =
      or_else
        (array_in J route.value ("status" ∷ "ingress" ∷ []) >>= first >>= λ ing.
          str_in J ing ("host" ∷ []))
        (keep_if (λ h. not (is_empty h)) (str_in J route.value ("spec" ∷ "host" ∷ [])))

  abbrev port_of : Value → TargetPort
  port_of target = elim (as_u64 target) [
    | some num ↦ number (num % 2 ^ 32)
    | none ↦ elim (as_str target) [ some s ↦ name s | none ↦ number 80 ]
  ]

  abbrev is_tls_termination : String → Bool
  is_tls_termination t = t == "reencrypt" || t == "passthrough"

  unfoldable pub extract_backend : DynamicObject J → Option (String × TargetPort × Bool)
  extract_backend route = do
    spec ← get route.value "spec"
    svc_name ← str_in J spec ("to" ∷ "name" ∷ [])
    let port =
        unwrap_or (get_in J spec ("port" ∷ "targetPort" ∷ []) >>= λ t. some (port_of t)) (number 80)
    let tls =
        unwrap_or (str_in J spec ("tls" ∷ "termination" ∷ []) >>= λ t. some (is_tls_termination t))
          false
    some (svc_name, port, tls)

  abbrev pub backend_of : DynamicObject J → Option RouteBackend
  backend_of route = do
    (svc_name, target_port, tls) ← extract_backend route
    some (record {
      service_name = svc_name;
      service_namespace = unwrap_or route.namespace "";
      target_port = target_port;
      tls = tls;
    })

  -- The entry that an event makes; `none` where the loop continues.
  unfoldable pub route_entry : DynamicObject J → Option (String × RouteBackend)
  route_entry route = do host ← extract_host route; backend ← backend_of route; some (host, backend)

  abbrev pub insert_entry : Option (String × RouteBackend) → Map RouteBackend → Map RouteBackend
  insert_entry none table = table
  insert_entry (some (host, backend)) table = insert host backend table

  -- The loop over the events of the watch, `none` for a watch error.
  unfoldable pub build_route_table :
      Map RouteBackend → List (Option (DynamicObject J)) → Map RouteBackend
  build_route_table table [] = table
  build_route_table table (none ∷ events) = build_route_table table events
  build_route_table table (some route ∷ events) =
      build_route_table (insert_entry (route_entry route) table) events

  -- What the API server answers while the loop over HTTPRoutes runs.
  pub record Gateways : Type 0 where
    pub gateway : (ns name : String) → Result Value
    pub services : (ns label : String) → Result (List Service)

  module _ (api : Gateways) where
    abbrev listener_hosts : Result Value → List String
    listener_hosts (err e) = []
    listener_hosts (ok gw) =
        filter_map (λ l. str_in J l ("hostname" ∷ []))
          (unwrap_or (array_in J gw ("spec" ∷ "listeners" ∷ [])) [])

    -- The hosts of the route, or of the gateway's listeners where it has none.
    unfoldable pub all_hosts : List String → String → String → List String
    all_hosts hostnames gw_ns gw_name =
        if is_nil hostnames then listener_hosts (api.gateway gw_ns gw_name) else hostnames

    -- The port of the gateway's Service, and whether it is TLS: HTTPS comes first.
    unfoldable pub gateway_port : Option (List ServicePort) → ℕ × Bool
    gateway_port ports =
        let http_port = ports >>= find (λ p. is_named "http" p || eqb p.port 80) in
        let https_port = ports >>= find (λ p. is_named "https" p || eqb p.port 443) in
        elim https_port [
          | some p ↦ (p.port, true)
          | none ↦ elim http_port [ some p ↦ (p.port, false) | none ↦ (80, false) ]
        ]

    abbrev first_service : Result (List Service) → Option Service
    first_service (ok list) = first list
    first_service (err e) = none

    abbrev insert_all : List String → RouteBackend → Map RouteBackend → Map RouteBackend
    insert_all [] backend table = table
    insert_all (host ∷ hosts) backend table = insert_all hosts backend (insert host backend table)

    abbrev gateway_backend : String → Service → RouteBackend
    gateway_backend gw_ns svc =
        let (port, tls) = gateway_port svc.ports in
        record {
          service_name = svc.name_any;
          service_namespace = unwrap_or svc.namespace gw_ns;
          target_port = number port;
          tls = tls;
        }

    -- One parent reference of a route, `none` where the loop continues.
    unfoldable pub attached :
        String → List String → Value → Map RouteBackend → Option (Map RouteBackend)
    attached route_ns hostnames parent table = do
      gw_name ← str_in J parent ("name" ∷ [])
      let gw_ns = unwrap_or (str_in J parent ("namespace" ∷ [])) route_ns
      let label = format ("gateway.networking.k8s.io/gateway-name=" ∷ gw_name ∷ [])
      svc ← first_service (api.services gw_ns label)
      some (insert_all (all_hosts hostnames gw_ns gw_name) (gateway_backend gw_ns svc) table)

    abbrev pub attach_parent : String → List String → Value → Map RouteBackend → Map RouteBackend
    attach_parent route_ns hostnames parent table =
        unwrap_or (attached route_ns hostnames parent table) table

    unfoldable pub attach_parents :
        String → List String → List Value → Map RouteBackend → Map RouteBackend
    attach_parents route_ns hostnames [] table = table
    attach_parents route_ns hostnames (parent ∷ parents) table =
        attach_parents route_ns hostnames parents (attach_parent route_ns hostnames parent table)

    unfoldable pub build_gateway_route_table :
        Map RouteBackend → List (Option (DynamicObject J)) → Map RouteBackend
    build_gateway_route_table table [] = table
    build_gateway_route_table table (none ∷ events) = build_gateway_route_table table events
    build_gateway_route_table table (some route ∷ events) =
        let hostnames =
          unwrap_or
            (array_in J route.value ("spec" ∷ "hostnames" ∷ []) >>= λ vs.
              some (filter_map as_str vs))
            [] in
        let parent_refs = unwrap_or (array_in J route.value ("spec" ∷ "parentRefs" ∷ [])) [] in
        build_gateway_route_table
          (attach_parents (unwrap_or route.namespace "") hostnames parent_refs table) events
