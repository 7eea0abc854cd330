-- ===== src/Proxy/Requests.antt =====
-- Where a request of the reverse proxy goes: `resolve_endpoint` and `proxy_request` of
-- simulator/src/proxy.rs, up to the connection to the upstream. IP addresses are a parameter.
pub mod Endpoints
pub mod Forwarding
use picoshift.Prelude.{
  ℕ, ◌%◌, ◌^◌, String, Bool, true, false, not, ◌&&◌, ◌||◌, Option, none, some, List, [], ◌∷◌, ◌++◌,
  first, find, filter, eqb, ◌==◌, if◌then◌else◌,
}
use picoshift.Prelude.Maps.{Map, lookup}
use picoshift.Prelude.Options.{◌>>=◌, unwrap_or, is_some}
use picoshift.Prelude.Text.Replace.{format}
use picoshift.Prelude.Text.Split.{split}
use picoshift.Prelude.Text.Trim.{is_nil as is_empty}
use picoshift.Kube.{Result, ok, err}
use picoshift.Proxy.{TargetPort, number, name, RouteBackend, ServicePort, Service, is_named}

-- `IpAddr`, its `parse`, `127.0.0.1`, and how a `SocketAddr` is printed.
pub record Net : Type 1 where
  pub Ip : Type 0
  pub parse_ip : String → Option Ip
  pub localhost : Ip
  pub show_addr : Ip → ℕ → String

pub record Subset : Type 0 where
  pub ports : Option (List ServicePort)
  pub addresses : Option (List String)

-- What the API server answers to the two reads.
pub record Api : Type 0 where
  pub service : (ns name : String) → Result Service
  pub endpoints : (ns name : String) → Result (Option (List Subset))

module _ (net : Net) (api : Api) where
  abbrev pub service_of : Result Service → Option Service
  service_of (ok svc) = some svc
  service_of (err e) = none

  abbrev pub endpoints_of : Result (Option (List Subset)) → Option (List Subset)
  endpoints_of (ok subsets) = subsets
  endpoints_of (err e) = none

  -- The port of a Service that has a cluster IP, as a `u16`.
  unfoldable pub cluster_port : TargetPort → Service → ℕ
  cluster_port (number n) svc = n % 2 ^ 16
  cluster_port (name n) svc =
      unwrap_or (svc.ports >>= find (is_named n) >>= λ p. some (p.port % 2 ^ 16)) 80

  unfoldable pub cluster_address : TargetPort → Service → Option (net.Ip × ℕ)
  cluster_address target svc = do
    cluster_ip ← svc.cluster_ip
    checked ←
        if not (cluster_ip == "None") && not (is_empty cluster_ip) then some cluster_ip else none
    ip ← net.parse_ip checked
    some (ip, cluster_port target svc)

  unfoldable pub subset_port : TargetPort → List ServicePort → Option ℕ
  subset_port (number n) ports = find (λ p. eqb p.port n) ports >>= λ p. some p.port
  subset_port (name n) ports = find (is_named n) ports >>= λ p. some p.port

  -- The loop over the subsets; a subset without a list of ports ends it.
  unfoldable pub first_address : TargetPort → List Subset → Option (net.Ip × ℕ)
  first_address target [] = none
  first_address target (subset ∷ subsets) =
      let rest = first_address target subsets in
      elim subset.ports [
        | none ↦ none
        | some ports ↦ elim (subset_port target ports) [
          | none ↦ rest
          | some port ↦ elim (subset.addresses >>= first) [
            | none ↦ rest
            | some addr ↦ net.parse_ip addr >>= λ ip. some (ip, port % 2 ^ 16)
          ]
        ]
      ]

  unfoldable pub resolve_endpoint : RouteBackend → Option (net.Ip × ℕ)
  resolve_endpoint b =
      let target = b.target_port in
      let by_cluster_ip =
        service_of (api.service b.service_namespace b.service_name) >>= cluster_address target in
      let by_endpoints =
        endpoints_of (api.endpoints b.service_namespace b.service_name) >>= first_address target in
      elim by_cluster_ip [ some a ↦ some a | none ↦ by_endpoints ]

  -- A request: its headers in order, a value `none` where `to_str` fails on it; bytes are not read.
  pub record Request : Type 0 where
    pub method : String
    pub path_and_query : Option String
    pub headers : List (String × Option String)

  -- What is sent upstream, or an answer of the proxy itself with its status and text.
  pub data Outcome : Type 0 where
    answer : ℕ → String → Outcome
    forward :
        (ip : net.Ip) (port : ℕ) (tls : Bool) (uri : String)
        → List (String × Option String)
        → Outcome
    tunnel : (ip : net.Ip) (port : ℕ) (tls : Bool) (raw_req : String) → Outcome

  abbrev oauth_port : ℕ
  oauth_port = 9443

  unfoldable pub request_host : Request → String
  request_host req =
      unwrap_or
        (do
          h ← lookup "host" req.headers
          text ← h
          some (unwrap_or (first (split b':' text)) text))
        ""

  abbrev pub is_oauth : String → Bool
  is_oauth host = host == "oauth-openshift.apps.ocp-sim.test" || host == "entra.apps.ocp-sim.test"

  -- The address and whether it is TLS, or the status and the text of a refusal.
  pub data Target : Type 0 where
    refused : ℕ → String → Target
    upstream : net.Ip → ℕ → Bool → Target

  unfoldable pub backend_target : RouteBackend → Target
  backend_target b = elim (resolve_endpoint b) [
    | none ↦
        refused 503
          (format ("no endpoints for " ∷ b.service_namespace ∷ "/" ∷ b.service_name ∷ "\n" ∷ []))
    | some (ip, port) ↦ upstream ip port b.tls
  ]

  unfoldable pub table_target : Map RouteBackend → String → Target
  table_target table host = elim (lookup host table) [
    | none ↦ refused 502 (format ("no route for host: " ∷ host ∷ "\n" ∷ []))
    | some b ↦ backend_target b
  ]

  unfoldable pub target : Map RouteBackend → String → Target
  target table host =
      let by_table = table_target table host in
      if is_oauth host then upstream net.localhost oauth_port true else by_table

  abbrev pub forwarded : Bool → List (String × Option String)
  forwarded true =
      ("x-forwarded-proto", some "https")
      ∷ ("x-forwarded-scheme", some "https")
      ∷ ("x-forwarded-port", some "443")
      ∷ []
  forwarded false = ("x-forwarded-proto", some "http") ∷ []

  unfoldable pub proxy_headers : Request → Bool → List (String × Option String)
  proxy_headers req tls_incoming =
      filter (λ h. not (h.0 == "host")) req.headers
      ++ ("host", some (request_host req)) ∷ forwarded tls_incoming

  -- The headers of the request that opens a tunnel, from `ws_handshake_and_tunnel`.
  unfoldable pub header_lines : List (String × Option String) → String
  header_lines [] = ""
  header_lines ((key, none) ∷ headers) = header_lines headers
  header_lines ((key, some v) ∷ headers) =
      let rest = header_lines headers in
      if not (key == "host") then format (key ∷ ": " ∷ v ∷ "\r\n" ∷ rest ∷ []) else rest

  unfoldable pub raw_request : Request → String → String → Bool → String
  raw_request req host path tls_incoming = format (
      req.method
      ∷ " "
      ∷ path
      ∷ " HTTP/1.1\r\nHost: "
      ∷ host
      ∷ "\r\n"
      ∷ header_lines req.headers
      ∷ (if tls_incoming then "X-Forwarded-Proto: https\r\n" else "")
      ∷ "\r\n"
      ∷ [])

  unfoldable pub send_upstream : Bool → Request → net.Ip → ℕ → Bool → Outcome
  send_upstream tls_incoming req ip port tls =
      let path = unwrap_or req.path_and_query "/" in
      let uri = if tls then path else format ("http://" ∷ net.show_addr ip port ∷ path ∷ []) in
      if is_some (lookup "upgrade" req.headers)
      then tunnel ip port tls (raw_request req (request_host req) path tls_incoming)
      else forward ip port tls uri (proxy_headers req tls_incoming)

  unfoldable pub proxy_request : Map RouteBackend → Bool → Request → Outcome
  proxy_request table tls_incoming req = elim (target table (request_host req)) [
    | refused status text ↦ answer status text
    | upstream ip port tls ↦ send_upstream tls_incoming req ip port tls
  ]
