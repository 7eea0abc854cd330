-- ===== src/OAuth/Infra.antt =====
-- The objects that the OAuth server sets up in the cluster, simulator/src/oauth/infra.rs:
-- `setup_infrastructure`, `create_oauth_route`, `patch_coredns`.
pub mod Dns
pub mod Published
mod Tests
use picoshift.Prelude.{
  ℕ, String, Bool, true, false, not, Option, none, some, List, [], ◌∷◌, ◌==◌, first, if◌then◌else◌,
}
use picoshift.Prelude.Maps.{Map, lookup}
use picoshift.Prelude.Options.{◌>>=◌ as then_some, unwrap_or}
use picoshift.Prelude.Text.{contains}
use picoshift.Prelude.Text.Split.{split}
use picoshift.Prelude.Text.Replace.{format}
use picoshift.Json.Interface.{Serde}
use picoshift.Kube.{
  KubeError, other, is_code, Result, ok, err, Exec, pure, fail, send, ◌>>=◌, ◌>>◌, attempt,
}
use picoshift.Util.{Node, get_node_ip}
use picoshift.OAuth.State.{AuthMode}
use picoshift.OAuth.Server.{is_byoidc}

abbrev pub oauth_ns : String
oauth_ns = "openshift-authentication"

abbrev pub oauth_host : String
oauth_host = "oauth-openshift"

abbrev pub oauth_port : ℕ
oauth_port = 9443

pub record ServicePort : Type 0 where
  pub name : String
  pub port : ℕ
  pub target_port : ℕ
  pub protocol : String

pub record Service : Type 0 where
  pub name : String
  pub namespace : String
  pub cluster_ip : String
  pub ports : List ServicePort

pub record EndpointPort : Type 0 where
  pub name : String
  pub port : ℕ
  pub protocol : String

pub record Endpoints : Type 0 where
  pub name : String
  pub namespace : Option String
  pub addresses : List String
  pub ports : List EndpointPort

-- The calls; those that delete name an object of the OAuth namespace.
pub data Call (J : Serde) : Type 0 where
  create_namespace : String → Call J
  list_nodes : Call J
  delete_service delete_endpoints delete_route : String → Call J
  apply_service : String → Service → Call J
  apply_endpoints : (ns name : String) → Endpoints → Call J
  apply_route : String → J.Value → Call J
  get_coredns : Call J
  patch_coredns_config : J.Value → Call J
  list_dns_pods : Call J
  delete_pod : String → Call J

-- What the API server answers after the calls before; a ConfigMap is its `data`, a pod its name.
pub record Api (J : Serde) : Type 0 where
  pub answer : List (Call J) → Call J → Result (Unit {0})
  pub nodes : List (Call J) → Result (List Node)
  pub coredns : List (Call J) → Result (Option (Map String))
  pub dns_pods : List (Call J) → Result (List (Option String))

unfoldable pub headless_service : String → Service
headless_service name = record {
  name = name;
  namespace = oauth_ns;
  cluster_ip = "None";
  ports =
      record { name = "https"; port = oauth_port; target_port = oauth_port; protocol = "TCP" } ∷ [];
}

unfoldable pub node_endpoints : String → String → Endpoints
node_endpoints name node_ip = record {
  name = name;
  namespace = some oauth_ns;
  addresses = node_ip ∷ [];
  ports = record { name = "https"; port = oauth_port; protocol = "TCP" } ∷ [];
}

unfoldable pub kubernetes_endpoints : String → Endpoints
kubernetes_endpoints node_ip = record {
  name = "kubernetes";
  namespace = none;
  addresses = node_ip ∷ [];
  ports = record { name = "https"; port = 6443; protocol = "TCP" } ∷ [];
}

abbrev pub hosts_name : AuthMode → String
hosts_name mode =
    if is_byoidc mode then "entra.apps.ocp-sim.test" else "oauth-openshift.apps.ocp-sim.test"

-- The block of the Corefile that answers for the domain.
unfoldable pub hosts_block : String → AuthMode → String
hosts_block node_ip mode = format (
    "\napps.ocp-sim.test:53 {\n    hosts {\n        "
    ∷ node_ip
    ∷ " "
    ∷ hosts_name mode
    ∷ "\n        fallthrough\n    }\n}\n"
    ∷ [])

module _ {J : Serde} (api : Api J) where
  open J use {Value, str, obj}

  abbrev act : Call J → Exec (Call J) (Unit {0})
  act c = send c (λ log. api.answer log c)

  -- A call whose error is logged and dropped.
  abbrev try_call : Call J → Exec (Call J) (Unit {0})
  try_call c = attempt (act c) λ r. pure tt

  -- Creating the namespace may meet one that is there.
  abbrev unless_conflict : Result (Unit {0}) → Exec (Call J) (Unit {0})
  unless_conflict (ok _) = pure tt
  unless_conflict (err e) = if is_code 409 e then pure tt else fail e

  abbrev ip_or_fail : Option String → Exec (Call J) String
  ip_or_fail none = fail (other "no node with InternalIP found")
  ip_or_fail (some ip) = pure ip

  abbrev node_ip_or_fail : List Node → Exec (Call J) String
  node_ip_or_fail nodes = ip_or_fail (get_node_ip nodes)

  unfoldable pub oauth_route : String → String → String → Value
  oauth_route route_name host svc_name = obj (
      ("apiVersion", str "route.openshift.io/v1")
      ∷ ("kind", str "Route")
      ∷ ("metadata", obj (("name", str route_name) ∷ ("namespace", str oauth_ns) ∷ []))
      ∷ (
        "spec",
        obj (
            ("host", str host)
            ∷ ("to", obj (("kind", str "Service") ∷ ("name", str svc_name) ∷ []))
            ∷ ("port", obj (("targetPort", str "https") ∷ []))
            ∷ ("tls", obj (("termination", str "passthrough") ∷ []))
            ∷ []),
      )
      ∷ [])

  unfoldable pub create_oauth_route : String → String → Exec (Call J) (Unit {0})
  create_oauth_route host svc_name =
      let route_name = unwrap_or (first (split b'.' host)) host in
      try_call (apply_route route_name (oauth_route route_name host svc_name))

  unfoldable pub delete_pods : List (Option String) → Exec (Call J) (Unit {0})
  delete_pods [] = pure tt
  delete_pods (name ∷ pods) = try_call (delete_pod (unwrap_or name "")) >> delete_pods pods

  abbrev pub corefile_patch : String → Value
  corefile_patch corefile = obj (("data", obj (("Corefile", str corefile) ∷ [])) ∷ [])

  -- The rest of `patch_coredns`, once the ConfigMap is read.
  unfoldable pub extend_corefile :
      String → AuthMode → Option (Map String) → Exec (Call J) (Unit {0})
  extend_corefile node_ip mode data_ =
      let corefile = unwrap_or (then_some data_ (lookup "Corefile")) "" in
      let extend =
        act (
          patch_coredns_config (corefile_patch (format (corefile ∷ hosts_block node_ip mode ∷ []))))
        >> (send list_dns_pods api.dns_pods >>= delete_pods) in
      if contains corefile "apps.ocp-sim.test" then pure tt else extend

  unfoldable pub patch_coredns : String → AuthMode → Exec (Call J) (Unit {0})
  patch_coredns node_ip mode = send get_coredns api.coredns >>= extend_corefile node_ip mode

  -- The Service and Endpoints of a name, and its Route.
  unfoldable pub publish : String → String → Exec (Call J) (Unit {0})
  publish name node_ip =
      try_call (apply_service name (headless_service name))
      >> try_call (apply_endpoints oauth_ns name (node_endpoints name node_ip))
      >> create_oauth_route (format (name ∷ ".apps.ocp-sim.test" ∷ [])) name

  -- The objects of the mode; the external one takes the local one's away first.
  unfoldable pub publish_mode : String → AuthMode → Exec (Call J) (Unit {0})
  publish_mode node_ip mode =
      let external =
        try_call (delete_service oauth_host)
        >> try_call (delete_endpoints oauth_host)
        >> try_call (delete_route oauth_host)
        >> publish "entra" node_ip in
      let local = publish oauth_host node_ip in if is_byoidc mode then external else local

  unfoldable pub setup_on : AuthMode → String → Exec (Call J) (Unit {0})
  setup_on mode node_ip =
      publish_mode node_ip mode
      >> patch_coredns node_ip mode
      >> try_call (apply_endpoints "default" "kubernetes" (kubernetes_endpoints node_ip))

  unfoldable pub setup_infrastructure : AuthMode → Exec (Call J) (Unit {0})
  setup_infrastructure mode =
      attempt (act (create_namespace oauth_ns)) unless_conflict
      >> (send list_nodes api.nodes >>= node_ip_or_fail >>= setup_on mode)
