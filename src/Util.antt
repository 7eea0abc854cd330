-- ===== src/Util.antt =====
-- What the parts of the program share, simulator/src/util.rs: the API resources and `get_node_ip`.
pub mod NodeIp
use picoshift.Prelude.{
  String, ◌==◌, if◌then◌else◌, Option, none, some, List, [], ◌∷◌, ◌++◌, map, find,
}
use picoshift.Prelude.Options.{unwrap_or, or_else}

pub record ApiResource : Type 0 where
  pub group : String
  pub version : String
  pub api_version : String
  pub kind : String
  pub plural : String

abbrev pub route_ar : ApiResource
route_ar = record {
  group = "route.openshift.io";
  version = "v1";
  api_version = "route.openshift.io/v1";
  kind = "Route";
  plural = "routes";
}

abbrev pub project_ar : ApiResource
project_ar = record {
  group = "project.openshift.io";
  version = "v1";
  api_version = "project.openshift.io/v1";
  kind = "Project";
  plural = "projects";
}

abbrev pub imagestream_ar : ApiResource
imagestream_ar = record {
  group = "image.openshift.io";
  version = "v1";
  api_version = "image.openshift.io/v1";
  kind = "ImageStream";
  plural = "imagestreams";
}

abbrev pub oauth_client_ar : ApiResource
oauth_client_ar = record {
  group = "oauth.openshift.io";
  version = "v1";
  api_version = "oauth.openshift.io/v1";
  kind = "OAuthClient";
  plural = "oauthclients";
}

abbrev pub user_ar : ApiResource
user_ar = record {
  group = "user.openshift.io";
  version = "v1";
  api_version = "user.openshift.io/v1";
  kind = "User";
  plural = "users";
}

abbrev pub identity_ar : ApiResource
identity_ar = record {
  group = "user.openshift.io";
  version = "v1";
  api_version = "user.openshift.io/v1";
  kind = "Identity";
  plural = "identities";
}

abbrev pub gateway_class_ar : ApiResource
gateway_class_ar = record {
  group = "gateway.networking.k8s.io";
  version = "v1";
  api_version = "gateway.networking.k8s.io/v1";
  kind = "GatewayClass";
  plural = "gatewayclasses";
}

abbrev pub gateway_ar : ApiResource
gateway_ar = record {
  group = "gateway.networking.k8s.io";
  version = "v1";
  api_version = "gateway.networking.k8s.io/v1";
  kind = "Gateway";
  plural = "gateways";
}

abbrev pub httproute_ar : ApiResource
httproute_ar = record {
  group = "gateway.networking.k8s.io";
  version = "v1";
  api_version = "gateway.networking.k8s.io/v1";
  kind = "HTTPRoute";
  plural = "httproutes";
}

abbrev pub destination_rule_ar : ApiResource
destination_rule_ar = record {
  group = "networking.istio.io";
  version = "v1";
  api_version = "networking.istio.io/v1";
  kind = "DestinationRule";
  plural = "destinationrules";
}

abbrev pub jobset_ar : ApiResource
jobset_ar = record {
  group = "jobset.x-k8s.io";
  version = "v1alpha2";
  api_version = "jobset.x-k8s.io/v1alpha2";
  kind = "JobSet";
  plural = "jobsets";
}

abbrev pub resources : List ApiResource
resources =
    route_ar ∷ project_ar ∷ imagestream_ar ∷ oauth_client_ar ∷ user_ar ∷ identity_ar
    ∷ gateway_class_ar ∷ gateway_ar ∷ httproute_ar ∷ destination_rule_ar ∷ jobset_ar ∷ []

-- A Node as the program reads it: the types and values of its addresses.
pub record NodeAddress : Type 0 where
  pub type_ : String
  pub address : String

pub record Node : Type 0 where
  pub addresses : Option (List NodeAddress)

-- The search through the nodes' addresses, in their order; `none` where the program gives up.
unfoldable pub internal_ip : List NodeAddress → Option String
internal_ip [] = none
internal_ip (a ∷ as_) =
    let rest = internal_ip as_ in if a.type_ == "InternalIP" then some a.address else rest

unfoldable pub get_node_ip : List Node → Option String
get_node_ip [] = none
get_node_ip (node ∷ nodes) = or_else (internal_ip (unwrap_or node.addresses [])) (get_node_ip nodes)
