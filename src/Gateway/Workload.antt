-- ===== src/Gateway/Workload.antt =====
-- The objects that the gateway controller creates, simulator/src/gateway.rs: `ensure_envoy_configmaps`,
-- `ensure_envoy_deployment` and `ensure_envoy_service`, with the fields that they set.
use picoshift.Prelude.{ℕ, String, Bool, true, List, [], ◌∷◌}
use picoshift.Prelude.Maps.{Map}
use picoshift.Gateway.{generate_rds_yaml, generate_cds_yaml}
use picoshift.Gateway.Envoy.{generate_bootstrap_yaml, generate_lds_yaml}

pub record ConfigMap : Type 0 where
  pub name : String
  pub namespace : String
  pub data_ : Map String

pub record ContainerPort : Type 0 where
  pub container_port : ℕ
  pub name : String
  pub protocol : String

pub record VolumeMount : Type 0 where
  pub name : String
  pub mount_path : String
  pub read_only : Bool

pub record Container : Type 0 where
  pub name : String
  pub image : String
  pub args : List String
  pub ports : List ContainerPort
  pub volume_mounts : List VolumeMount

pub data VolumeSource : Type 0 where
  config_map : String → VolumeSource
  secret : (secret_name : String) (is_optional : Bool) → VolumeSource

pub record Volume : Type 0 where
  pub name : String
  pub source : VolumeSource

pub record Deployment : Type 0 where
  pub name : String
  pub namespace : String
  pub replicas : ℕ
  pub match_labels : Map String
  pub labels : Map String
  pub containers : List Container
  pub volumes : List Volume

pub record ServicePort : Type 0 where
  pub name : String
  pub port : ℕ
  pub target_port : ℕ
  pub protocol : String

pub record Service : Type 0 where
  pub name : String
  pub namespace : String
  pub annotations : Map String
  pub selector : Map String
  pub ports : List ServicePort

abbrev pub envoy_listen_port : ℕ
envoy_listen_port = 8443

abbrev pub tls_secret_name : String
tls_secret_name = "data-science-gateway-service-tls"

unfoldable pub bootstrap_configmap : String → ConfigMap
bootstrap_configmap ns = record {
  name = "envoy-bootstrap";
  namespace = ns;
  data_ = ("bootstrap.yaml", generate_bootstrap_yaml) ∷ [];
}

-- The configuration without routes.
unfoldable pub xds_configmap : String → String → ConfigMap
xds_configmap ns hostname = record {
  name = "envoy-xds-config";
  namespace = ns;
  data_ =
      ("lds.yaml", generate_lds_yaml hostname)
      ∷ ("rds.yaml", generate_rds_yaml hostname [])
      ∷ ("cds.yaml", generate_cds_yaml [] [])
      ∷ [];
}

abbrev pub envoy_labels : String → Map String
envoy_labels gateway_name =
    ("app", "envoy-gateway") ∷ ("gateway.networking.k8s.io/gateway-name", gateway_name) ∷ []

abbrev read_only_mount : String → String → VolumeMount
read_only_mount name path = record { name = name; mount_path = path; read_only = true }

unfoldable pub envoy_container : Container
envoy_container = record {
  name = "envoy";
  image = "docker.io/envoyproxy/envoy:v1.31-latest";
  args = "-c" ∷ "/etc/envoy/bootstrap/bootstrap.yaml" ∷ "--log-level" ∷ "info" ∷ [];
  ports = record { container_port = envoy_listen_port; name = "https"; protocol = "TCP" } ∷ [];
  volume_mounts =
      read_only_mount "bootstrap" "/etc/envoy/bootstrap"
      ∷ read_only_mount "xds" "/etc/envoy/xds"
      ∷ read_only_mount "tls" "/etc/envoy/tls"
      ∷ [];
}

unfoldable pub envoy_volumes : List Volume
envoy_volumes =
    record { name = "bootstrap"; source = VolumeSource.config_map "envoy-bootstrap" }
    ∷ record { name = "xds"; source = VolumeSource.config_map "envoy-xds-config" }
    ∷ record { name = "tls"; source = VolumeSource.secret tls_secret_name true }
    ∷ []

unfoldable pub envoy_deployment : String → String → Deployment
envoy_deployment ns gateway_name = record {
  name = gateway_name;
  namespace = ns;
  replicas = 1;
  match_labels = envoy_labels gateway_name;
  labels = envoy_labels gateway_name;
  containers = envoy_container ∷ [];
  volumes = envoy_volumes;
}

unfoldable pub envoy_service : String → String → Service
envoy_service ns svc_name = record {
  name = svc_name;
  namespace = ns;
  annotations = ("service.beta.openshift.io/serving-cert-secret-name", tls_secret_name) ∷ [];
  selector = ("app", "envoy-gateway") ∷ [];
  ports =
      record { name = "https"; port = 443; target_port = envoy_listen_port; protocol = "TCP" } ∷ [];
}
