-- ===== src/PodMutate/Webhook.antt =====
-- The registration of the pod webhook, `setup_webhook_with_ip` of simulator/src/pod_mutate.rs. The
-- base64 engine is a parameter.
use picoshift.Prelude.{ℕ, String, Option, List, [], ◌∷◌}
use picoshift.Prelude.Options.{unwrap_or}
use picoshift.Prelude.Text.Bytes.{as_bytes}
use picoshift.Prelude.Text.Replace.{format}
use picoshift.Kube.{Result, Exec, send}
use picoshift.PodMutate.{skip_namespaces}

pub record WebhookClientConfig : Type 0 where
  pub url : String
  pub ca_bundle : List ℕ

pub record RuleWithOperations : Type 0 where
  pub api_groups : List String
  pub api_versions : List String
  pub operations : List String
  pub resources : List String
  pub scope : String

pub record LabelSelectorRequirement : Type 0 where
  pub key : String
  pub operator : String
  pub values : List String

pub record MutatingWebhook : Type 0 where
  pub name : String
  pub client_config : WebhookClientConfig
  pub rules : List RuleWithOperations
  pub failure_policy : String
  pub side_effects : String
  pub admission_review_versions : List String
  pub namespace_selector : List LabelSelectorRequirement
  pub reinvocation_policy : String
  pub timeout_seconds : ℕ

pub record MutatingWebhookConfiguration : Type 0 where
  pub name : String
  pub webhooks : List MutatingWebhook

pub data Call : Type 0 where
  apply_webhook : String → MutatingWebhookConfiguration → Call

module _ (encode : List ℕ → String) (decode : String → Option (List ℕ)) where
  unfoldable pub webhook : String → String → MutatingWebhook
  webhook ca_cert_pem node_ip = record {
    name = "scc.ocp-sim.io";
    client_config = record {
      url = format ("https://" ∷ node_ip ∷ ":8443/mutate/pods" ∷ []);
      ca_bundle = unwrap_or (decode (encode (as_bytes ca_cert_pem))) [];
    };
    rules =
        record {
          api_groups = "" ∷ [];
          api_versions = "v1" ∷ [];
          operations = "CREATE" ∷ [];
          resources = "pods" ∷ [];
          scope = "Namespaced";
        }
        ∷ [];
    failure_policy = "Ignore";
    side_effects = "None";
    admission_review_versions = "v1" ∷ [];
    namespace_selector =
        record { key = "kubernetes.io/metadata.name"; operator = "NotIn"; values = skip_namespaces }
        ∷ [];
    reinvocation_policy = "Never";
    timeout_seconds = 5;
  }

  unfoldable pub setup_webhook_with_ip :
      (List Call → Call → Result (Unit {0})) → String → String → Exec Call (Unit {0})
  setup_webhook_with_ip answer ca_cert_pem node_ip =
      let c =
        apply_webhook "ocp-sim-scc"
          (record { name = "ocp-sim-scc"; webhooks = webhook ca_cert_pem node_ip ∷ [] }) in
      send c (λ log. answer log c)
