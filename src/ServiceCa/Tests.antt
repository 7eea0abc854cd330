-- ===== src/ServiceCa/Tests.antt =====
-- Runs of the service CA's model at concrete inputs.
use picoshift.Prelude.{
  ℕ, String, ◌≡◌, ◌⊎◌, inl, refl, not, ◌&&◌, ◌==◌, if◌then◌else◌, arith, false, Option, none, some,
  List, [], ◌∷◌,
}
use picoshift.Prelude.Maps.{lookup}
use picoshift.Prelude.Options.{◌>>=◌ as then_some}
use picoshift.Prelude.Text.Bytes.{as_bytes}
use picoshift.Prelude.Text.Trim.{trim, trim_start, trim_end, is_whitespace, is_nil as is_empty}
use picoshift.Json.Tree.{tree_serde}
use picoshift.Kube.{Result, ok, Action, await_change}
use picoshift.ServiceCa.{
  Service, ConfigMap, WebhookConfiguration, Secret, CaState, Call, get_secret, Api, is_filled,
  serving_cert_annotation, inject_cabundle_annotation, ca_bundle_base64, issue_cert, replace_secret,
  reconcile_service, reconcile_configmap, reconcile_mutating_webhook, reconcile_validating_webhook,
}
use picoshift.ServiceCa.Certificates.{
  IsCurrent, IsCreated, secret_of, reconcile_service-IsCreated, reconcile_service-settled,
}
use picoshift.ServiceCa.Bundles.{
  IsWanted, IsAfter, reconcile_configmap-IsAfter, reconcile_webhook-first,
}

abbrev encode : List ℕ → String
encode bs = "Y2VydA=="

abbrev sign : CaState → List String → Option (String × String)
sign ca names = some ("cert", "key")

abbrev ca : CaState
ca = record { ca_cert_pem = "cert" }

-- A server without the secret, and one that has the secret that the controller creates.
abbrev empty_server : Api tree_serde
empty_server = record { get_opt = λ log ns name. ok none; answer = λ log c. ok tt }

abbrev svc : Service
svc = record {
  name_any = "s";
  namespace = some "ns";
  uid = some "u";
  annotations = some ((serving_cert_annotation, "tls") ∷ []);
}

abbrev created_secret : Secret
created_secret = secret_of tree_serde encode sign ca empty_server svc "cert" "key"

abbrev filled_server : Api tree_serde
filled_server = record {
  get_opt = λ log ns name. ok (some created_secret);
  answer = λ log c. ok tt;
}

annotated : then_some svc.annotations (lookup serving_cert_annotation) ≡ some "tls"
unfolding lookup
annotated = refl

creates : (reconcile_service tree_serde encode sign ca empty_server svc []).0 ≡ ok await_change
unfolding reconcile_service replace_secret issue_cert lookup
creates = refl

reconcile_service-IsCreated_example :
    ((old : Secret) × (empty_server.get_opt [] "ns" "tls" ≡ ok (some old))
      × IsCurrent tree_serde encode sign ca empty_server old
      × ((reconcile_service tree_serde encode sign ca empty_server svc []).1
          ≡ get_secret "ns" "tls" ∷ []))
    ⊎ IsCreated tree_serde encode sign ca empty_server svc "tls" []
        (reconcile_service tree_serde encode sign ca empty_server svc []).1
reconcile_service-IsCreated_example =
    reconcile_service-IsCreated tree_serde encode sign ca empty_server svc "tls" [] annotated
      creates

reconcile_service-settled_example :
    reconcile_service tree_serde encode sign ca filled_server svc []
    ≡ (ok await_change, get_secret "ns" "tls" ∷ [])
unfolding ca_bundle_base64
reconcile_service-settled_example =
    reconcile_service-settled tree_serde encode sign ca filled_server svc svc "tls" "cert" "key" []
      annotated refl

-- A ConfigMap that its label asks to be filled, before and after a run.
abbrev cm : ConfigMap
cm = record {
  name_any = "cm";
  namespace = some "ns";
  annotations = none;
  labels = some (("config.openshift.io/inject-trusted-cabundle", "true") ∷ []);
  data_ = some (("odh-ca-bundle.crt", " ") ∷ ("a", "b") ∷ []);
}

abbrev filled_cm : ConfigMap
filled_cm = record cm { data_ = some (("odh-ca-bundle.crt", "cert") ∷ ("a", "b") ∷ []) }

cm-IsWanted : IsWanted tree_serde encode sign ca empty_server cm "odh-ca-bundle.crt"
unfolding lookup
cm-IsWanted = inl (refl, refl)

full : is_empty (trim ca.ca_cert_pem) ≡ false
unfolding trim trim_start trim_end is_whitespace
full = refl

abbrev cm_run : Result Action × List (Call tree_serde)
cm_run = reconcile_configmap tree_serde encode sign ca empty_server cm []

cm_ok : cm_run.0 ≡ ok await_change
unfolding reconcile_configmap lookup trim trim_start trim_end is_whitespace
cm_ok = refl

cm-IsAfter : IsAfter tree_serde encode sign ca empty_server cm cm_run.1 filled_cm
unfolding reconcile_configmap lookup trim trim_start trim_end is_whitespace
cm-IsAfter = record { same_labels = refl; same_annotations = refl; data_after = λ k. ground arith }

reconcile_configmap-IsAfter_example :
    ((k : String)
      → then_some filled_cm.data_ (lookup k) ≡ (
          if ("odh-ca-bundle.crt" == k)
            && not (is_filled (then_some cm.data_ (lookup "odh-ca-bundle.crt")))
          then some "cert"
          else then_some cm.data_ (lookup k)))
    × (reconcile_configmap tree_serde encode sign ca empty_server filled_cm []
        ≡ (ok await_change, []))
reconcile_configmap-IsAfter_example =
    reconcile_configmap-IsAfter tree_serde encode sign ca empty_server cm filled_cm
      "odh-ca-bundle.crt" [] cm-IsWanted full cm_ok cm-IsAfter

-- The second webhook has no bundle.
abbrev webhooks : WebhookConfiguration
webhooks = record {
  name_any = "w";
  annotations = some ((inject_cabundle_annotation, "true") ∷ []);
  webhooks = some (some (as_bytes "cert") ∷ none ∷ []);
}

reconcile_webhook-first_example :
    (reconcile_mutating_webhook tree_serde encode sign ca empty_server webhooks []
      ≡ (ok await_change, []))
    × (reconcile_validating_webhook tree_serde encode sign ca empty_server webhooks []
        ≡ (ok await_change, []))
reconcile_webhook-first_example =
    reconcile_webhook-first tree_serde encode sign ca empty_server webhooks (none ∷ []) [] refl
