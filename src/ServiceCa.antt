-- ===== src/ServiceCa.antt =====
-- The service CA, simulator/src/service_ca.rs: serving certificates for Services, and the CA bundle
-- for ConfigMaps and webhook configurations. Signing a certificate (`sign_cert` of
-- simulator/src/util.rs, work of `rcgen`) and the base64 engine are parameters.
pub mod Certificates
pub mod Bundles
mod Tests
use picoshift.Prelude.{
  ℕ, suc, String, Bool, true, false, not, ◌&&◌, ◌||◌, Option, none, some, List, [], ◌∷◌, first,
  ◌==◌, show, if◌then◌else◌,
}
use picoshift.Prelude.Options.{◌>>=◌ as then_some, unwrap_or}
use picoshift.Prelude.Maps.{Map, lookup}
use picoshift.Prelude.Text.Bytes.{as_bytes, same_bytes}
use picoshift.Prelude.Text.Replace.{format}
use picoshift.Prelude.Text.Trim.{trim, is_nil as is_empty}
use picoshift.Json.Interface.{Serde}
use picoshift.Kube.{Result, ok, err, Action, await_change, requeue, Exec, pure, send, ◌>>=◌}

abbrev pub serving_cert_annotation : String
serving_cert_annotation = "service.beta.openshift.io/serving-cert-secret-name"

abbrev pub inject_cabundle_annotation : String
inject_cabundle_annotation = "service.beta.openshift.io/inject-cabundle"

abbrev pub fingerprint_annotation : String
fingerprint_annotation = "ocp-sim/ca-fingerprint"

-- The fields of the objects that the controllers read.
pub record Service : Type 0 where
  pub name_any : String
  pub namespace : Option String
  pub uid : Option String
  pub annotations : Option (Map String)

pub record ConfigMap : Type 0 where
  pub name_any : String
  pub namespace : Option String
  pub annotations : Option (Map String)
  pub labels : Option (Map String)
  pub data_ : Option (Map String)

-- A mutating or a validating one; a webhook is the bundle of its client configuration.
pub record WebhookConfiguration : Type 0 where
  pub name_any : String
  pub annotations : Option (Map String)
  pub webhooks : Option (List (Option (List ℕ)))

-- The owner is the uid of the Service of the name; the data are texts.
pub record Secret : Type 0 where
  pub annotations : Option (Map String)
  pub owner : Option (String × String)
  pub type_ : Option String
  pub data_ : Option (Map String)

pub record CaState : Type 0 where
  pub ca_cert_pem : String

pub data Call (J : Serde) : Type 0 where
  get_secret delete_secret : String → String → Call J
  create_secret : String → String → Secret → Call J
  patch_configmap : String → String → J.Value → Call J
  patch_mutating patch_validating : String → List J.Value → Call J

-- What the API server answers after the calls before.
pub record Api (J : Serde) : Type 0 where
  pub get_opt : List (Call J) → String → String → Result (Option Secret)
  pub answer : List (Call J) → Call J → Result (Unit {0})

abbrev pub says_true : Option String → Bool
says_true o = elim o [ none ↦ false | some v ↦ v == "true" ]

abbrev pub is_filled : Option String → Bool
is_filled none = false
is_filled (some v) = not (is_empty (trim v))

abbrev pub needs_cabundle_injection : Option (Map String) → Bool
needs_cabundle_injection annotations =
    says_true (then_some annotations (lookup inject_cabundle_annotation))

-- `existing_fp == Some(&ca_fingerprint)` of a secret.
abbrev pub has_fingerprint : String → Secret → Bool
has_fingerprint print secret = elim (then_some secret.annotations (lookup fingerprint_annotation)) [
  | none ↦ false
  | some p ↦ p == print
]

module _ (J : Serde) (encode : List ℕ → String)
    (sign_cert : CaState → List String → Option (String × String)) (ca : CaState)
    (api : Api J) where
  open J use {Value, str, obj}

  unfoldable pub ca_bundle_base64 : String
  ca_bundle_base64 = encode (as_bytes ca.ca_cert_pem)

  abbrev act : Call J → Exec (Call J) (Unit {0})
  act c = send c (λ log. api.answer log c)

  abbrev pub cert_names : Service → List String
  cert_names svc =
      let cn = format (svc.name_any ∷ "." ∷ unwrap_or svc.namespace "" ∷ ".svc" ∷ []) in
      cn ∷ format (cn ∷ ".cluster.local" ∷ []) ∷ []

  abbrev pub tls_secret : Service → String → String → Secret
  tls_secret svc cert_pem key_pem = record {
    annotations = some ((fingerprint_annotation, ca_bundle_base64) ∷ []);
    owner = some (svc.name_any, unwrap_or svc.uid "");
    type_ = some "kubernetes.io/tls";
    data_ = some (("tls.crt", cert_pem) ∷ ("tls.key", key_pem) ∷ []);
  }

  -- The part of `reconcile_service` from the signing on.
  unfoldable pub issue_cert : Service → String → Exec (Call J) Action
  issue_cert svc secret_name = elim (sign_cert ca (cert_names svc)) [
    | none ↦ pure (requeue 30)
    | some (cert_pem, key_pem) ↦
        act
          (create_secret (unwrap_or svc.namespace "") secret_name (tls_secret svc cert_pem key_pem))
        >>= λ _. pure await_change
  ]

  -- What follows the answer of `get_opt`.
  unfoldable pub replace_secret : Service → String → Option Secret → Exec (Call J) Action
  replace_secret svc secret_name none = issue_cert svc secret_name
  replace_secret svc secret_name (some existing) =
      let renew = act (delete_secret (unwrap_or svc.namespace "") secret_name) >>= λ _.
      issue_cert svc secret_name in
      if has_fingerprint ca_bundle_base64 existing then pure await_change else renew

  unfoldable pub reconcile_service : Service → Exec (Call J) Action
  reconcile_service svc = elim (then_some svc.annotations (lookup serving_cert_annotation)) [
    | none ↦ pure await_change
    | some secret_name ↦
        let ns = unwrap_or svc.namespace "" in
        send (get_secret ns secret_name) (λ log. api.get_opt log ns secret_name)
        >>= replace_secret svc secret_name
  ]

  abbrev pub inject_trusted : ConfigMap → Bool
  inject_trusted cm =
      says_true (then_some cm.labels (lookup "config.openshift.io/inject-trusted-cabundle"))

  abbrev pub target_key : ConfigMap → String
  target_key cm = if inject_trusted cm then "odh-ca-bundle.crt" else "service-ca.crt"

  abbrev pub has_ca_key : ConfigMap → Bool
  has_ca_key cm = is_filled (then_some cm.data_ (lookup (target_key cm)))

  unfoldable pub reconcile_configmap : ConfigMap → Exec (Call J) Action
  reconcile_configmap cm =
      let inject_serving = needs_cabundle_injection cm.annotations in
      let patch = obj (("data", obj ((target_key cm, str ca.ca_cert_pem) ∷ [])) ∷ []) in
      let inject = act (patch_configmap (unwrap_or cm.namespace "") cm.name_any patch) >>= λ _.
      pure await_change in
      if not inject_serving && not (inject_trusted cm)
      then pure await_change
      else if has_ca_key cm
      then pure await_change
      else inject

  -- The operations for the webhooks from the index `i` on.
  unfoldable pub bundle_ops : ℕ → List (Option (List ℕ)) → List Value
  bundle_ops i [] = []
  bundle_ops i (wh ∷ whs) =
      obj (
        ("op", str "add")
        ∷ ("path", str (format ("/webhooks/" ∷ show i ∷ "/clientConfig/caBundle" ∷ [])))
        ∷ ("value", str ca_bundle_base64)
        ∷ [])
      ∷ bundle_ops (suc i) whs

  -- The first webhook has the bundle.
  abbrev pub has_bundle : WebhookConfiguration → Bool
  has_bundle c = elim (then_some (then_some c.webhooks first) (λ wh. wh)) [
    | none ↦ false
    | some b ↦ same_bytes b (as_bytes ca.ca_cert_pem)
  ]

  unfoldable pub reconcile_mutating_webhook : WebhookConfiguration → Exec (Call J) Action
  reconcile_mutating_webhook mwc =
      let json_patch = bundle_ops 0 (unwrap_or mwc.webhooks []) in
      let inject = act (patch_mutating mwc.name_any json_patch) >>= λ _. pure await_change in
      if not (needs_cabundle_injection mwc.annotations)
      then pure await_change
      else if has_bundle mwc
      then pure await_change
      else inject

  unfoldable pub reconcile_validating_webhook : WebhookConfiguration → Exec (Call J) Action
  reconcile_validating_webhook vwc =
      let json_patch = bundle_ops 0 (unwrap_or vwc.webhooks []) in
      let inject = act (patch_validating vwc.name_any json_patch) >>= λ _. pure await_change in
      if not (needs_cabundle_injection vwc.annotations)
      then pure await_change
      else if has_bundle vwc
      then pure await_change
      else inject
