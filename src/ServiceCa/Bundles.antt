-- ===== src/ServiceCa/Bundles.antt =====
-- When the CA bundle is written again: simulator/src/service_ca.rs, `reconcile_configmap` and the
-- reconcilers of the two kinds of webhook configuration.
use picoshift.Prelude.{
  ℕ, String, ◌≡◌, ◌≢◌, refl, ap, ◌∙◌, ◌⊎◌, inl, inr, Bool, true, false, not, ◌&&◌, Option, none,
  some, List, [], ◌∷◌, arith, if◌then◌else◌, ◌==◌, eq_iff, eq_refl, Bool-cases,
}
use picoshift.Prelude.Options.{◌>>=◌ as then_some, unwrap_or, or_else}
use picoshift.Prelude.Maps.{lookup}
use picoshift.Prelude.Text.Bytes.{as_bytes, same_bytes}
use picoshift.Prelude.Text.Trim.{trim, is_nil as is_empty}
use picoshift.Json.{str_in}
use picoshift.Json.Interface.{Serde}
use picoshift.Kube.{ok, await_change, pure, send, then-eq-ok}
use picoshift.ServiceCa.{
  ConfigMap, WebhookConfiguration, CaState, Call, patch_configmap, Api, target_key, has_ca_key,
  inject_trusted, says_true, is_filled, needs_cabundle_injection, has_ca_key, reconcile_configmap,
  reconcile_mutating_webhook, reconcile_validating_webhook,
}

same_bytes_refl : (bs : List ℕ) → same_bytes bs bs ≡ true
unfolding same_bytes
same_bytes_refl [] = refl
same_bytes_refl (b ∷ bs) = ground (arith, same_bytes_refl bs)

module _ (J : Serde) (encode : List ℕ → String)
    (sign_cert : CaState → List String → Option (String × String)) (ca : CaState)
    (api : Api J) where
  abbrev held : ConfigMap → String → Option String
  held cm k = then_some cm.data_ (lookup k)

  abbrev is_of : ConfigMap → String → String → Bool
  is_of cm ns name = (ns == unwrap_or cm.namespace "") && (name == cm.name_any)

  -- What a ConfigMap has after the calls, the last first: a patch of it sets the texts of its data.
  abbrev held_after : ConfigMap → List (Call J) → String → Option String
  held_after cm [] k = held cm k
  held_after cm (patch_configmap ns name p ∷ log) k =
      let before = held_after cm log k in
      if is_of cm ns name then or_else (str_in J p ("data" ∷ k ∷ [])) before else before
  held_after cm (c ∷ log) k = held_after cm log k

  -- The ConfigMap as the server has it after the calls.
  pub record IsAfter (cm : ConfigMap) (log : List (Call J)) (cm' : ConfigMap) : Type 0 where
    pub same_labels : cm'.labels ≡ cm.labels
    pub same_annotations : cm'.annotations ≡ cm.annotations
    pub data_after : (k : String) → held cm' k ≡ held_after cm log k

  -- The key that a ConfigMap asks for: its label decides, and without it its annotation.
  abbrev pub IsWanted : ConfigMap → String → Type 0
  IsWanted cm key =
      let label = then_some cm.labels (lookup "config.openshift.io/inject-trusted-cabundle") in
      let annotation =
        then_some cm.annotations (lookup "service.beta.openshift.io/inject-cabundle") in
      (label ≡ some "true") × (key ≡ "odh-ca-bundle.crt")
      ⊎ (label ≢ some "true") × (annotation ≡ some "true") × (key ≡ "service-ca.crt")

  says_true_lem : (o : Option String) → o ≢ some "true" → says_true o ≡ false
  says_true_lem none h = refl
  says_true_lem (some v) h = ground (arith, eq_iff v "true")

  wanted_key :
      (cm : ConfigMap) (key : String)
      → IsWanted cm key
      → ((not (needs_cabundle_injection cm.annotations)
            && not (inject_trusted J encode sign_cert ca api cm))
          ≡ false)
        × (target_key J encode sign_cert ca api cm ≡ key)
  wanted_key cm key (inl (label, e)) =
      let yes : inject_trusted J encode sign_cert ca api cm ≡ true = rw label refl in
      (ground (arith, yes), ground (arith, yes, e))
  wanted_key cm key (inr (label, annotation, e)) =
      let no : inject_trusted J encode sign_cert ca api cm ≡ false = says_true_lem _ label in
      let yes : needs_cabundle_injection cm.annotations ≡ true = rw annotation refl in
      (ground (arith, yes), ground (arith, no, e))

  filled-settled :
      (cm : ConfigMap) (key : String) (log : List (Call J))
      → IsWanted cm key
      → is_filled (held cm key) ≡ true
      → reconcile_configmap J encode sign_cert ca api cm log ≡ (ok await_change, log)
  unfolding reconcile_configmap
  filled-settled cm key log wanted filled =
      let (asks, same) = wanted_key cm key wanted in
      let has : has_ca_key J encode sign_cert ca api cm ≡ true = rw same filled in
      rw (reconcile_configmap, asks, has) refl

  abbrev patch_of : String → J.Value
  patch_of key = J.obj (("data", J.obj ((key, J.str ca.ca_cert_pem) ∷ [])) ∷ [])

  unfilled-patched :
      (cm : ConfigMap) (key : String) (log : List (Call J))
      → IsWanted cm key
      → is_filled (held cm key) ≡ false
      → (reconcile_configmap J encode sign_cert ca api cm log).0 ≡ ok await_change
      → (reconcile_configmap J encode sign_cert ca api cm log).1
        ≡ patch_configmap (unwrap_or cm.namespace "") cm.name_any (patch_of key) ∷ log
  unfolding reconcile_configmap
  unfilled-patched cm key log wanted empty h =
      let (asks, same) = wanted_key cm key wanted in
      let lacks : has_ca_key J encode sign_cert ca api cm ≡ false = rw same empty in
      let c = patch_configmap (unwrap_or cm.namespace "") cm.name_any (patch_of key) in
      let (a, sent, _, e) =
        then-eq-ok (send c (λ log. api.answer log c)) (pure await_change) log
          (rw (reconcile_configmap, asks, lacks, same) at h) in
      rw (reconcile_configmap, asks, lacks, same) (ap (λ r. r.1) e)

  held_after-patch :
      (cm : ConfigMap) (key k : String)
      → held_after cm
          (patch_configmap (unwrap_or cm.namespace "") cm.name_any (patch_of key) ∷ [])
          k
        ≡ (if key == k then some ca.ca_cert_pem else held cm k)
  unfolding lookup
  held_after-patch cm key k =
      let inner = (key, J.str ca.ca_cert_pem) ∷ [] in
      let own = eq_refl (unwrap_or cm.namespace "") in
      let named = eq_refl cm.name_any in
      let outer = J.get-obj (("data", J.obj inner) ∷ []) "data" in
      elim (Bool-cases (key == k)) [
        | inl e ↦ rw (own, named, outer, J.get-obj inner k, e, J.as_str-str ca.ca_cert_pem) refl
        | inr e ↦ rw (own, named, outer, J.get-obj inner k, e) refl
      ]

  either_way :
      (b : Bool) (log : List (Call J))
      → (if b then pure {Call = Call J} await_change else pure await_change) log
        ≡ (ok await_change, log)
  either_way true log = refl
  either_way false log = refl

  again :
      (cm cm' : ConfigMap) (key : String) {log : List (Call J)}
      → IsAfter cm log cm'
      → IsWanted cm key
      → IsWanted cm' key
  again cm cm' key after wanted = rw (after.same_labels, after.same_annotations) wanted

  -- A run for a ConfigMap that asks for the bundle, if it meets no error, sets the key that its label
  -- or its annotation asks for to the certificate of the CA where it is missing or blank, and changes
  -- no other key; if the certificate is not blank, the next run makes no call.
  pub reconcile_configmap-IsAfter :
      (cm cm' : ConfigMap) (key : String) (log : List (Call J))
      → IsWanted cm key
      → is_empty (trim ca.ca_cert_pem) ≡ false
      → (reconcile_configmap J encode sign_cert ca api cm []).0 ≡ ok await_change
      → IsAfter cm (reconcile_configmap J encode sign_cert ca api cm []).1 cm'
      → ((k : String)
          → held cm' k ≡ (
              if (key == k) && not (is_filled (held cm key))
              then some ca.ca_cert_pem
              else held cm k))
        × (reconcile_configmap J encode sign_cert ca api cm' log ≡ (ok await_change, log))
  unfolding reconcile_configmap
  reconcile_configmap-IsAfter cm cm' key log wanted full h after =
      elim (Bool-cases (is_filled (held cm key))) [
        | inl filled ↦
            let still = ap (λ r. r.1) (filled-settled cm key [] wanted filled) in
            let same : ((k : String) → held cm' k ≡ held cm k) =
              λ k. after.data_after k ∙ ap (λ l. held_after cm l k) still in
            (
              (λ k. same k ∙ ground (arith, filled)),
              filled-settled cm' key log (again cm cm' key after wanted)
                  (ap is_filled (same key) ∙ filled),
            )
        | inr empty ↦
            let sent = unfilled-patched cm key [] wanted empty h in
            let set : ((k : String)
                → held cm' k ≡ (if key == k then some ca.ca_cert_pem else held cm k)) =
              λ k.
                after.data_after k ∙ ap (λ l. held_after cm l k) sent ∙ held_after-patch cm key k in
            (
              (λ k. set k ∙ ground (arith, empty)),
              filled-settled cm' key log (again cm cm' key after wanted)
                  (ap is_filled (set key) ∙ ground (arith, eq_refl key, full)),
            )
      ]

  -- A configuration that asks for the bundle and whose first webhook has it gets no patch, whatever
  -- the other webhooks have.
  pub reconcile_webhook-first :
      (c : WebhookConfiguration) (whs : List (Option (List ℕ))) (log : List (Call J))
      → c.webhooks ≡ some (some (as_bytes ca.ca_cert_pem) ∷ whs)
      → (reconcile_mutating_webhook J encode sign_cert ca api c log ≡ (ok await_change, log))
        × (reconcile_validating_webhook J encode sign_cert ca api c log ≡ (ok await_change, log))
  unfolding reconcile_mutating_webhook reconcile_validating_webhook
  reconcile_webhook-first c whs log e = (
    rw (reconcile_mutating_webhook, e, same_bytes_refl (as_bytes ca.ca_cert_pem)) (either_way _ _),
    rw (reconcile_validating_webhook, e, same_bytes_refl (as_bytes ca.ca_cert_pem))
        (either_way _ _),
  )
