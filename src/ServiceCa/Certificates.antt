-- ===== src/ServiceCa/Certificates.antt =====
-- What the reconciler of Services leaves behind: simulator/src/service_ca.rs, `reconcile_service`.
use picoshift.Prelude.{
  ℕ, String, ◌≡◌, refl, sym, ap, ◌∙◌, ◌⊎◌, inl, inr, Bool, true, false, Option, none, some, List,
  ◌∷◌, eq_refl, Option-cases, Bool-cases,
}
use picoshift.Prelude.Options.{◌>>=◌ as then_some, unwrap_or}
use picoshift.Prelude.Maps.{lookup}
use picoshift.Json.Interface.{Serde}
use picoshift.Kube.{Result, ok, err, Action, await_change, requeue, pure, >>=-eq-ok}
use picoshift.ServiceCa.{
  Service, Secret, CaState, Call, get_secret, delete_secret, create_secret, Api,
  serving_cert_annotation, has_fingerprint, ca_bundle_base64, cert_names, tls_secret, act,
  issue_cert, replace_secret, reconcile_service,
}

is_await : Result Action → Bool
is_await (ok await_change) = true
is_await (ok (requeue n)) = false
is_await (err e) = false

not_awaiting : ◌≡◌ {A = Result Action} (ok (requeue 30)) (ok await_change) → ⊥
unfolding is_await
not_awaiting h = let bad : false ≡ true = ap is_await h in absurd cc

module _ (J : Serde) (encode : List ℕ → String)
    (sign_cert : CaState → List String → Option (String × String)) (ca : CaState)
    (api : Api J) where
  abbrev fingerprint : String
  fingerprint = ca_bundle_base64 J encode sign_cert ca api

  abbrev pub IsCurrent : Secret → Type 0
  IsCurrent s = has_fingerprint (ca_bundle_base64 J encode sign_cert ca api) s ≡ true

  abbrev pub secret_of : Service → String → String → Secret
  secret_of svc cert key = tls_secret J encode sign_cert ca api svc cert key

  -- The calls of a run that creates a secret for a pair that was signed for the Service's two names:
  -- a secret of another CA is deleted first.
  abbrev pub IsCreated : Service → String → List (Call J) → List (Call J) → Type 0
  IsCreated svc name log log' =
      (cert : String) × (key : String) × (rest : List (Call J)) × (sign_cert ca
          (cert_names J encode sign_cert ca api svc)
        ≡ some (cert, key))
      × (log' ≡ create_secret (unwrap_or svc.namespace "") name (secret_of svc cert key) ∷ rest)
      × ((api.get_opt log (unwrap_or svc.namespace "") name ≡ ok none)
            × (rest ≡ get_secret (unwrap_or svc.namespace "") name ∷ log)
          ⊎ ((old : Secret) × (api.get_opt log (unwrap_or svc.namespace "") name ≡ ok (some old))
              × (has_fingerprint (ca_bundle_base64 J encode sign_cert ca api) old ≡ false)
              × (rest
                  ≡ delete_secret (unwrap_or svc.namespace "") name
                    ∷ get_secret (unwrap_or svc.namespace "") name
                    ∷ log)))

  abbrev create_of : Service → String → String → String → Call J
  create_of svc name cert key =
      create_secret (unwrap_or svc.namespace "") name (secret_of svc cert key)

  issue_cert-created :
      (svc : Service) (name : String) (log : List (Call J))
      → (issue_cert J encode sign_cert ca api svc name log).0 ≡ ok await_change
      → (cert : String) × (key : String) × (sign_cert ca (cert_names J encode sign_cert ca api svc)
          ≡ some (cert, key))
        × ((issue_cert J encode sign_cert ca api svc name log).1
            ≡ create_secret (unwrap_or svc.namespace "") name (secret_of svc cert key) ∷ log)
  unfolding issue_cert
  issue_cert-created svc name log h =
      elim (Option-cases (sign_cert ca (cert_names J encode sign_cert ca api svc))) [
        | inl failed ↦
            let bad : ◌≡◌ {A = Result Action} (ok (requeue 30)) (ok await_change) =
              rw (issue_cert, failed) at h in
            absurd (not_awaiting bad)
        | inr ((cert, key), signed) ↦
            let (u, e, rest) =
              >>=-eq-ok (act J encode sign_cert ca api (create_of svc name cert key))
                (λ _. pure await_change) log (rw (issue_cert, signed) at h) in
            (cert, key, signed, rw (issue_cert, signed) (ap (λ r. r.1) rest))
      ]

  -- What follows each answer of `get_opt`, where it ends well.
  abbrev IsReplaced : Service → String → Option Secret → List (Call J) → List (Call J) → Type 0
  IsReplaced svc name found log log' =
      ((old : Secret) × (found ≡ some old) × IsCurrent old × (log' ≡ log))
      ⊎ ((cert : String) × (key : String) × (rest : List (Call J)) × (sign_cert ca
              (cert_names J encode sign_cert ca api svc)
            ≡ some (cert, key))
          × (log' ≡ create_of svc name cert key ∷ rest)
          × ((found ≡ none) × (rest ≡ log)
              ⊎ ((old : Secret) × (found ≡ some old)
                  × (has_fingerprint (ca_bundle_base64 J encode sign_cert ca api) old ≡ false)
                  × (rest ≡ delete_secret (unwrap_or svc.namespace "") name ∷ log))))

  replace_secret-IsReplaced :
      (svc : Service) (name : String) (found : Option Secret) (log : List (Call J))
      → (replace_secret J encode sign_cert ca api svc name found log).0 ≡ ok await_change
      → IsReplaced svc name found log
          (replace_secret J encode sign_cert ca api svc name found log).1
  unfolding replace_secret
  replace_secret-IsReplaced svc name none log h =
      let (cert, key, signed, e) = issue_cert-created svc name log h in
      inr (cert, key, log, signed, e, inl (refl, refl))
  replace_secret-IsReplaced svc name (some old) log h =
      elim (Bool-cases (has_fingerprint fingerprint old)) [
        | inl fresh ↦ inl (old, refl, fresh, rw (replace_secret, fresh) refl)
        | inr stale ↦
            let (u, _, e) =
              >>=-eq-ok
                (act J encode sign_cert ca api (delete_secret (unwrap_or svc.namespace "") name))
                (λ _. issue_cert J encode sign_cert ca api svc name) log
                (rw (replace_secret, stale) at h) in
            let (cert, key, signed, e') =
              issue_cert-created svc name (delete_secret (unwrap_or svc.namespace "") name ∷ log)
                (ap (λ r. r.0) (sym e) ∙ rw (replace_secret, stale) at h) in
            inr (
              cert,
              key,
              _,
              signed,
              rw (replace_secret, stale) (ap (λ r. r.1) e ∙ e'),
              inr (old, refl, stale, refl),
            )
      ]

  -- A run that ends well on a Service with the annotation has left a current secret alone, or has
  -- created one for a pair signed for the Service's two names, after the deletion of a secret
  -- of another CA where there was one.
  pub reconcile_service-IsCreated :
      (svc : Service) (name : String) (log : List (Call J))
      → then_some svc.annotations (lookup serving_cert_annotation) ≡ some name
      → (reconcile_service J encode sign_cert ca api svc log).0 ≡ ok await_change
      → ((old : Secret) × (api.get_opt log (unwrap_or svc.namespace "") name ≡ ok (some old))
          × IsCurrent old
          × ((reconcile_service J encode sign_cert ca api svc log).1
              ≡ get_secret (unwrap_or svc.namespace "") name ∷ log))
        ⊎ IsCreated svc name log (reconcile_service J encode sign_cert ca api svc log).1
  unfolding reconcile_service replace_secret
  reconcile_service-IsCreated svc name log annotated h =
      let (found, answer, rest) =
        >>=-eq-ok
          (λ l. (
            api.get_opt l (unwrap_or svc.namespace "") name,
            get_secret (unwrap_or svc.namespace "") name ∷ l,
          ))
          (replace_secret J encode sign_cert ca api svc name) log
          (rw (reconcile_service, annotated) at h) in
      let ends : (reconcile_service J encode sign_cert ca api svc log).1
          ≡ (replace_secret J encode sign_cert ca api svc name found
              (get_secret (unwrap_or svc.namespace "") name ∷ log)).1 =
        rw (reconcile_service, annotated) (ap (λ r. r.1) rest) in
      let good : (replace_secret J encode sign_cert ca api svc name found
            (get_secret (unwrap_or svc.namespace "") name ∷ log)).0
          ≡ ok await_change =
        ap (λ r. r.0) (sym rest) ∙ rw (reconcile_service, annotated) at h in
      elim (replace_secret-IsReplaced svc name found
        (get_secret (unwrap_or svc.namespace "") name ∷ log) good) [
          | inl (old, e, fresh, kept) ↦ inl (old, answer ∙ ap ok e, fresh, ends ∙ kept)
          | inr (cert, key, r, signed, e, inl (absent, e')) ↦
              inr (cert, key, r, signed, ends ∙ e, inl (answer ∙ ap ok absent, e'))
          | inr (cert, key, r, signed, e, inr (old, present, stale, e')) ↦
              inr (cert, key, r, signed, ends ∙ e, inr (old, answer ∙ ap ok present, stale, e'))
        ]

  -- A secret that the controller has created is current for the same CA, whatever Service it was
  -- for: the next run on a Service that names it only reads it.
  pub reconcile_service-settled :
      (svc other : Service) (name cert key : String) (log : List (Call J))
      → then_some svc.annotations (lookup serving_cert_annotation) ≡ some name
      → api.get_opt log (unwrap_or svc.namespace "") name ≡ ok (some (secret_of other cert key))
      → reconcile_service J encode sign_cert ca api svc log
        ≡ (ok await_change, get_secret (unwrap_or svc.namespace "") name ∷ log)
  unfolding reconcile_service replace_secret lookup
  reconcile_service-settled svc other name cert key log annotated found =
      rw (reconcile_service, annotated, found, eq_refl fingerprint) refl
