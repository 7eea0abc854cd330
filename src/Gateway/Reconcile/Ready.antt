-- ===== src/Gateway/Reconcile/Ready.antt =====
-- What a run of the gateway's reconcilers leaves behind: the objects of the Envoy, and the
-- configuration of the routes that name the gateway.
use picoshift.Prelude.{
  String, ◌≡◌, refl, sym, ap, ◌∙◌, ◌⊎◌, inl, inr, true, false, Bool, Option, List, ◌∷◌, Bool-cases,
  if◌then◌else◌,
}
use picoshift.Prelude.Options.{unwrap_or}
use picoshift.Json.Interface.{Serde}
use picoshift.Kube.{
  DynamicObject, ok, Action, await_change, Exec, pure, send, ◌>>=◌, ◌>>◌, >>=-eq-ok, then-eq-ok,
}
use picoshift.Gateway.{references_our_gateway, all_rules}
use picoshift.Gateway.Workload.{bootstrap_configmap, xds_configmap, envoy_deployment, envoy_service}
use picoshift.Gateway.Reconcile.{
  gateway_class_name, gateway_ns, gateway_name, service_full_name, Call, Api, get_configmap,
  get_deployment, get_service, create_configmap, create_deployment, create_service, list_routes,
  list_destination_rules, get_gateway, patch_configmap, patch_gateway_status, is_gateway_accepted,
  gateway_status, xds_patch, listed_ports, hostname_of, hostname_or_empty, class_name_of, ensure,
  ensure_envoy_configmaps, ensure_envoy_deployment, ensure_envoy_service, sync_httproute_config,
  accept_gateway, set_up_gateway, reconcile_gateway, sync_gateway, reconcile_httproute,
}

module _ (J : Serde) (api : Api J) where
  -- The object was there and nothing was written, or it was not and its creation was accepted.
  abbrev pub IsEnsured : Call J → Call J → List (Call J) → List (Call J) → Type 0
  IsEnsured look create log log' =
      (api.is_there log look ≡ ok true) × (log' ≡ look ∷ log)
      ⊎ (api.is_there log look ≡ ok false)
        × (api.answer (look ∷ log) create ≡ ok tt)
        × (log' ≡ create ∷ look ∷ log)

  -- The configuration that was written is that of all routes that name the gateway, with the TLS
  -- ports of the DestinationRules that could be listed.
  pub record IsSynced (ns hostname : String) (log log' : List (Call J)) : Type 0 where
    pub routes : List (DynamicObject J)
    pub listed : api.routes log ≡ ok routes
    pub written :
        log'
        ≡ patch_configmap ns "envoy-xds-config" (
            xds_patch J hostname
              (all_rules J routes)
              (listed_ports J (api.destination_rules (list_routes ∷ log) ns)))
          ∷ list_destination_rules ns
          ∷ list_routes
          ∷ log

  -- What `ensure` does with the answer of `get_opt`.
  abbrev unless_there : Call J → Bool → Exec (Call J) (Unit {0})
  unless_there create there = if there then pure tt else send create (λ log. api.answer log create)

  unless_there-IsEnsured :
      (look create : Call J) (log : List (Call J)) (there : Bool) {a : Unit {0}}
      → api.is_there log look ≡ ok there
      → (unless_there create there (look ∷ log)).0 ≡ ok a
      → IsEnsured look create log (unless_there create there (look ∷ log)).1
  unless_there-IsEnsured look create log true e h = inl (e, refl)
  unless_there-IsEnsured look create log false e h = inr (e, h, refl)

  module _ {A B : Type 0} where
    -- The second of two actions that succeed has done what it does whenever it succeeds.
    then-also :
        (P : List (Call J) → List (Call J) → Type 0) (m : Exec (Call J) A) (k : Exec (Call J) B)
        (log : List (Call J)) {b : B}
        → ((m >> k) log).0 ≡ ok b
        → ((l : List (Call J)) → (k l).0 ≡ ok b → P l (k l).1)
        → ((a : A) × ((m log).0 ≡ ok a)) × P (m log).1 ((m >> k) log).1
    then-also P m k log h does =
        let (a, first, second, e) = then-eq-ok m k log h in
        ((a, first), rw (ap (λ r. r.1) e) (does (m log).1 second))

  ensure-IsEnsured :
      (look create : Call J) (log : List (Call J)) {a : Unit {0}}
      → (ensure J api look create log).0 ≡ ok a
      → IsEnsured look create log (ensure J api look create log).1
  unfolding ensure
  ensure-IsEnsured look create log h =
      let (there, asked, e) =
        >>=-eq-ok (send look (λ l. api.is_there l look)) (unless_there create) log h in
      rw e (unless_there-IsEnsured look create log there asked (sym (ap (λ r. r.0) e) ∙ h))

  sync-IsSynced :
      (ns hostname : String) (log : List (Call J)) {a : Unit {0}}
      → (sync_httproute_config J api ns hostname log).0 ≡ ok a
      → IsSynced ns hostname log (sync_httproute_config J api ns hostname log).1
  unfolding sync_httproute_config
  sync-IsSynced ns hostname log h =
      let (routes, listed, e) = >>=-eq-ok (send list_routes api.routes) _ log h in
      record { routes = routes; listed = listed; written = ap (λ r. r.1) e }

  -- The Gateway was accepted and nothing was written, or its status is.
  abbrev pub IsAccepted : DynamicObject J → String → String → List (Call J) → List (Call J) → Type 0
  IsAccepted gw ns now log log' =
      (is_gateway_accepted J gw ≡ true) × (log' ≡ log)
      ⊎ (is_gateway_accepted J gw ≡ false)
        × (log'
            ≡ patch_gateway_status ns gw.name_any (gateway_status J now (unwrap_or gw.generation 0))
              ∷ log)

  -- The four objects are there, in the order in which they are created, the configuration is written
  -- after them, and the status of the Gateway last, if it was not accepted already.
  pub record IsReady (gw : DynamicObject J) (ns now : String) (log log' : List (Call J))
      : Type 0 where
    pub after_bootstrap : List (Call J)
    pub after_xds : List (Call J)
    pub after_deployment : List (Call J)
    pub after_service : List (Call J)
    pub after_sync : List (Call J)
    pub bootstrap :
        IsEnsured
          (get_configmap ns "envoy-bootstrap")
          (create_configmap (bootstrap_configmap ns))
          log
          after_bootstrap
    pub xds :
        IsEnsured
          (get_configmap ns "envoy-xds-config")
          (create_configmap (xds_configmap ns (hostname_of J gw)))
          after_bootstrap
          after_xds
    pub deployment :
        IsEnsured
          (get_deployment ns gw.name_any)
          (create_deployment (envoy_deployment ns gw.name_any))
          after_xds
          after_deployment
    pub service :
        IsEnsured
          (get_service ns (service_full_name gw.name_any gateway_class_name))
          (create_service (envoy_service ns (service_full_name gw.name_any gateway_class_name)))
          after_deployment
          after_service
    pub synced : IsSynced ns (hostname_of J gw) after_service after_sync
    pub accepted : IsAccepted gw ns now after_sync log'

  IsAccepted-log :
      (gw : DynamicObject J) (now : String) (log : List (Call J)) {a : Action}
      → (accept_gateway J api gw now log).0 ≡ ok a
      → IsAccepted gw (unwrap_or gw.namespace "") now log (accept_gateway J api gw now log).1
  unfolding accept_gateway
  IsAccepted-log gw now log h = elim (Bool-cases (is_gateway_accepted J gw)) [
    | inl yet ↦ inl (yet, rw (accept_gateway, yet) refl)
    | inr fresh ↦
        let c =
          patch_gateway_status (unwrap_or gw.namespace "") gw.name_any
            (gateway_status J now (unwrap_or gw.generation 0)) in
        let (a', sent, here, e) =
          then-eq-ok (send c (λ l. api.answer l c)) (pure await_change) log
            (rw (accept_gateway, fresh) at h) in
        inr (fresh, rw (accept_gateway, fresh) (ap (λ r. r.1) e))
  ]

  set_up_gateway-IsReady :
      (gw : DynamicObject J) (now : String) (log : List (Call J)) {a : Action}
      → (set_up_gateway J api gw gateway_class_name now log).0 ≡ ok a
      → IsReady gw
          (unwrap_or gw.namespace "")
          now
          log
          (set_up_gateway J api gw gateway_class_name now log).1
  unfolding set_up_gateway ensure_envoy_configmaps ensure_envoy_deployment ensure_envoy_service
  set_up_gateway-IsReady gw now log h =
      let ns = unwrap_or gw.namespace "" in
      let configmaps = ensure_envoy_configmaps J api ns (hostname_of J gw) in
      let deployment = ensure_envoy_deployment J api ns gw.name_any in
      let service =
        ensure_envoy_service J api ns (service_full_name gw.name_any gateway_class_name) in
      let sync = sync_httproute_config J api ns (hostname_of J gw) in
      let svc_name = service_full_name gw.name_any gateway_class_name in
      let look_bootstrap = get_configmap ns "envoy-bootstrap" in
      let look_xds = get_configmap ns "envoy-xds-config" in
      let look_deployment = get_deployment ns gw.name_any in
      let look_service = get_service ns svc_name in
      let new_bootstrap = create_configmap (bootstrap_configmap ns) in
      let new_xds = create_configmap (xds_configmap ns (hostname_of J gw)) in
      let new_deployment = create_deployment (envoy_deployment ns gw.name_any) in
      let new_service = create_service (envoy_service ns svc_name) in
      let bootstrap = ensure J api look_bootstrap new_bootstrap in
      let ((a1, h1), accepted) =
        then-also (IsAccepted gw ns now) (configmaps >> deployment >> service >> sync)
          (accept_gateway J api gw now) log h (λ l. IsAccepted-log gw now l) in
      let ((a2, h2), synced) =
        then-also (IsSynced ns (hostname_of J gw)) (configmaps >> deployment >> service) sync log h1
          (λ l. sync-IsSynced ns (hostname_of J gw) l) in
      let ((a3, h3), served) =
        then-also (IsEnsured look_service new_service) (configmaps >> deployment) service log h2
          (λ l. ensure-IsEnsured look_service new_service l) in
      let ((a4, h4), deployed) =
        then-also (IsEnsured look_deployment new_deployment) configmaps deployment log h3
          (λ l. ensure-IsEnsured look_deployment new_deployment l) in
      let ((a5, h5), configured) =
        then-also (IsEnsured look_xds new_xds) bootstrap (ensure J api look_xds new_xds) log h4
          (λ l. ensure-IsEnsured look_xds new_xds l) in
      record {
        after_bootstrap = (bootstrap log).1;
        after_xds = (configmaps log).1;
        after_deployment = ((configmaps >> deployment) log).1;
        after_service = ((configmaps >> deployment >> service) log).1;
        after_sync = ((configmaps >> deployment >> service >> sync) log).1;
        bootstrap = ensure-IsEnsured look_bootstrap new_bootstrap log h5;
        xds = configured;
        deployment = deployed;
        service = served;
        synced = synced;
        accepted = accepted;
      }

  -- A run for a Gateway of our class that meets no error leaves both ConfigMaps, the Deployment and
  -- the Service there, each found or created, in this order; after them it has written the
  -- configuration of all routes that name the gateway, and last the status, if the Gateway was not
  -- accepted already.
  pub reconcile_gateway-IsReady :
      (gw : DynamicObject J) (now : String) (log : List (Call J)) (a : Action)
      → class_name_of J api gw ≡ gateway_class_name
      → (reconcile_gateway J api gw now log).0 ≡ ok a
      → IsReady gw (unwrap_or gw.namespace "") now log (reconcile_gateway J api gw now log).1
  unfolding reconcile_gateway
  reconcile_gateway-IsReady gw now log a ours h =
      rw (reconcile_gateway, ours)
        (set_up_gateway-IsReady gw now log (rw (reconcile_gateway, ours) at h))

  sync_gateway-IsSynced :
      (log : List (Call J)) {a : Action}
      → (sync_gateway J api log).0 ≡ ok a
      → (gw : Option (DynamicObject J)) × (api.gateway log gateway_ns gateway_name ≡ ok gw)
        × IsSynced gateway_ns
            (hostname_or_empty J gw)
            (get_gateway gateway_ns gateway_name ∷ log)
            (sync_gateway J api log).1
  unfolding sync_gateway
  sync_gateway-IsSynced log h =
      let ask = get_gateway gateway_ns gateway_name in
      let look : Exec (Call J) (Option (DynamicObject J)) =
        send ask (λ l. api.gateway l gateway_ns gateway_name) in
      let sync : Option (DynamicObject J) → Exec (Call J) (Unit {0}) =
        λ gw. sync_httproute_config J api gateway_ns (hostname_or_empty J gw) in
      let (b, first, _, e) = then-eq-ok (look >>= sync) (pure await_change) log h in
      let (gw, found, e') = >>=-eq-ok look sync log first in
      (
        gw,
        found,
        rw (ap (λ r. r.1) e ∙ ap (λ r. r.1) e') (
            sync-IsSynced gateway_ns (hostname_or_empty J gw) (ask ∷ log)
              (sym (ap (λ r. r.0) e') ∙ first)),
      )

  -- A run for an HTTPRoute that names the gateway, if it meets no error, has written the
  -- configuration of all routes that do, under the host name of the Gateway, which is empty where
  -- the Gateway is missing.
  pub reconcile_httproute-IsSynced :
      (route : DynamicObject J) (log : List (Call J)) (a : Action)
      → references_our_gateway J route ≡ true
      → (reconcile_httproute J api route log).0 ≡ ok a
      → (gw : Option (DynamicObject J)) × (api.gateway log gateway_ns gateway_name ≡ ok gw)
        × IsSynced gateway_ns
            (hostname_or_empty J gw)
            (get_gateway gateway_ns gateway_name ∷ log)
            (reconcile_httproute J api route log).1
  unfolding reconcile_httproute
  reconcile_httproute-IsSynced route log a ours h =
      rw (reconcile_httproute, ours)
        (sync_gateway-IsSynced log (rw (reconcile_httproute, ours) at h))
