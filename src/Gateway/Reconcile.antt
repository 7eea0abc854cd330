-- ===== src/Gateway/Reconcile.antt =====
-- The reconcilers of the gateway controller, simulator/src/gateway.rs, over the calls that they send
-- to the API server.
pub mod Classes
pub mod Ready
mod Tests
use picoshift.Prelude.{
  ℕ, String, Bool, true, false, not, ◌&&◌, ◌==◌, Option, none, some, List, [], ◌∷◌, ◌++◌, any,
  if◌then◌else◌,
}
use picoshift.Prelude.Options.{unwrap_or}
use picoshift.Prelude.Text.Replace.{format}
use picoshift.Json.{str_in, array_in, is_text}
use picoshift.Json.Interface.{Serde}
use picoshift.Kube.{
  DynamicObject, Result, ok, err, Action, await_change, requeue, Exec, pure, send, ◌>>=◌, ◌>>◌,
  attempt,
}
use picoshift.Gateway.{
  HttpRouteRule, extract_listener_hostname, extract_tls_ports, references_our_gateway, all_rules,
  generate_rds_yaml, generate_cds_yaml,
}
use picoshift.Gateway.Envoy.{generate_lds_yaml}
use picoshift.Gateway.Workload.{
  ConfigMap, Deployment, Service, bootstrap_configmap, xds_configmap, envoy_deployment,
  envoy_service,
}

abbrev pub gateway_ns : String
gateway_ns = "openshift-ingress"

abbrev pub gateway_class_name : String
gateway_class_name = "data-science-gateway-class"

abbrev pub gateway_name : String
gateway_name = "data-science-gateway"

unfoldable pub service_full_name : String → String → String
service_full_name name class_name = format (name ∷ "-" ∷ class_name ∷ [])

pub data Call (J : Serde) : Type 0 where
  get_configmap get_deployment get_service : (ns name : String) → Call J
  create_configmap : ConfigMap → Call J
  create_deployment : Deployment → Call J
  create_service : Service → Call J
  list_routes : Call J
  list_destination_rules : (ns : String) → Call J
  get_gateway : (ns name : String) → Call J
  patch_configmap : (ns name : String) → J.Value → Call J
  patch_class_status : (name : String) → J.Value → Call J
  patch_gateway_status : (ns name : String) → J.Value → Call J

-- What the API server answers after the calls before: whether an object is there, the lists, the
-- Gateway, and the writes.
pub record Api (J : Serde) : Type 0 where
  pub is_there : List (Call J) → Call J → Result Bool
  pub routes : List (Call J) → Result (List (DynamicObject J))
  pub destination_rules : List (Call J) → String → Result (List (DynamicObject J))
  pub gateway : List (Call J) → String → String → Result (Option (DynamicObject J))
  pub answer : List (Call J) → Call J → Result (Unit {0})

module _ (J : Serde) where
  open J use {Value, str, num, arr, obj}

  abbrev controller_name : String
  controller_name = "openshift.io/gateway-controller/v1"

  unfoldable pub is_our_gateway_class : DynamicObject J → Bool
  is_our_gateway_class gc =
      is_text J (str_in J gc.value ("spec" ∷ "controllerName" ∷ [])) controller_name

  abbrev pub accepts : Value → Bool
  accepts cond =
      is_text J (str_in J cond ("type" ∷ [])) "Accepted"
      && is_text J (str_in J cond ("status" ∷ [])) "True"

  unfoldable pub is_gateway_class_accepted : DynamicObject J → Bool
  is_gateway_class_accepted gc =
      any accepts (unwrap_or (array_in J gc.value ("status" ∷ "conditions" ∷ [])) [])

  unfoldable pub is_gateway_accepted : DynamicObject J → Bool
  is_gateway_accepted gw =
      any accepts (unwrap_or (array_in J gw.value ("status" ∷ "conditions" ∷ [])) [])

  unfoldable pub condition : String → String → String → ℕ → Value
  condition type_ message now generation = obj (
      ("type", str type_)
      ∷ ("status", str "True")
      ∷ ("reason", str type_)
      ∷ ("message", str message)
      ∷ ("lastTransitionTime", str now)
      ∷ ("observedGeneration", num generation)
      ∷ [])

  unfoldable pub class_status : String → ℕ → Value
  class_status now generation =
      let conditions =
        arr (condition "Accepted" "GatewayClass accepted by ocp-sim" now generation ∷ []) in
      obj (("status", obj (("conditions", conditions) ∷ [])) ∷ [])

  unfoldable pub listener_status : String → ℕ → Value
  listener_status now generation =
      let kind =
        obj (("group", str "gateway.networking.k8s.io") ∷ ("kind", str "HTTPRoute") ∷ []) in
      let accepted = obj (
        ("type", str "Accepted")
        ∷ ("status", str "True")
        ∷ ("reason", str "Accepted")
        ∷ ("lastTransitionTime", str now)
        ∷ ("observedGeneration", num generation)
        ∷ []) in
      obj (
        ("name", str "https")
        ∷ ("supportedKinds", arr (kind ∷ []))
        ∷ ("attachedRoutes", num 0)
        ∷ ("conditions", arr (accepted ∷ []))
        ∷ [])

  unfoldable pub gateway_status : String → ℕ → Value
  gateway_status now generation =
      let conditions = arr (
        condition "Accepted" "Gateway accepted by ocp-sim" now generation
        ∷ condition "Programmed" "Envoy configured by ocp-sim" now generation
        ∷ []) in
      let status = obj (
        ("conditions", conditions)
        ∷ ("listeners", arr (listener_status now generation ∷ []))
        ∷ []) in
      obj (("status", status) ∷ [])

  unfoldable pub xds_patch : String → List HttpRouteRule → List ℕ → Value
  xds_patch hostname rules tls_ports =
      let data_ = obj (
        ("lds.yaml", str (generate_lds_yaml hostname))
        ∷ ("rds.yaml", str (generate_rds_yaml hostname rules))
        ∷ ("cds.yaml", str (generate_cds_yaml rules tls_ports))
        ∷ []) in
      obj (("data", data_) ∷ [])

  unfoldable pub ports_of : List (DynamicObject J) → List ℕ
  ports_of [] = []
  ports_of (dr ∷ drs) = extract_tls_ports J dr ++ ports_of drs

  -- The ports of a list that may have failed, which then has none.
  abbrev pub listed_ports : Result (List (DynamicObject J)) → List ℕ
  listed_ports (ok drs) = ports_of drs
  listed_ports (err e) = []

  abbrev pub hostname_of : DynamicObject J → String
  hostname_of gw = unwrap_or (extract_listener_hostname J gw) ""

  abbrev pub hostname_or_empty : Option (DynamicObject J) → String
  hostname_or_empty none = ""
  hostname_or_empty (some gw) = hostname_of gw

  module _ (api : Api J) where
    abbrev act : Call J → Exec (Call J) (Unit {0})
    act c = send c (λ log. api.answer log c)

    abbrev done : Exec (Call J) Action
    done = pure await_change

    unfoldable pub reconcile_gateway_class : DynamicObject J → String → Exec (Call J) Action
    reconcile_gateway_class gc now =
        let accept =
          act (patch_class_status gc.name_any (class_status now (unwrap_or gc.generation 0)))
          >> done in
        if not (is_our_gateway_class gc)
        then done
        else if is_gateway_class_accepted gc
        then done
        else accept

    -- An object is created where `get_opt` finds none.
    unfoldable pub ensure : Call J → Call J → Exec (Call J) (Unit {0})
    ensure look create =
        send look (λ log. api.is_there log look) >>= λ there. if there then pure tt else act create

    unfoldable pub ensure_envoy_configmaps : String → String → Exec (Call J) (Unit {0})
    ensure_envoy_configmaps ns hostname =
        ensure (get_configmap ns "envoy-bootstrap") (create_configmap (bootstrap_configmap ns))
        >> ensure (get_configmap ns "envoy-xds-config")
            (create_configmap (xds_configmap ns hostname))

    unfoldable pub ensure_envoy_deployment : String → String → Exec (Call J) (Unit {0})
    ensure_envoy_deployment ns name =
        ensure (get_deployment ns name) (create_deployment (envoy_deployment ns name))

    unfoldable pub ensure_envoy_service : String → String → Exec (Call J) (Unit {0})
    ensure_envoy_service ns svc_name =
        ensure (get_service ns svc_name) (create_service (envoy_service ns svc_name))

    abbrev pub write_config :
        String
        → String
        → List HttpRouteRule
        → Result (List (DynamicObject J))
        → Exec (Call J) (Unit {0})
    write_config ns hostname rules listed =
        act (patch_configmap ns "envoy-xds-config" (xds_patch hostname rules (listed_ports listed)))

    unfoldable pub sync_httproute_config : String → String → Exec (Call J) (Unit {0})
    sync_httproute_config ns hostname = send list_routes api.routes >>= λ routes.
        attempt (send (list_destination_rules ns) (λ log. api.destination_rules log ns))
          (write_config ns hostname (all_rules J routes))

    unfoldable pub accept_gateway : DynamicObject J → String → Exec (Call J) Action
    accept_gateway gw now =
        let accept =
          act (
            patch_gateway_status (unwrap_or gw.namespace "") gw.name_any
              (gateway_status now (unwrap_or gw.generation 0)))
          >> done in
        if is_gateway_accepted gw then done else accept

    unfoldable pub set_up_gateway : DynamicObject J → String → String → Exec (Call J) Action
    set_up_gateway gw class_name now =
        let ns = unwrap_or gw.namespace "" in
        let hostname = hostname_of gw in
        ensure_envoy_configmaps ns hostname
        >> ensure_envoy_deployment ns gw.name_any
        >> ensure_envoy_service ns (service_full_name gw.name_any class_name)
        >> sync_httproute_config ns hostname
        >> accept_gateway gw now

    abbrev pub class_name_of : DynamicObject J → String
    class_name_of gw = unwrap_or (str_in J gw.value ("spec" ∷ "gatewayClassName" ∷ [])) ""

    unfoldable pub reconcile_gateway : DynamicObject J → String → Exec (Call J) Action
    reconcile_gateway gw now =
        let class_name = class_name_of gw in
        let set_up = set_up_gateway gw class_name now in
        if not (class_name == gateway_class_name) then done else set_up

    -- What the reconcilers of HTTPRoutes and DestinationRules share.
    unfoldable pub sync_gateway : Exec (Call J) Action
    sync_gateway =
        send (get_gateway gateway_ns gateway_name) (λ log. api.gateway log gateway_ns gateway_name)
        >>= (λ gw. sync_httproute_config gateway_ns (hostname_or_empty gw))
        >> done

    unfoldable pub reconcile_httproute : DynamicObject J → Exec (Call J) Action
    reconcile_httproute route = if not (references_our_gateway J route) then done else sync_gateway

    unfoldable pub reconcile_destination_rule : DynamicObject J → Exec (Call J) Action
    reconcile_destination_rule dr = sync_gateway
