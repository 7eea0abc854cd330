-- ===== src/Gateway/Reconcile/Tests.antt =====
-- Runs of the gateway's reconcilers at concrete inputs.
use picoshift.Prelude.{◌≡◌, refl, true, false, Option, none, some, [], ◌∷◌}
use picoshift.Prelude.Maps.{lookup}
use picoshift.Json.Tree.{Tree, text, object, field, end, array, cons, nil, tree_serde}
use picoshift.Kube.{DynamicObject, ok, err, other, await_change}
use picoshift.Gateway.{references_our_gateway}
use picoshift.Gateway.Reconcile.{
  Api, class_status, gateway_name, gateway_ns, get_gateway, hostname_or_empty, reconcile_gateway,
  reconcile_httproute, set_up_gateway, ensure, ensure_envoy_configmaps, ensure_envoy_deployment,
  ensure_envoy_service, sync_httproute_config, accept_gateway, sync_gateway, is_gateway_accepted,
}
use picoshift.Gateway.Reconcile.Ready.{
  IsReady, IsSynced, reconcile_gateway-IsReady, reconcile_httproute-IsSynced,
}

abbrev object_of : Tree → DynamicObject tree_serde
object_of v = record {
  name_any = "g";
  namespace = some "ns";
  uid = none;
  generation = none;
  labels = none;
  value = v;
}

abbrev gateway : DynamicObject tree_serde
gateway = object_of (
    object (
      field "spec" (object (field "gatewayClassName" (text "data-science-gateway-class") end)) end))

abbrev route : DynamicObject tree_serde
route = object_of (
    object (
      field "spec"
        (object (
          field "parentRefs"
            (array (cons (object (field "name" (text "data-science-gateway") end)) nil)) end))
        end))

-- Nothing is there, and the DestinationRules cannot be listed.
abbrev api : Api tree_serde
api = record {
  is_there = λ log c. ok false;
  routes = λ log. ok (route ∷ []);
  destination_rules = λ log ns. err (other "not installed");
  gateway = λ log ns name. ok none;
  answer = λ log c. ok tt;
}

abbrev accepted_class : DynamicObject tree_serde
accepted_class = object_of (class_status tree_serde "now" 0)

gateway_runs : (reconcile_gateway tree_serde api gateway "now" []).0 ≡ ok await_change
unfolding reconcile_gateway set_up_gateway ensure ensure_envoy_configmaps ensure_envoy_deployment
    ensure_envoy_service sync_httproute_config accept_gateway is_gateway_accepted lookup
gateway_runs = refl

reconcile_gateway-IsReady_example :
    IsReady tree_serde api gateway "ns" "now" []
      (reconcile_gateway tree_serde api gateway "now" []).1
reconcile_gateway-IsReady_example =
    reconcile_gateway-IsReady tree_serde api gateway "now" [] await_change refl gateway_runs

names_gateway : references_our_gateway tree_serde route ≡ true
unfolding references_our_gateway
names_gateway = refl

route_runs : (reconcile_httproute tree_serde api route []).0 ≡ ok await_change
unfolding reconcile_httproute references_our_gateway sync_gateway sync_httproute_config
route_runs = refl

reconcile_httproute-IsSynced_example :
    (gw : Option (DynamicObject tree_serde)) × (api.gateway [] gateway_ns gateway_name ≡ ok gw)
    × IsSynced tree_serde api gateway_ns
        (hostname_or_empty tree_serde gw)
        (get_gateway gateway_ns gateway_name ∷ [])
        (reconcile_httproute tree_serde api route []).1
reconcile_httproute-IsSynced_example =
    reconcile_httproute-IsSynced tree_serde api route [] await_change names_gateway route_runs
