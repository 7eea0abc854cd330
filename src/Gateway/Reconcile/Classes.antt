-- ===== src/Gateway/Reconcile/Classes.antt =====
-- Once a GatewayClass or a Gateway has the status that the controller writes, no more is written.
use picoshift.Prelude.{ℕ, String, ◌≡◌, refl, ◌∙◌, true, some, List, [], ◌∷◌, eq_refl, arith}
use picoshift.Prelude.Maps.{lookup}
use picoshift.Prelude.Options.{unwrap_or}
use picoshift.Json.{array_in}
use picoshift.Json.Interface.{Serde}
use picoshift.Kube.{DynamicObject, ok, await_change}
use picoshift.Gateway.Reconcile.{
  Call, Api, accepts, condition, class_status, gateway_status, is_gateway_class_accepted,
  is_gateway_accepted, reconcile_gateway_class, accept_gateway,
}

module _ (J : Serde) where
  -- The conditions of the object are those of a status that was written: a merge patch replaces
  -- arrays.
  abbrev pub HasConditions : DynamicObject J → J.Value → Type 0
  HasConditions o status =
      array_in J o.value ("status" ∷ "conditions" ∷ [])
      ≡ array_in J status ("status" ∷ "conditions" ∷ [])

  class_conditions :
      (now : String) (generation : ℕ)
      → array_in J (class_status J now generation) ("status" ∷ "conditions" ∷ [])
        ≡ some (condition J "Accepted" "GatewayClass accepted by ocp-sim" now generation ∷ [])
  unfolding class_status lookup
  class_conditions now generation = simp (J.get-obj, J.as_array-arr)

  gateway_conditions :
      (now : String) (generation : ℕ)
      → array_in J (gateway_status J now generation) ("status" ∷ "conditions" ∷ [])
        ≡ some (
            condition J "Accepted" "Gateway accepted by ocp-sim" now generation
            ∷ condition J "Programmed" "Envoy configured by ocp-sim" now generation
            ∷ [])
  unfolding gateway_status lookup
  gateway_conditions now generation = simp (J.get-obj, J.as_array-arr)

  accepts-condition :
      (message now : String) (generation : ℕ)
      → accepts J (condition J "Accepted" message now generation) ≡ true
  unfolding condition lookup
  accepts-condition message now generation =
      simp (J.get-obj, J.as_str-str, eq_refl "Accepted", eq_refl "True")

  -- Once the conditions that the controller writes are those of the object, a further run for the
  -- GatewayClass sends nothing, and a further run for the Gateway writes no status.
  reconcile_gateway_class-settled :
      (api : Api J) (gc gc' : DynamicObject J) (now later : String) (log : List (Call J))
      → HasConditions gc' (class_status J now (unwrap_or gc.generation 0))
      → reconcile_gateway_class J api gc' later log ≡ (ok await_change, log)
  unfolding reconcile_gateway_class is_gateway_class_accepted
  reconcile_gateway_class-settled api gc gc' now later log h =
      let e = h ∙ class_conditions now (unwrap_or gc.generation 0) in
      let accepted : is_gateway_class_accepted J gc' ≡ true =
        rw
          (
            is_gateway_class_accepted,
            e,
            accepts-condition "GatewayClass accepted by ocp-sim" now (unwrap_or gc.generation 0),
          )
          refl in
      ground (arith, accepted)

  accept_gateway-settled :
      (api : Api J) (gw gw' : DynamicObject J) (now later : String) (log : List (Call J))
      → HasConditions gw' (gateway_status J now (unwrap_or gw.generation 0))
      → accept_gateway J api gw' later log ≡ (ok await_change, log)
  unfolding accept_gateway is_gateway_accepted
  accept_gateway-settled api gw gw' now later log h =
      let e = h ∙ gateway_conditions now (unwrap_or gw.generation 0) in
      rw
        (
          accept_gateway,
          is_gateway_accepted,
          e,
          accepts-condition "Gateway accepted by ocp-sim" now (unwrap_or gw.generation 0),
        )
        refl
