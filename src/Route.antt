-- ===== src/Route.antt =====
-- The Route admission controller, simulator/src/route.rs.
pub mod Admission
use picoshift.Prelude.{
  ℕ, String, Bool, true, false, not, ◌&&◌, Option, none, some, List, [], ◌∷◌, any, ◌==◌,
  if◌then◌else◌,
}
use picoshift.Prelude.Options.{unwrap_or, keep_if}
use picoshift.Prelude.Text.Replace.{format}
use picoshift.Prelude.Text.Trim.{is_nil as is_empty}
use picoshift.Json.{str_in, array_in, is_text}
use picoshift.Json.Interface.{Serde}
use picoshift.Kube.{DynamicObject, Result, Action, await_change, Exec, pure, send, ◌>>=◌}

abbrev pub domain : String
domain = "apps.ocp-sim.test"

module _ (J : Serde) where
  open J use {Value, str, arr, obj}

  abbrev pub is_true_admission : Value → Bool
  is_true_admission c =
      is_text J (str_in J c ("type" ∷ [])) "Admitted"
      && is_text J (str_in J c ("status" ∷ [])) "True"

  abbrev pub admits : Value → Bool
  admits entry = any is_true_admission (unwrap_or (array_in J entry ("conditions" ∷ [])) [])

  unfoldable pub is_admitted : DynamicObject J → Bool
  is_admitted route = any admits (unwrap_or (array_in J route.value ("status" ∷ "ingress" ∷ [])) [])

  unfoldable pub compute_host : DynamicObject J → String
  compute_host route =
      unwrap_or (keep_if (λ h. not (is_empty h)) (str_in J route.value ("spec" ∷ "host" ∷ [])))
        (format (route.name_any ∷ "-" ∷ unwrap_or route.namespace "" ∷ "." ∷ domain ∷ []))

  -- The entry of the router; `status_patch` has the status with this one entry.
  unfoldable pub ingress : String → String → Value
  ingress host now =
      let admitted = obj (
        ("type", str "Admitted") ∷ ("status", str "True") ∷ ("lastTransitionTime", str now) ∷ []) in
      obj (
        ("host", str host)
        ∷ ("routerName", str "default")
        ∷ ("routerCanonicalHostname", str (format ("router-default." ∷ domain ∷ [])))
        ∷ ("conditions", arr (admitted ∷ []))
        ∷ [])

  unfoldable pub status_patch : String → String → Value
  status_patch host now = obj (("status", obj (("ingress", arr (ingress host now ∷ [])) ∷ [])) ∷ [])

  -- The one call: a merge patch of the status.
  pub data Call : Type 0 where
    patch_status : (ns name : String) → Value → Call

  unfoldable pub reconcile_route :
      (List Call → Call → Result (Unit {0})) → DynamicObject J → String → Exec Call Action
  reconcile_route answer route now =
      let c =
        patch_status (unwrap_or route.namespace "") route.name_any
          (status_patch (compute_host route) now) in
      let admit = send c (λ log. answer log c) >>= λ _. pure await_change in
      if not (is_admitted route) then admit else pure await_change
