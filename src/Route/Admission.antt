-- ===== src/Route/Admission.antt =====
-- The admission of a Route, and the host that the reverse proxy takes from an admitted one.
use picoshift.Prelude.{String, ◌≡◌, refl, ◌∙◌, true, some, List, [], ◌∷◌, eq_refl}
use picoshift.Prelude.Maps.{lookup}
use picoshift.Json.{array_in, str_in}
use picoshift.Json.Interface.{Serde}
use picoshift.Kube.{DynamicObject, Result, ok, await_change}
use picoshift.Route.{
  is_admitted, admits, compute_host, ingress, status_patch, Call, reconcile_route,
}
use picoshift.Proxy.{extract_host}

module _ (J : Serde) where
  -- The ingress of the object is the patch's: a merge patch replaces arrays.
  abbrev pub IsAdmittedAs : DynamicObject J → DynamicObject J → String → Type 0
  IsAdmittedAs route route' now =
      array_in J route'.value ("status" ∷ "ingress" ∷ [])
      ≡ array_in J (status_patch J (compute_host J route) now) ("status" ∷ "ingress" ∷ [])

  ingress_of :
      (host now : String)
      → array_in J (status_patch J host now) ("status" ∷ "ingress" ∷ [])
        ≡ some (ingress J host now ∷ [])
  unfolding status_patch lookup
  ingress_of host now = simp (J.get-obj, J.as_array-arr)

  admits-ingress : (host now : String) → admits J (ingress J host now) ≡ true
  unfolding ingress lookup
  admits-ingress host now = simp (J.get-obj, J.as_array-arr, J.as_str-str, eq_refl "Admitted")

  host_of : (host now : String) → str_in J (ingress J host now) ("host" ∷ []) ≡ some host
  unfolding ingress lookup
  host_of host now = simp (J.get-obj, J.as_str-str)

  -- Once the status that the controller writes is the object's, the controller sends nothing more
  -- for it, and the reverse proxy takes from it the host that the controller computed, whatever the
  -- spec says by then.
  pub reconcile_route-settled :
      (answer : List (Call J) → Call J → Result (Unit {0})) (route route' : DynamicObject J)
      (now later : String) (log : List (Call J))
      → IsAdmittedAs route route' now
      → (reconcile_route J answer route' later log ≡ (ok await_change, log))
        × (extract_host J route' ≡ some (compute_host J route))
  unfolding reconcile_route is_admitted extract_host
  reconcile_route-settled answer route route' now later log h =
      let host = compute_host J route in
      let e = h ∙ ingress_of host now in
      (
        rw (reconcile_route, is_admitted, e, admits-ingress host now) refl,
        rw (extract_host, e, host_of host now) refl,
      )
