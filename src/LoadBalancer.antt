-- ===== src/LoadBalancer.antt =====
-- The LoadBalancer controller, simulator/src/loadbalancer.rs. The counter `NEXT_OCTET` is a `u8`.
pub mod Addresses
use picoshift.Prelude.{
  ℕ, ◌+◌, ◌%◌, String, Bool, true, false, Option, none, some, List, [], ◌∷◌, is_nil, ◌==◌, show,
  if◌then◌else◌,
}
use picoshift.Prelude.Options.{◌>>=◌, unwrap_or}
use picoshift.Prelude.Text.Replace.{format}

-- The fields of a Service that the controller reads; an ingress is its address.
pub record Service : Type 0 where
  pub name_any : String
  pub namespace : Option String
  pub type_ : Option String
  pub ingress : Option (List String)

-- `fetch_add` gives the old value and wraps.
unfoldable pub next_lb_ip : ℕ → String × ℕ
next_lb_ip next_octet = (format ("10.254.0." ∷ show next_octet ∷ []), (next_octet + 1) % 256)

unfoldable pub needs_ip : Service → Bool
needs_ip svc =
    let is_lb : Bool = elim svc.type_ [ none ↦ false | some t ↦ t == "LoadBalancer" ] in
    if is_lb then (elim svc.ingress [ none ↦ true | some list ↦ is_nil list ]) else false

pub record StatusPatch : Type 0 where
  pub ns : String
  pub name : String
  pub ip : String

-- The loop of `run` over the events of the watch, `none` for a watch error: the patches that it
-- sends, in order. What the server answers to a patch is only logged.
unfoldable pub run : ℕ → List (Option Service) → List StatusPatch
run next_octet [] = []
run next_octet (none ∷ events) = run next_octet events
run next_octet (some svc ∷ events) =
    let (ip, next) = next_lb_ip next_octet in
    let skipped = run next_octet events in
    let patched =
      (record { ns = unwrap_or svc.namespace ""; name = svc.name_any; ip = ip })
      ∷ run next events in
    if needs_ip svc then patched else skipped
