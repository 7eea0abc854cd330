-- ===== src/OAuth/Infra/Dns.antt =====
-- The Corefile, once it is extended, stays as it is.
use Prim.Native.String.{◌++◌ as append}
use text.Mathlib.Text.{starts_with}
use text.Mathlib.TextLemmas.{nil-append, cons-append, append_assoc as text_assoc}
use text.Mathlib.TextPositions.{starts_with-append}
use picoshift.Prelude.{String, ◌≡◌, refl, true, some, List, [], ◌∷◌, arith}
use picoshift.Prelude.Maps.{Map, lookup}
use picoshift.Prelude.Text.{contains}
use picoshift.Prelude.Text.Replace.{format}
use picoshift.Json.Interface.{Serde}
use picoshift.Kube.{ok}
use picoshift.OAuth.State.{AuthMode}
use picoshift.OAuth.Infra.{
  Call, get_coredns, Api, hosts_name, hosts_block, extend_corefile, patch_coredns,
}

contains-of_starts_with : (t u : String) → starts_with t u ≡ true → contains t u ≡ true
contains-of_starts_with String.[] u h = h
contains-of_starts_with (String.◌∷◌ c t) u h = ground (arith, h)

contains-append : (s t u : String) → contains t u ≡ true → contains (append s t) u ≡ true
contains-append String.[] t u h = rw (nil-append t) h
contains-append (String.◌∷◌ c s) t u h =
    rw (cons-append c s t) (ground (arith, contains-append s t u h))

contains-hosts_block :
    (node_ip : String) (mode : AuthMode)
    → contains (hosts_block node_ip mode) "apps.ocp-sim.test" ≡ true
unfolding hosts_block
contains-hosts_block node_ip mode =
    let rest =
      format (node_ip ∷ " " ∷ hosts_name mode ∷ "\n        fallthrough\n    }\n}\n" ∷ []) in
    let after = append ":53 {\n    hosts {\n        " rest in
    let name_first = append "apps.ocp-sim.test" after in
    rw
      (
        text_assoc "\n" "apps.ocp-sim.test:53 {\n    hosts {\n        " rest,
        text_assoc "apps.ocp-sim.test" ":53 {\n    hosts {\n        " rest,
      )
      (contains-append "\n" name_first "apps.ocp-sim.test" (
        contains-of_starts_with name_first "apps.ocp-sim.test"
          (starts_with-append "apps.ocp-sim.test" after)))

module _ {J : Serde} (api : Api J) where
  -- Once the Corefile is one that the server has extended, for whatever node IP and mode, no later
  -- run changes it, whatever the node IP and the mode are by then.
  pub patch_coredns-settled :
      (corefile node_ip node_ip' : String) (mode mode' : AuthMode) (data_ : Map String)
      (log : List (Call J))
      → api.coredns log ≡ ok (some data_)
      → lookup "Corefile" data_ ≡ some (format (corefile ∷ hosts_block node_ip mode ∷ []))
      → patch_coredns api node_ip' mode' log ≡ (ok tt, get_coredns ∷ log)
  unfolding patch_coredns extend_corefile
  patch_coredns-settled corefile node_ip node_ip' mode mode' data_ log read written =
      let there =
        contains-append corefile (hosts_block node_ip mode) "apps.ocp-sim.test"
          (contains-hosts_block node_ip mode) in
      rw (patch_coredns, read, extend_corefile, written, there) refl
