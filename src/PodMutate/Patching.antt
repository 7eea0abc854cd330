-- ===== src/PodMutate/Patching.antt =====
-- When the pod webhook changes a pod, and what is left to change after it.
use picoshift.Prelude.{
  ℕ, String, ◌≡◌, refl, sym, ap, ◌∙◌, true, Option, none, some, List, [], ◌∷◌, drop, Bool-cases,
  inl, inr, All,
}
use picoshift.Prelude.Options.{◌>>=◌, >>=-eq-some, is_some, unwrap_or}
use picoshift.Prelude.Maps.{lookup}
use picoshift.Prelude.Text.Split.{split}
use picoshift.Json.{get_in, str_in}
use picoshift.Json.Interface.{Serde}
use picoshift.PodMutate.{compute_patch, group_ops, add_op, non_root}

module _ (J : Serde) where
  open J use {Value, get}

  -- After the operation the place that its path names holds its value.
  abbrev pub IsApplied : Value → Value → Type 0
  IsApplied pod op =
      (path : String)
      → str_in J op ("path" ∷ []) ≡ some path
      → get_in J pod (drop 1 (split b'/' path)) ≡ get op "value"

  -- A pod with a group needs no patch.
  with_group :
      (hash : String → ℕ) (pod spec sc g : Value) (namespace : String)
      → get pod "spec" ≡ some spec
      → get spec "securityContext" ≡ some sc
      → get sc "fsGroup" ≡ some g
      → compute_patch hash J pod namespace ≡ none
  unfolding compute_patch
  with_group hash pod spec sc g namespace a b c = rw (a, b, c) refl

  -- A pod for which the value of a path of two or three keys is known has the values on the way.
  two_keys :
      (v : Value) (a b : String) {w : Value}
      → get_in J v (a ∷ b ∷ []) ≡ some w
      → (x : Value) × (get v a ≡ some x) × (get x b ≡ some w)
  two_keys v a b h =
      let (x, e, h1) = >>=-eq-some (get v a) (λ x. get_in J x (b ∷ [])) h in
      let (y, e1, h2) = >>=-eq-some (get x b) some h1 in (x, e, e1 ∙ h2)

  value_of :
      (hash : String → ℕ) (path : String) (value : Value)
      → get (add_op hash J path value) "value" ≡ some value
  unfolding lookup
  value_of hash path value = J.get-obj _ "value"

  group_ops-cases :
      (hash : String → ℕ) (pod : Value) (namespace : String) (o : Option Value)
      → All (IsApplied pod) (group_ops hash J namespace o)
      → (spec : Value) × (sc : Value) × (g : Value) × (get pod "spec" ≡ some spec)
        × (get spec "securityContext" ≡ some sc)
        × (get sc "fsGroup" ≡ some g)
  unfolding lookup split
  group_ops-cases hash pod namespace none (h, _) =
      let at = h "/spec/securityContext" (simp (J.get-obj, J.as_str-str)) in
      let (spec, a, b) = two_keys pod "spec" "securityContext" (at ∙ value_of hash _ _) in
      (spec, _, _, a, b, J.get-obj _ "fsGroup")
  group_ops-cases hash pod namespace (some sc) (h, _) =
      let at = h "/spec/securityContext/fsGroup" (simp (J.get-obj, J.as_str-str)) in
      let (spec, a, more) =
        >>=-eq-some (get pod "spec") (λ x. get_in J x ("securityContext" ∷ "fsGroup" ∷ []))
          (at ∙ value_of hash _ _) in
      let (sc', b, c) = two_keys spec "securityContext" "fsGroup" more in (spec, sc', _, a, b, c)

  compute_patch-ops :
      (hash : String → ℕ) (pod : Value) (namespace : String) (ops : List Value)
      → compute_patch hash J pod namespace ≡ some ops
      → (spec : Value) × (get pod "spec" ≡ some spec)
        × (non_root hash J spec ≡ true)
        × (ops ≡ group_ops hash J namespace (get spec "securityContext"))
  unfolding compute_patch
  compute_patch-ops hash pod namespace ops h =
      let (spec, e, h1) = >>=-eq-some (get pod "spec") _ h in
      elim (Bool-cases (is_some (get spec "securityContext" >>= λ s. get s "fsGroup"))) [
        | inl has ↦
            let bad : ◌≡◌ {A = Option (List Value)} none (some ops) = rw has at h1 in absurd cc
        | inr lacks ↦ elim (Bool-cases (non_root hash J spec)) [
          | inl runs ↦ (spec, e, runs, sym (ap (λ o. unwrap_or o []) (rw (lacks, runs) at h1)))
          | inr root ↦
              let bad : ◌≡◌ {A = Option (List Value)} none (some ops) = rw (lacks, root) at h1 in
              absurd cc
        ]
      ]

  -- A pod is changed only where its spec asks for a user that is not root. Where the operations of
  -- the patch have been applied, in any namespace the pod needs no patch again.
  pub compute_patch-settled :
      (hash : String → ℕ) (pod pod' : Value) (namespace namespace' : String) (ops : List Value)
      → compute_patch hash J pod namespace ≡ some ops
      → All (IsApplied pod') ops
      → ((spec : Value) × (get pod "spec" ≡ some spec) × (non_root hash J spec ≡ true))
        × (compute_patch hash J pod' namespace' ≡ none)
  compute_patch-settled hash pod pod' namespace namespace' ops h applied =
      let (spec, e, runs, same) = compute_patch-ops hash pod namespace ops h in
      let (s, sc, g, a, b, c) =
        group_ops-cases hash pod' namespace (get spec "securityContext") (rw same at applied) in
      ((spec, e, runs), with_group hash pod' s sc g namespace' a b c)
