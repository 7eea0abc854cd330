-- ===== src/PodMutate.antt =====
-- The pod webhook and the namespace annotator, simulator/src/pod_mutate.rs. The standard library's
-- `DefaultHasher` is a parameter: `hash name` is a `u64`.
pub mod UidRange
pub mod Patching
pub mod Webhook
use picoshift.Prelude.{
  ℕ, ◌+◌, ◌*◌, ◌%◌, ◌^◌, String, Bool, true, false, not, ◌&&◌, ◌||◌, Option, none, some, List, [],
  ◌∷◌, any, ◌==◌, show, if◌then◌else◌,
}
use picoshift.Prelude.Options.{◌>>=◌ as then_some, unwrap_or, or_else, is_some}
use picoshift.Prelude.Maps.{Map, lookup}
use picoshift.Prelude.Text.Replace.{format}
use picoshift.Json.{get_in, str_in, array_in}
use picoshift.Json.Interface.{Serde}
use picoshift.Kube.{Result, ok, err, Action, await_change, Exec, pure, send, ◌>>=◌}

abbrev pub skip_namespaces : List String
skip_namespaces =
    "kube-system" ∷ "kube-public" ∷ "kube-node-lease" ∷ "ocp-sim" ∷ "local-path-storage" ∷ []

-- The fields of a Namespace that the annotator reads.
pub record Namespace : Type 0 where
  pub name_any : String
  pub annotations : Option (Map String)

module _ (hash : String → ℕ) where
  unfoldable pub uid_range_for_namespace : String → ℕ
  uid_range_for_namespace name =
      let block = hash name % 100000 in (1000000000 + block * 10000) % 2 ^ 64

  module _ (J : Serde) where
    open J use {Value, get, as_str, as_bool, as_array, str, bool, num, arr, obj, to_string}

    abbrev runs_as_non_root : Value → Bool
    runs_as_non_root c =
        unwrap_or (then_some (get_in J c ("securityContext" ∷ "runAsNonRoot" ∷ [])) as_bool) false

    abbrev container_non_root : Option (List Value) → Bool
    container_non_root none = false
    container_non_root (some containers) = any runs_as_non_root containers

    -- One JSON patch operation.
    abbrev pub add_op : String → Value → Value
    add_op path value = obj (("op", str "add") ∷ ("path", str path) ∷ ("value", value) ∷ [])

    -- The operations for a pod whose spec is there and that runs as non-root without a group.
    abbrev pub group_ops : String → Option Value → List Value
    group_ops namespace none =
        add_op "/spec/securityContext"
          (obj (("fsGroup", num (uid_range_for_namespace namespace)) ∷ []))
        ∷ []
    group_ops namespace (some sc) =
        add_op "/spec/securityContext/fsGroup" (num (uid_range_for_namespace namespace)) ∷ []

    unfoldable pub non_root : Value → Bool
    non_root spec =
        runs_as_non_root spec || container_non_root (then_some (get spec "containers") as_array)

    abbrev spec_patch : String → Value → Option (List Value)
    spec_patch namespace spec =
        let sc = get spec "securityContext" in
        if is_some (then_some sc (λ s. get s "fsGroup"))
        then none
        else if not (non_root spec)
        then none
        else some (group_ops namespace sc)

    unfoldable pub compute_patch : Value → String → Option (List Value)
    compute_patch pod namespace = then_some (get pod "spec") (spec_patch namespace)

    -- `build_admission_response`; the base64 engine is a parameter.
    module _ (encode : String → String) where
      abbrev patch_entries : Option (List Value) → List (String × Value)
      patch_entries none = []
      patch_entries (some ops) =
          ("patchType", str "JSONPatch") ∷ ("patch", str (encode (to_string (arr ops)))) ∷ []

      unfoldable pub build_admission_response : String → Option (List Value) → Value
      build_admission_response uid patch = obj (
          ("apiVersion", str "admission.k8s.io/v1")
          ∷ ("kind", str "AdmissionReview")
          ∷ ("response", obj (("uid", str uid) ∷ ("allowed", bool true) ∷ patch_entries patch))
          ∷ [])

      -- `handle_request` on a parsed body, `none` where the body is no JSON: the status and the
      -- text. A missing key of an index is `null`, on which `as_str` and `get` answer `None`.
      unfoldable pub handle_request : String → String → Option Value → Value → ℕ × String
      handle_request method path body null =
          if not (method == "POST") || not (path == "/mutate/pods")
          then (404, "not found\n")
          else elim body [
            | none ↦ (400, "bad request\n")
            | some review ↦
                let uid = unwrap_or (str_in J review ("request" ∷ "uid" ∷ [])) "" in
                let namespace =
                  unwrap_or (str_in J review ("request" ∷ "namespace" ∷ [])) "default" in
                let pod = unwrap_or (get_in J review ("request" ∷ "object" ∷ [])) null in
                (200, to_string (build_admission_response uid (compute_patch pod namespace)))
          ]

    pub data Call : Type 0 where
      patch : String → Value → Call

    unfoldable pub range_patch : String → Value
    range_patch name =
        let range = format (show (uid_range_for_namespace name) ∷ "/10000" ∷ []) in
        obj (
          (
            "metadata",
            obj (
                (
                  "annotations",
                  obj (
                      ("openshift.io/sa.scc.uid-range", str range)
                      ∷ ("openshift.io/sa.scc.supplemental-groups", str range)
                      ∷ []),
                )
                ∷ []),
          )
          ∷ [])

    unfoldable pub reconcile_namespace :
        (List Call → Call → Result (Unit {0})) → Namespace → Exec Call Action
    reconcile_namespace answer ns =
        let c = patch ns.name_any (range_patch ns.name_any) in
        if any (λ s. s == ns.name_any) skip_namespaces
        then pure await_change
        else if is_some (then_some ns.annotations (lookup "openshift.io/sa.scc.uid-range"))
        then pure await_change
        else (send c (λ log. answer log c) >>= λ _. pure await_change)
