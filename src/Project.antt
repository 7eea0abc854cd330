-- ===== src/Project.antt =====
-- The project controller, simulator/src/project.rs: a Project for each Namespace, and a Namespace
-- for each Project.
pub mod Syncing
use picoshift.Prelude.{String, Option, none, some, List, [], ◌∷◌, map, if◌then◌else◌}
use picoshift.Prelude.Maps.{Map}
use picoshift.Prelude.Options.{unwrap_or}
use picoshift.Json.Interface.{Serde}
use picoshift.Kube.{
  DynamicObject, KubeError, is_code, Result, ok, err, Action, await_change, Exec, pure, fail, send,
  attempt, ◌>>=◌,
}

-- The fields of a Namespace that the controller reads.
pub record Namespace : Type 0 where
  pub name_any : String
  pub labels : Option (Map String)
  pub phase : Option String

module _ (J : Serde) where
  open J use {Value, str, obj}

  -- The calls: an apply of a Project, and the read and the creation of a Namespace.
  pub data Call : Type 0 where
    apply_project : String → Value → Call
    get_namespace : String → Call
    create_namespace : String → Option (Map String) → Call

  -- What the API server answers after the calls before; `get_opt` says whether the Namespace is there.
  pub record Api : Type 0 where
    pub answer : List Call → Call → Result (Unit {0})
    pub get_opt : List Call → String → Result (Option (Unit {0}))

  unfoldable pub project_value : Namespace → Value
  project_value ns =
      let labels = map (λ l. (l.0, str l.1)) (unwrap_or ns.labels []) in
      obj (
        ("apiVersion", str "project.openshift.io/v1")
        ∷ ("kind", str "Project")
        ∷ ("metadata", obj (("name", str ns.name_any) ∷ ("labels", obj labels) ∷ []))
        ∷ ("status", obj (("phase", str (unwrap_or ns.phase "Active")) ∷ []))
        ∷ [])

  module _ (api : Api) where
    unfoldable pub reconcile_namespace : Namespace → Exec Call Action
    reconcile_namespace ns =
        let c = apply_project ns.name_any (project_value ns) in
        send c (λ log. api.answer log c) >>= λ _. pure await_change

    -- A creation that meets a conflict counts as done.
    abbrev pub created : Result (Unit {0}) → Exec Call Action
    created (ok _) = pure await_change
    created (err e) = if is_code 409 e then pure await_change else fail e

    unfoldable pub create_missing : DynamicObject J → Option (Unit {0}) → Exec Call Action
    create_missing proj (some _) = pure await_change
    create_missing proj none =
        let c = create_namespace proj.name_any proj.labels in
        attempt (send c (λ log. api.answer log c)) created

    unfoldable pub reconcile_project : DynamicObject J → Exec Call Action
    reconcile_project proj =
        send (get_namespace proj.name_any) (λ log. api.get_opt log proj.name_any)
        >>= create_missing proj
