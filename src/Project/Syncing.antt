-- ===== src/Project/Syncing.antt =====
-- What a run for a Project leaves behind, and what a Project shows of its Namespace.
use picoshift.Prelude.{
  ◌≡◌, refl, sym, ap, ◌∙◌, ◌⊎◌, inl, inr, true, Option, none, some, Bool-cases, List, ◌∷◌,
}
use picoshift.Json.Interface.{Serde}
use picoshift.Kube.{DynamicObject, KubeError, is_code, Result, ok, err, Action, send, >>=-eq-ok}
use picoshift.Project.{
  Call, get_namespace, create_namespace, Api, created, create_missing, reconcile_project,
}

module _ (J : Serde) where
  -- The Namespace was there and nothing was written, or it was missing and its creation, with the
  -- labels of the Project, was accepted or met a conflict.
  abbrev pub IsThere : Api J → DynamicObject J → List (Call J) → List (Call J) → Type 0
  IsThere api proj log log' =
      (api.get_opt log proj.name_any ≡ ok (some tt)) × (log' ≡ get_namespace proj.name_any ∷ log)
      ⊎ (api.get_opt log proj.name_any ≡ ok none)
        × (log' ≡ create_namespace proj.name_any proj.labels ∷ get_namespace proj.name_any ∷ log)
        × ((api.answer (get_namespace proj.name_any ∷ log)
                (create_namespace proj.name_any proj.labels)
              ≡ ok tt)
            ⊎ ((e : KubeError) × (api.answer (get_namespace proj.name_any ∷ log)
                    (create_namespace proj.name_any proj.labels)
                  ≡ err e)
                × (is_code 409 e ≡ true)))

  created-ok :
      (api : Api J) (r : Result (Unit {0})) (log : List (Call J)) {a : Action}
      → (created J api r log).0 ≡ ok a
      → ((created J api r log).1 ≡ log)
        × ((r ≡ ok tt) ⊎ ((e : KubeError) × (r ≡ err e) × (is_code 409 e ≡ true)))
  created-ok api (ok _) log h = (refl, inl refl)
  created-ok api (err e) log h = elim (Bool-cases (is_code 409 e)) [
    | inl conflict ↦ (rw conflict refl, inr (e, refl, conflict))
    | inr other ↦ let bad = rw other at h in absurd (cc bad)
  ]

  create_missing-IsThere :
      (api : Api J) (proj : DynamicObject J) (log : List (Call J)) (found : Option (Unit {0}))
      (a : Action)
      → api.get_opt log proj.name_any ≡ ok found
      → (create_missing J api proj found (get_namespace proj.name_any ∷ log)).0 ≡ ok a
      → IsThere api proj log (create_missing J api proj found (get_namespace proj.name_any ∷ log)).1
  unfolding create_missing
  create_missing-IsThere api proj log (some _) a e h = inl (e, refl)
  create_missing-IsThere api proj log none a e h =
      let c = create_namespace proj.name_any proj.labels in
      let asked = get_namespace proj.name_any ∷ log in
      let (kept, accepted) = created-ok api (api.answer asked c) (c ∷ asked) h in
      inr (e, kept, accepted)

  -- A run for a Project that meets no error ends with its Namespace there: it was there and nothing
  -- was written, or it was missing and its creation, with the labels of the Project, was accepted
  -- or met a conflict.
  pub reconcile_project-IsThere :
      (api : Api J) (proj : DynamicObject J) (log : List (Call J)) (a : Action)
      → (reconcile_project J api proj log).0 ≡ ok a
      → IsThere api proj log (reconcile_project J api proj log).1
  unfolding reconcile_project
  reconcile_project-IsThere api proj log a h =
      let (found, answered, rest) =
        >>=-eq-ok (send (get_namespace proj.name_any) (λ l. api.get_opt l proj.name_any))
          (create_missing J api proj) log h in
      let good = ap (λ r. r.0) (sym rest) ∙ h in
      rw (reconcile_project, rest) (create_missing-IsThere api proj log found a answered good)
