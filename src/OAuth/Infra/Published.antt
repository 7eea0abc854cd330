-- ===== src/OAuth/Infra/Published.antt =====
-- What a set-up without errors has asked for, whatever became of the applies whose errors are dropped.
use picoshift.Prelude.{
  String, ◌≡◌, refl, sym, ap, ◌∙◌, inl, inr, true, false, Bool, Option, none, some, List, [], ◌∷◌,
  ◌++◌, Bool-cases,
}
use picoshift.Prelude.Text.Replace.{format}
use picoshift.Prelude.Text.Split.{split}
use picoshift.Json.Interface.{Serde}
use picoshift.Kube.{Result, ok, err, is_code, send, attempt, ◌>>=◌, ◌>>◌, >>=-eq-ok, then-eq-ok}
use picoshift.Util.{Node, get_node_ip}
use picoshift.OAuth.State.{AuthMode}
use picoshift.OAuth.Server.{is_byoidc}
use picoshift.OAuth.Infra.{
  oauth_ns, oauth_host, Call, create_namespace, list_nodes, delete_service, delete_endpoints,
  delete_route, apply_service, apply_endpoints, apply_route, Api, headless_service, node_endpoints,
  kubernetes_endpoints, oauth_route, create_oauth_route, publish, publish_mode, patch_coredns,
  setup_on, setup_infrastructure, ip_or_fail, node_ip_or_fail, unless_conflict, try_call,
}

module _ {J : Serde} (api : Api J) where
  -- The calls that publish the server under a name, the latest first.
  abbrev pub publications : String → String → List (Call J)
  publications name node_ip =
      apply_route name (oauth_route api name (format (name ∷ ".apps.ocp-sim.test" ∷ [])) name)
      ∷ apply_endpoints oauth_ns name (node_endpoints name node_ip)
      ∷ apply_service name (headless_service name)
      ∷ []

  -- In the external mode the local names go first.
  abbrev pub mode_publications : Bool → String → List (Call J)
  mode_publications false node_ip = publications oauth_host node_ip
  mode_publications true node_ip =
      publications "entra" node_ip
      ++ delete_route oauth_host ∷ delete_endpoints oauth_host ∷ delete_service oauth_host ∷ []

  publish_mode-log :
      (node_ip : String) (mode : AuthMode) (log : List (Call J))
      → publish_mode api node_ip mode log
        ≡ (ok tt, mode_publications (is_byoidc mode) node_ip ++ log)
  unfolding publish_mode publish create_oauth_route split
  publish_mode-log node_ip mode log = elim (Bool-cases (is_byoidc mode)) [
    | inl e ↦ rw (publish_mode, e) refl
    | inr e ↦ rw (publish_mode, e) refl
  ]

  unless_conflict-log :
      (r : Result (Unit {0})) (log : List (Call J)) → (unless_conflict api r log).1 ≡ log
  unless_conflict-log (ok _) log = refl
  unless_conflict-log (err e) log = elim (Bool-cases (is_code 409 e)) [
    | inl conflict ↦ rw conflict refl
    | inr other ↦ rw other refl
  ]

  ip_or_fail-ok :
      (o : Option String) (log : List (Call J)) {ip : String}
      → (ip_or_fail api o log).0 ≡ ok ip
      → (o ≡ some ip) × ((ip_or_fail api o log).1 ≡ log)
  ip_or_fail-ok none log h = cc
  ip_or_fail-ok (some a) log h = (cc, refl)

  -- The namespace was asked for, the nodes were listed, and the address found among them is that of
  -- every object; the Corefile was seen to, and the endpoints of the API server come last.
  pub record IsPublished (mode : AuthMode) (log log' : List (Call J)) : Type 0 where
    pub nodes : List Node
    pub node_ip : String
    pub listed : api.nodes (create_namespace oauth_ns ∷ log) ≡ ok nodes
    pub found : get_node_ip nodes ≡ some node_ip
    pub patched :
        (patch_coredns api node_ip mode (
          mode_publications (is_byoidc mode) node_ip
          ++ list_nodes ∷ create_namespace oauth_ns ∷ log)).0
        ≡ ok tt
    pub calls :
        log'
        ≡ apply_endpoints "default" "kubernetes" (kubernetes_endpoints node_ip)
          ∷ (patch_coredns api node_ip mode (
              mode_publications (is_byoidc mode) node_ip
              ++ list_nodes ∷ create_namespace oauth_ns ∷ log)).1

  setup_on-calls :
      (mode : AuthMode) (node_ip : String) (log : List (Call J)) {u : Unit {0}}
      → (setup_on api mode node_ip log).0 ≡ ok u
      → let l = mode_publications (is_byoidc mode) node_ip ++ log in
        ((patch_coredns api node_ip mode l).0 ≡ ok tt)
        × ((setup_on api mode node_ip log).1
            ≡ apply_endpoints "default" "kubernetes" (kubernetes_endpoints node_ip)
              ∷ (patch_coredns api node_ip mode l).1)
  unfolding setup_on
  setup_on-calls mode node_ip log {u} h =
      let last = apply_endpoints "default" "kubernetes" (kubernetes_endpoints node_ip) in
      let l = mode_publications (is_byoidc mode) node_ip ++ log in
      let e = publish_mode-log node_ip mode log in
      let h' : ((patch_coredns api node_ip mode >> try_call api last) l).0 ≡ ok u =
        rw (setup_on, e) at h in
      let (a, patched, _, all) =
        then-eq-ok (patch_coredns api node_ip mode) (try_call api last) l h' in
      (patched, rw (setup_on, e) (ap (λ r. r.1) all))

  -- A set-up that meets no error has published the server, under the name of its mode and at the
  -- first internal address of the nodes, with a Service, its Endpoints and a Route, after taking the
  -- names of the local modes away in the external one; it has seen to the Corefile, and applied the
  -- endpoints of the API server last.
  pub setup_infrastructure-IsPublished :
      (mode : AuthMode) (log : List (Call J)) (u : Unit {0})
      → (setup_infrastructure api mode log).0 ≡ ok u
      → IsPublished mode log (setup_infrastructure api mode log).1
  unfolding setup_infrastructure
  setup_infrastructure-IsPublished mode log u h =
      let create = create_namespace oauth_ns in
      let made = attempt (send create (λ l. api.answer l create)) (unless_conflict api) in
      let look = send list_nodes api.nodes >>= node_ip_or_fail api in
      let (a, _, second, e) = then-eq-ok made (look >>= setup_on api mode) log h in
      let same = unless_conflict-log (api.answer log create) (create ∷ log) in
      let second' : ((look >>= setup_on api mode) (create ∷ log)).0 ≡ ok u = rw same at second in
      let (ip, found, e2) = >>=-eq-ok look (setup_on api mode) (create ∷ log) second' in
      let (nodes, listed, e3) =
        >>=-eq-ok (send list_nodes api.nodes) (node_ip_or_fail api) (create ∷ log) found in
      let (first_ip, kept) =
        ip_or_fail-ok (get_node_ip nodes) (list_nodes ∷ create ∷ log)
          (sym (ap (λ r. r.0) e3) ∙ found) in
      let asked = ap (λ r. r.1) e3 ∙ kept in
      let total : setup_infrastructure api mode log
          ≡ setup_on api mode ip (list_nodes ∷ create ∷ log) =
        e ∙ ap (look >>= setup_on api mode) same ∙ e2 ∙ ap (setup_on api mode ip) asked in
      let (patched, calls) =
        setup_on-calls mode ip (list_nodes ∷ create ∷ log) (sym (ap (λ r. r.0) total) ∙ h) in
      record {
        nodes = nodes;
        node_ip = ip;
        listed = listed;
        found = first_ip;
        patched = patched;
        calls = ap (λ r. r.1) total ∙ calls;
      }
