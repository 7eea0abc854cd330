-- ===== src/Proxy/Requests/Endpoints.antt =====
-- Which addresses a backend has.
use mathlib.Core.Option.{some-injective}
use picoshift.Prelude.{
  ℕ, ◌%◌, ◌^◌, String, ◌≡◌, refl, ap, sym, ◌∙◌, ◌⊎◌, inl, inr, true, false, not, ◌&&◌, Option, none,
  some, List, [], ◌∷◌, In, here, there, All, first, find, find-some, find-none, eqb, ◌==◌, arith,
  Bool-cases, Option-cases, if◌then◌else◌,
}
use picoshift.Prelude.Options.{◌>>=◌, unwrap_or}
use picoshift.Prelude.Text.Trim.{is_nil as is_empty}
use picoshift.Kube.{Result, ok, err}
use picoshift.Proxy.{TargetPort, number, name, RouteBackend, ServicePort, Service, is_named}
use picoshift.Proxy.Requests.{
  Net, Api, Subset, service_of, endpoints_of, cluster_port, cluster_address, subset_port,
  first_address, resolve_endpoint,
}

-- The port of a Service: the number, or that of a port of the name, or 80.
abbrev pub IsServicePort : TargetPort → Service → ℕ → Type 0
IsServicePort (number n) svc port = port ≡ n % 2 ^ 16
IsServicePort (name n) svc port =
    ((p : ServicePort) × In p (unwrap_or svc.ports [])
      × (is_named n p ≡ true)
      × (port ≡ p.port % 2 ^ 16))
    ⊎ All (λ p. is_named n p ≡ false) (unwrap_or svc.ports []) × (port ≡ 80)

-- A port of a subset is taken by its number or its name.
abbrev pub IsMeant : TargetPort → ServicePort → Type 0
IsMeant (number n) p = p.port ≡ n
IsMeant (name n) p = is_named n p ≡ true

module _ (net : Net) (api : Api) where
  -- The Service has a cluster IP, and this is it.
  pub record IsClusterIp (b : RouteBackend) (ip : net.Ip) (port : ℕ) : Type 0 where
    pub svc : Service
    pub read : api.service b.service_namespace b.service_name ≡ ok svc
    pub cluster_ip : String
    pub given : svc.cluster_ip ≡ some cluster_ip
    pub not_none : (cluster_ip == "None") ≡ false
    pub not_empty : is_empty cluster_ip ≡ false
    pub parsed : net.parse_ip cluster_ip ≡ some ip
    pub own_port : IsServicePort b.target_port svc port

  -- The first address of a subset that has the port.
  pub record IsSubsetAddress (target : TargetPort) (subsets : List Subset) (ip : net.Ip) (port : ℕ)
      : Type 0 where
    pub subset : Subset
    pub listed : In subset subsets
    pub ports : List ServicePort
    pub has_ports : subset.ports ≡ some ports
    pub p : ServicePort
    pub in_ports : In p ports
    pub meant : IsMeant target p
    pub same_port : port ≡ p.port % 2 ^ 16
    pub addr : String
    pub has_address : (subset.addresses >>= first) ≡ some addr
    pub parsed : net.parse_ip addr ≡ some ip

  abbrev pub IsResolved : RouteBackend → net.Ip → ℕ → Type 0
  IsResolved b ip port =
      IsClusterIp b ip port
      ⊎ ((subsets : List Subset) × (api.endpoints b.service_namespace b.service_name
            ≡ ok (some subsets))
          × IsSubsetAddress b.target_port subsets ip port)

  cluster_port-IsServicePort :
      (target : TargetPort) (svc : Service)
      → IsServicePort target svc (cluster_port net api target svc)
  unfolding cluster_port
  cluster_port-IsServicePort (number n) svc = refl
  cluster_port-IsServicePort (name n) svc = elim (Option-cases svc.ports) [
    | inl e ↦ rw (cluster_port, e) (inr (tt, refl))
    | inr (ports, e) ↦ elim (Option-cases (find (is_named n) ports)) [
      | inl f ↦ rw (cluster_port, e, f) (inr (find-none (is_named n) ports f, refl))
      | inr (p, f) ↦
          let (member, named) = find-some (is_named n) ports f in
          rw (cluster_port, e, f) (inl (p, member, named, refl))
    ]
  ]

  subset_port-IsMeant :
      (target : TargetPort) (ports : List ServicePort) (port : ℕ)
      → subset_port net api target ports ≡ some port
      → (p : ServicePort) × In p ports × IsMeant target p × (port ≡ p.port)
  unfolding subset_port
  subset_port-IsMeant (number n) ports port h =
      elim (Option-cases (find (λ p. eqb p.port n) ports)) [
        | inl f ↦ cc (rw (subset_port, f) at h)
        | inr (p, f) ↦
            let (member, same) = find-some (λ p. eqb p.port n) ports f in
            (p, member, ground (arith, same), ground (arith, rw (subset_port, f) at h))
      ]
  subset_port-IsMeant (name n) ports port h = elim (Option-cases (find (is_named n) ports)) [
    | inl f ↦ cc (rw (subset_port, f) at h)
    | inr (p, f) ↦
        let (member, same) = find-some (is_named n) ports f in
        (p, member, same, ground (arith, rw (subset_port, f) at h))
  ]

  first_address-IsSubsetAddress :
      (target : TargetPort) (subsets : List Subset) (ip : net.Ip) (port : ℕ)
      → first_address net api target subsets ≡ some (ip, port)
      → IsSubsetAddress target subsets ip port
  unfolding first_address
  first_address-IsSubsetAddress target [] ip port h = cc
  first_address-IsSubsetAddress target (subset ∷ subsets) ip port h =
      elim (Option-cases subset.ports) [
        | inl e ↦ cc (rw (first_address, e) at h)
        | inr (ports, e) ↦ elim (Option-cases (subset_port net api target ports)) [
          | inl f ↦
              in_rest subset subsets (
                first_address-IsSubsetAddress target subsets ip port
                  (rw (first_address, e, f) at h))
          | inr (n, f) ↦ elim (Option-cases (subset.addresses >>= first)) [
            | inl a ↦ in_rest subset subsets (
                first_address-IsSubsetAddress target subsets ip port
                  (rw (first_address, e, f, a) at h))
            | inr (addr, a) ↦ elim (Option-cases (net.parse_ip addr)) [
              | inl i ↦ cc (rw (first_address, e, f, a, i) at h)
              | inr (found, i) ↦
                  let (p, member, meant, same) = subset_port-IsMeant target ports n f in
                  let pairs : (found, n % 2 ^ 16) ≡ (ip, port) =
                    some-injective _ _ (rw (first_address, e, f, a, i) at h) in
                  record {
                    subset = subset;
                    listed = here;
                    ports = ports;
                    has_ports = e;
                    p = p;
                    in_ports = member;
                    meant = meant;
                    same_port = sym (ap (λ r. r.1) pairs) ∙ ap (λ k. k % 2 ^ 16) same;
                    addr = addr;
                    has_address = a;
                    parsed = i ∙ ap (λ (r : net.Ip × ℕ). some r.0) pairs;
                  }
            ]
          ]
        ]
      ]
    where
      in_rest :
          (subset : Subset) (subsets : List Subset)
          → IsSubsetAddress target subsets ip port
          → IsSubsetAddress target (subset ∷ subsets) ip port
      in_rest subset subsets r = record {
        subset = r.subset;
        listed = there r.listed;
        ports = r.ports;
        has_ports = r.has_ports;
        p = r.p;
        in_ports = r.in_ports;
        meant = r.meant;
        same_port = r.same_port;
        addr = r.addr;
        has_address = r.has_address;
        parsed = r.parsed;
      }

  abbrev ip_of : TargetPort → Service → String → Option (net.Ip × ℕ)
  ip_of target svc c = do
    checked ← if not (c == "None") && not (is_empty c) then some c else none
    ip ← net.parse_ip checked
    some (ip, cluster_port net api target svc)

  given_ip :
      (b : RouteBackend) (svc : Service) (ip : net.Ip) (port : ℕ) (o : Option String)
      → api.service b.service_namespace b.service_name ≡ ok svc
      → svc.cluster_ip ≡ o
      → (o >>= ip_of b.target_port svc) ≡ some (ip, port)
      → IsClusterIp b ip port
  given_ip b svc ip port none read e h = cc
  given_ip b svc ip port (some c) read e h =
      elim (Bool-cases (not (c == "None") && not (is_empty c))) [
        | inr bad ↦ cc (rw bad at h)
        | inl good ↦ elim (Option-cases (net.parse_ip c)) [
          | inl i ↦ cc (rw (good, i) at h)
          | inr (found, i) ↦
              let named : ((c == "None") ≡ false) = ground (arith, good) in
              let filled : (is_empty c ≡ false) = ground (arith, good) in
              let pairs : (found, cluster_port net api b.target_port svc) ≡ (ip, port) =
                some-injective _ _ (rw (good, i) at h) in
              record {
                svc = svc;
                read = read;
                cluster_ip = c;
                given = e;
                not_none = named;
                not_empty = filled;
                parsed = i ∙ ap (λ (r : net.Ip × ℕ). some r.0) pairs;
                own_port =
                    rw (← (ap (λ r. r.1) pairs)) (cluster_port-IsServicePort b.target_port svc);
              }
        ]
      ]

  cluster_address-IsClusterIp :
      (b : RouteBackend) (svc : Service) (ip : net.Ip) (port : ℕ)
      → api.service b.service_namespace b.service_name ≡ ok svc
      → cluster_address net api b.target_port svc ≡ some (ip, port)
      → IsClusterIp b ip port
  unfolding cluster_address
  cluster_address-IsClusterIp b svc ip port read h =
      given_ip b svc ip port svc.cluster_ip read refl h

  by_service :
      (b : RouteBackend) (r : Result Service) (ip : net.Ip) (port : ℕ)
      → api.service b.service_namespace b.service_name ≡ r
      → (service_of net api r >>= cluster_address net api b.target_port) ≡ some (ip, port)
      → IsClusterIp b ip port
  by_service b (ok svc) ip port e h = cluster_address-IsClusterIp b svc ip port e h
  by_service b (err e') ip port e h = cc

  by_endpoints :
      (b : RouteBackend) (r : Result (Option (List Subset))) (ip : net.Ip) (port : ℕ)
      → api.endpoints b.service_namespace b.service_name ≡ r
      → (endpoints_of net api r >>= first_address net api b.target_port) ≡ some (ip, port)
      → IsResolved b ip port
  by_endpoints b (ok none) ip port e h = cc
  by_endpoints b (ok (some subsets)) ip port e h =
      inr (subsets, e, first_address-IsSubsetAddress b.target_port subsets ip port h)
  by_endpoints b (err e') ip port e h = cc

  -- The address of a backend is the cluster IP of its Service, or one of its Endpoints.
  pub resolve_endpoint-IsResolved :
      (b : RouteBackend) (ip : net.Ip) (port : ℕ)
      → resolve_endpoint net api b ≡ some (ip, port)
      → IsResolved b ip port
  unfolding resolve_endpoint
  resolve_endpoint-IsResolved b ip port h =
      let by_ip =
        service_of net api (api.service b.service_namespace b.service_name)
        >>= cluster_address net api b.target_port in
      elim (Option-cases by_ip) [
        | inl e ↦ by_endpoints b _ ip port refl (rw (resolve_endpoint, e) at h)
        | inr (a, e) ↦ inl (by_service b _ ip port refl (e ∙ (rw (resolve_endpoint, e) at h)))
      ]
