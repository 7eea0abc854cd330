-- ===== src/Proxy/Requests/Forwarding.antt =====
-- Where the reverse proxy sends a request, and with which headers.
use picoshift.Prelude.{
  ℕ, String, ◌≡◌, ◌≢◌, refl, eq_iff, arith, ◌⊎◌, inl, inr, Bool, true, false, not, Option, none,
  some, List, [], ◌∷◌, ◌++◌, ap, filter, filter_map, ◌==◌, Bool-cases, Option-cases, if◌then◌else◌,
}
use picoshift.Prelude.Maps.{Map, lookup}
use picoshift.Prelude.Options.{◌>>=◌, is_some, unwrap_or}
use picoshift.Prelude.Text.Replace.{format}
use picoshift.Proxy.{RouteBackend}
use picoshift.Proxy.Requests.Endpoints.{IsResolved, resolve_endpoint-IsResolved}
use picoshift.Proxy.Requests.{
  Net, Api, Request, Outcome, answer, forward, tunnel, request_host, is_oauth, Target, refused,
  upstream, backend_target, table_target, target, resolve_endpoint, proxy_headers, forwarded,
  send_upstream, proxy_request, header_lines, raw_request,
}

module _ (net : Net) (api : Api) (table : Map RouteBackend) (host : String) where
  abbrev pub IsOauthHost : Type 0
  IsOauthHost = (host ≡ "oauth-openshift.apps.ocp-sim.test") ⊎ (host ≡ "entra.apps.ocp-sim.test")

  abbrev pub IsOtherHost : Type 0
  IsOtherHost = (host ≢ "oauth-openshift.apps.ocp-sim.test") × (host ≢ "entra.apps.ocp-sim.test")

  is_oauth-IsOauthHost : is_oauth net api host ≡ true → IsOauthHost
  is_oauth-IsOauthHost h = elim (Bool-cases (host == "oauth-openshift.apps.ocp-sim.test")) [
    | inl e ↦ inl ((eq_iff host "oauth-openshift.apps.ocp-sim.test").0 e)
    | inr e ↦ inr ((eq_iff host "entra.apps.ocp-sim.test").0 (rw e at h))
  ]

  is_oauth-IsOtherHost : is_oauth net api host ≡ false → IsOtherHost
  is_oauth-IsOtherHost h = (
    (λ e. absurd (ground (arith, h, (eq_iff host "oauth-openshift.apps.ocp-sim.test").1 e))),
    (λ e. absurd (ground (arith, h, (eq_iff host "entra.apps.ocp-sim.test").1 e))),
  )

  -- The address is the OAuth server's for its hosts, and else an endpoint of the table's backend.
  abbrev pub IsEndpoint : net.Ip → ℕ → Bool → Type 0
  IsEndpoint ip port tls =
      IsOauthHost × (ip ≡ net.localhost) × (port ≡ 9443) × (tls ≡ true)
      ⊎ IsOtherHost
        × ((b : RouteBackend) × (lookup host table ≡ some b)
            × IsResolved net api b ip port
            × (tls ≡ b.tls))

  -- A refusal says whether the table lacks the host or the backend has no endpoint.
  abbrev pub IsRefused : ℕ → Type 0
  IsRefused status =
      IsOtherHost
      × ((status ≡ 502) × (lookup host table ≡ none)
          ⊎ (status ≡ 503)
            × ((b : RouteBackend) × (lookup host table ≡ some b)
                × (resolve_endpoint net api b ≡ none)))

  abbrev IsTarget : Target net api → Type 0
  IsTarget (refused status text) = IsRefused status
  IsTarget (upstream ip port tls) = IsEndpoint ip port tls

  target-IsTarget : IsTarget (target net api table host)
  unfolding target table_target backend_target
  target-IsTarget = elim (Bool-cases (is_oauth net api host)) [
    | inl o ↦ rw (target, o) (inl (is_oauth-IsOauthHost o, refl, refl, refl))
    | inr o ↦ elim (Option-cases (lookup host table)) [
      | inl e ↦ rw (target, table_target, o, e) (is_oauth-IsOtherHost o, inl (refl, e))
      | inr (b, e) ↦ elim (Option-cases (resolve_endpoint net api b)) [
        | inl r ↦
            rw (target, table_target, backend_target, o, e, r)
              (is_oauth-IsOtherHost o, inr (refl, (b, e, r)))
        | inr ((ip, port), r) ↦
            rw (target, table_target, backend_target, o, e, r)
              (inr (
                is_oauth-IsOtherHost o,
                (b, e, resolve_endpoint-IsResolved net api b ip port r, refl),
              ))
      ]
    ]
  ]

module _ (net : Net) (api : Api) where
  abbrev path_of : Request net api → String
  path_of req = unwrap_or req.path_and_query "/"

  -- A TLS upstream is asked for the path, and another for it at its address.
  abbrev pub uri_for : Request net api → net.Ip → ℕ → Bool → String
  uri_for req ip port true = path_of req
  uri_for req ip port false = format ("http://" ∷ net.show_addr ip port ∷ path_of req ∷ [])

  -- The headers that tell the upstream how the client came.
  abbrev pub proto_headers : Bool → List (String × Option String)
  proto_headers true =
      ("x-forwarded-proto", some "https")
      ∷ ("x-forwarded-scheme", some "https")
      ∷ ("x-forwarded-port", some "443")
      ∷ []
  proto_headers false = ("x-forwarded-proto", some "http") ∷ []

  abbrev is_host : String × Option String → Bool
  is_host h = h.0 == "host"

  abbrev is_other : String × Option String → Bool
  is_other h = not (h.0 == "host")

  -- One `host` header, that of the table; the others are the request's and those of the proxy.
  abbrev pub IsHeadersOf : Bool → Request net api → List (String × Option String) → Type 0
  IsHeadersOf tls_incoming req headers =
      (filter is_host headers ≡ ("host", some (request_host net api req)) ∷ [])
      × (filter is_other headers ≡ filter is_other req.headers ++ proto_headers tls_incoming)

  abbrev named_text : String × Option String → Option (String × String)
  named_text (key, v) = if key == "host" then none else v >>= λ t. some (key, t)

  abbrev text_lines : List (String × String) → String
  text_lines [] = ""
  text_lines ((key, v) ∷ headers) = format (key ∷ ": " ∷ v ∷ "\r\n" ∷ text_lines headers ∷ [])

  -- The text that opens a tunnel: the request line, the one host, and the headers that are texts.
  abbrev pub tunnel_text : Bool → Request net api → String
  tunnel_text tls_incoming req = format (
      req.method
      ∷ " "
      ∷ path_of req
      ∷ " HTTP/1.1\r\nHost: "
      ∷ request_host net api req
      ∷ "\r\n"
      ∷ text_lines (filter_map named_text req.headers)
      ∷ (if tls_incoming then "X-Forwarded-Proto: https\r\n" else "")
      ∷ "\r\n"
      ∷ [])

  -- What an outcome says of the request that leads to it.
  abbrev pub IsRouted : Map RouteBackend → Bool → Request net api → Outcome net api → Type 0
  IsRouted table tls_incoming req (answer status text) =
      IsRefused net api table (request_host net api req) status
  IsRouted table tls_incoming req (forward ip port tls uri headers) =
      IsEndpoint net api table (request_host net api req) ip port tls
      × (is_some (lookup "upgrade" req.headers) ≡ false)
      × (uri ≡ uri_for req ip port tls)
      × IsHeadersOf tls_incoming req headers
  IsRouted table tls_incoming req (tunnel ip port tls raw_req) =
      IsEndpoint net api table (request_host net api req) ip port tls
      × (is_some (lookup "upgrade" req.headers) ≡ true)
      × (raw_req ≡ tunnel_text tls_incoming req)

  header_lines_lem :
      (headers : List (String × Option String))
      → header_lines net api headers ≡ text_lines (filter_map named_text headers)
  unfolding header_lines
  header_lines_lem [] = refl
  header_lines_lem ((key, none) ∷ headers) = elim (Bool-cases (key == "host")) [
    | inl e ↦ rw (header_lines, e) (header_lines_lem headers)
    | inr e ↦ rw (header_lines, e) (header_lines_lem headers)
  ]
  header_lines_lem ((key, some v) ∷ headers) = elim (Bool-cases (key == "host")) [
    | inl e ↦ rw (header_lines, e) (header_lines_lem headers)
    | inr e ↦
        rw (header_lines, e)
          (ap (λ r. format (key ∷ ": " ∷ v ∷ "\r\n" ∷ r ∷ [])) (header_lines_lem headers))
  ]

  raw_request_lem :
      (tls_incoming : Bool) (req : Request net api)
      → raw_request net api req (request_host net api req) (path_of req) tls_incoming
        ≡ tunnel_text tls_incoming req
  unfolding raw_request
  raw_request_lem tls_incoming req = rw (raw_request, header_lines_lem req.headers) refl

  one_host :
      (own : Option String) (tls : Bool) (headers : List (String × Option String))
      → filter is_host (filter is_other headers ++ ("host", own) ∷ forwarded net api tls)
        ≡ ("host", own) ∷ []
  one_host own true [] = refl
  one_host own false [] = refl
  one_host own tls ((key, v) ∷ headers) = elim (Bool-cases (key == "host")) [
    | inl e ↦ rw e (one_host own tls headers)
    | inr e ↦ rw e (rw e (one_host own tls headers))
  ]

  others :
      (own : Option String) (tls : Bool) (headers : List (String × Option String))
      → filter is_other (filter is_other headers ++ ("host", own) ∷ forwarded net api tls)
        ≡ filter is_other headers ++ proto_headers tls
  others own true [] = refl
  others own false [] = refl
  others own tls ((key, v) ∷ headers) = elim (Bool-cases (key == "host")) [
    | inl e ↦ rw e (others own tls headers)
    | inr e ↦ rw e (rw e (ap (λ r. (key, v) ∷ r) (others own tls headers)))
  ]

  uri_lem :
      (req : Request net api) (ip : net.Ip) (port : ℕ) (tls : Bool)
      → (if tls then path_of req else format ("http://" ∷ net.show_addr ip port ∷ path_of req ∷ []))
        ≡ uri_for req ip port tls
  uri_lem req ip port true = refl
  uri_lem req ip port false = refl

  send_upstream-IsRouted :
      (table : Map RouteBackend) (tls_incoming : Bool) (req : Request net api) (ip : net.Ip)
      (port : ℕ) (tls : Bool)
      → IsEndpoint net api table (request_host net api req) ip port tls
      → IsRouted table tls_incoming req (send_upstream net api tls_incoming req ip port tls)
  unfolding send_upstream proxy_headers
  send_upstream-IsRouted table tls_incoming req ip port tls h =
      let own = some (request_host net api req) in
      elim (Bool-cases (is_some (lookup "upgrade" req.headers))) [
        | inl u ↦ rw (send_upstream, u) (h, u, raw_request_lem tls_incoming req)
        | inr u ↦
            rw (send_upstream, u)
              (
                h,
                u,
                uri_lem req ip port tls,
                (one_host own tls_incoming req.headers, others own tls_incoming req.headers),
              )
      ]

  target-IsRouted :
      (table : Map RouteBackend) (tls_incoming : Bool) (req : Request net api) (t : Target net api)
      → IsTarget net api table (request_host net api req) t
      → target net api table (request_host net api req) ≡ t
      → IsRouted table tls_incoming req (proxy_request net api table tls_incoming req)
  unfolding proxy_request
  target-IsRouted table tls_incoming req (refused status text) h e = rw (proxy_request, e) h
  target-IsRouted table tls_incoming req (upstream ip port tls) h e =
      rw (proxy_request, e) (send_upstream-IsRouted table tls_incoming req ip port tls h)

  -- Every outcome of a request: it goes to the OAuth server's address for one of its hosts, to an
  -- endpoint of the backend that the table has for its host otherwise, and is refused with 502
  -- where the table has none and with 503 where the backend has no endpoint. What is sent has the
  -- path of the request, its headers but `host`, and the one `host` header that it was routed by.
  pub proxy_request-IsRouted :
      (table : Map RouteBackend) (tls_incoming : Bool) (req : Request net api)
      → IsRouted table tls_incoming req (proxy_request net api table tls_incoming req)
  proxy_request-IsRouted table tls_incoming req =
      target-IsRouted table tls_incoming req _
        (target-IsTarget net api table (request_host net api req)) refl
