-- ===== src/OAuth/Byoidc/Endpoints.antt =====
-- The endpoints of the external provider mode that send requests to the provider,
-- simulator/src/oauth/byoidc.rs: `handle_byoidc_authorize`, `handle_byoidc_token`,
-- `handle_byoidc_jwks`, `handle_byoidc_proxy`. Redirects point at `https://entra.apps.ocp-sim.test`.
use picoshift.Prelude.{
  ℕ, String, Bool, Option, none, some, List, [], ◌∷◌, ◌++◌, ◌==◌, ◌&&◌, leb, ltb, filter,
  if◌then◌else◌, show,
}
use picoshift.Prelude.Maps.{lookup}
use picoshift.Prelude.Options.{◌>>=◌, unwrap_or, or_else}
use picoshift.Prelude.Text.{is_empty}
use picoshift.Prelude.Text.Bytes.{as_bytes}
use picoshift.Prelude.Text.Replace.{format}
use picoshift.Json.Interface.{Serde}
use picoshift.OAuth.Http.{
  Request, Response, json_response, text_response, Reply, reply, go, or_reply, and_go,
}
use picoshift.OAuth.State.{Externals, ByoidcConfig, ExternalJwksCache, OAuthState}
use picoshift.OAuth.Clients.{Call, Api, ensure_user_and_identity}
use picoshift.OAuth.Authorize.{found, parse_query, parse_form_body, World}
use picoshift.OAuth.Byoidc.{validate_token, claims_user}
use picoshift.OAuth.Byoidc.Provider.{form, raw, Content, Sent, Answer, Web, get_request}

-- A response as it goes out: headers may repeat, and the body is bytes.
pub record WireResponse : Type 0 where
  pub status : ℕ
  pub headers : List (String × String)
  pub body : List ℕ

unfoldable pub wire : Response → WireResponse
wire r = record { status = r.status; headers = r.headers; body = as_bytes r.body }

abbrev no_keys : Response
no_keys = json_response 200 "{\"keys\":[]}"

abbrev pub entra_base : String
entra_base = "https://entra.apps.ocp-sim.test"

-- `StatusCode::from_u16(…).unwrap_or(StatusCode::BAD_GATEWAY)`
abbrev pub status_from_u16 : ℕ → ℕ
status_from_u16 s = if leb 100 s && ltb s 1000 then s else 502

-- `headers().get(name)`, the first of the values, as a header before the rest of the answer's.
unfoldable pub copied :
    List (String × String) → String → List (String × String) → List (String × String)
copied headers name rest = elim (lookup name headers) [ none ↦ rest | some v ↦ (name, v) ∷ rest ]

unfoldable pub cookies : List (String × String) → List (String × String)
cookies headers = filter (λ h. h.0 == "set-cookie") headers

-- The headers of an answer that are passed on.
unfoldable pub relayed_headers : List (String × String) → List (String × String)
relayed_headers headers = copied headers "location" (
    copied headers "content-type"
      (copied headers "www-authenticate" (copied headers "cache-control" (cookies headers))))

abbrev pub relayed : Option Answer → WireResponse
relayed none = wire (text_response 502 "proxy request failed\n")
relayed (some resp) = record {
  status = status_from_u16 resp.status;
  headers = relayed_headers resp.headers;
  body = unwrap_or resp.body [];
}

abbrev header_if_some : String → Option String → List (String × String)
header_if_some name none = []
header_if_some name (some v) = (name, v) ∷ []

module _ {J : Serde} (X : Externals J) (W : Web X) where
  unfoldable pub configured :
      OAuthState X → Response → Response → Reply (ByoidcConfig × ExternalJwksCache X)
  configured s no_config no_cache =
      and_go (or_reply s.byoidc no_config)
        λ byoidc. and_go (or_reply s.external_jwks no_cache) λ cache. go (byoidc, cache)

  -- The redirect to the provider's login page; `none` is the panic of `unwrap`, on a path that makes
  -- no URL behind the base.
  unfoldable pub login_redirect : X.Url → ByoidcConfig → String → String → Option Response
  login_redirect ext_url byoidc redirect_uri req_state = do
    auth_url ← X.parse_url (format (entra_base ∷ W.url_path ext_url ∷ []))
    let u = X.append_pair auth_url "response_type" "code" in
        let u = X.append_pair u "client_id" byoidc.client_id in
        let u = X.append_pair u "redirect_uri" redirect_uri in
        let u = X.append_pair u "scope" "openid email profile api://picoshift/.default" in
        let u = X.append_pair u "state" req_state in some (found (X.url_text u))

  unfoldable pub handle_byoidc_authorize : OAuthState X → Request → Option Response
  handle_byoidc_authorize s req =
      elim (configured s (text_response 500 "BYOIDC not configured\n")
        (text_response 500 "BYOIDC JWKS not loaded\n")) [
          | reply r ↦ some r
          | go (byoidc, cache) ↦
              let params = parse_query X req in
              if is_empty cache.discovery.authorization_endpoint
              then some (text_response 502 "external authorization_endpoint not discovered\n")
              else elim (X.parse_url cache.discovery.authorization_endpoint) [
                | none ↦ some (text_response 502 "invalid external authorization_endpoint\n")
                | some ext_url ↦
                    login_redirect ext_url byoidc (unwrap_or (lookup "redirect_uri" params) "")
                      (unwrap_or (lookup "state" params) "")
              ]
        ]

  unfoldable pub token_request : ByoidcConfig → ExternalJwksCache X → List ℕ → Sent
  token_request byoidc cache body =
      let params = parse_form_body X body in
      record {
        method = "POST";
        url = cache.discovery.token_endpoint;
        headers = [];
        content = form (
            ("grant_type", "authorization_code")
            ∷ ("code", unwrap_or (lookup "code" params) "")
            ∷ ("client_id", byoidc.client_id)
            ∷ ("client_secret", byoidc.client_secret)
            ∷ ("redirect_uri", unwrap_or (lookup "redirect_uri" params) "")
            ∷ []);
        follow = Bool.true;
      }

  -- The claims of the token that decides who has logged in: those of the access token, and where it
  -- does not verify, those of the ID token. Without an access token neither is looked at.
  unfoldable pub exchanged_claims : ExternalJwksCache X → J.Value → Option J.Value
  exchanged_claims cache token_resp = do
    access_token ← J.get token_resp "access_token" >>= J.as_str
    or_else (validate_token X cache access_token)
        (J.get token_resp "id_token" >>= J.as_str >>= validate_token X cache)

  -- The answer of the provider to a token request, as JSON.
  unfoldable pub token_answer : Option Answer → Reply J.Value
  token_answer answer =
      and_go (or_reply answer (json_response 502 "{\"error\":\"token_exchange_failed\"}")) λ resp.
        or_reply (resp.body >>= X.from_slice)
          (json_response 502 "{\"error\":\"token_parse_failed\"}")

  module _ (api : Api J) where
    unfoldable pub ensure_user : List (Call J) → Option J.Value → List (Call J)
    ensure_user calls none = calls
    ensure_user calls (some claims) = ensure_user_and_identity api calls (claims_user X claims)

    unfoldable pub finish_exchange :
        World X → ExternalJwksCache X → Option Answer → Response × World X
    finish_exchange w cache answer = elim (token_answer answer) [
      | reply r ↦ (r, w)
      | go token_resp ↦ (
        json_response 200 (J.to_string token_resp),
        record w { calls = ensure_user w.calls (exchanged_claims cache token_resp) },
      )
    ]

    unfoldable pub handle_byoidc_token :
        World X → List Sent → List ℕ → Response × World X × List Sent
    handle_byoidc_token w log body =
        elim (configured w.state (json_response 500 "{\"error\":\"byoidc_not_configured\"}")
          (json_response 500 "{\"error\":\"byoidc_jwks_not_loaded\"}")) [
            | reply r ↦ (r, w, log)
            | go (byoidc, cache) ↦
                let req = token_request byoidc cache body in
                let (r, after) = finish_exchange w cache (W.send log req) in
                if is_empty cache.discovery.token_endpoint
                then (json_response 502 "{\"error\":\"no_external_token_endpoint\"}", w, log)
                else (r, after, req ∷ log)
          ]

  abbrev keys_response : Option Answer → Response
  keys_response none = no_keys
  keys_response (some resp) = elim resp.body [
    | none ↦ no_keys
    | some bytes ↦ json_response 200 (W.text bytes)
  ]

  unfoldable pub handle_byoidc_jwks : OAuthState X → List Sent → Response × List Sent
  handle_byoidc_jwks s log = elim s.external_jwks [
    | none ↦ (no_keys, log)
    | some cache ↦ elim s.byoidc [
      | none ↦ (no_keys, log)
      | some byoidc ↦
          let req = get_request cache.discovery.jwks_uri in
          if is_empty cache.discovery.jwks_uri
          then (no_keys, log)
          else (keys_response (W.send log req), req ∷ log)
    ]
  ]

  -- The address at the issuer that a path stands for.
  unfoldable pub target_url : X.Url → String → Option String → String
  target_url issuer path query = format (
      W.scheme issuer
      ∷ "://"
      ∷ unwrap_or (W.host_str issuer) "localhost"
      ∷ unwrap_or (W.port issuer >>= λ p. some (format (":" ∷ show p ∷ []))) ""
      ∷ path
      ∷ unwrap_or (query >>= λ q. some (format ("?" ∷ q ∷ []))) ""
      ∷ [])

  -- Only a POST keeps its method, its body and its content type.
  unfoldable pub relayed_request : String → String → List ℕ → Option String → Option String → Sent
  relayed_request method url body content_type authorization =
      let auth = header_if_some "authorization" authorization in
      if method == "POST"
      then record {
        method = "POST";
        url = url;
        headers = header_if_some "content-type" content_type ++ auth;
        content = raw body;
        follow = Bool.false;
      }
      else record {
        method = "GET";
        url = url;
        headers = auth;
        content = Content.no_content;
        follow = Bool.false;
      }

  unfoldable pub handle_byoidc_proxy :
      OAuthState X
      → List Sent
      → String
      → String
      → Option String
      → List ℕ
      → Option String
      → Option String
      → WireResponse × List Sent
  handle_byoidc_proxy s log method path query body content_type authorization = elim s.byoidc [
    | none ↦ (wire (text_response 502 "BYOIDC not configured\n"), log)
    | some byoidc ↦ elim (X.parse_url byoidc.issuer_url) [
      | none ↦ (wire (text_response 502 "invalid issuer URL\n"), log)
      | some issuer ↦
          let req =
            relayed_request method (target_url issuer path query) body content_type authorization in
          (relayed (W.send log req), req ∷ log)
    ]
  ]
