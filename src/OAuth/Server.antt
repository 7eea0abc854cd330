-- ===== src/OAuth/Server.antt =====
-- The OAuth server as a whole: `handle_request` of simulator/src/oauth/mod.rs,
-- `is_cli_auth_request` of simulator/src/oauth/handlers.rs, `OAuthState::new` of
-- simulator/src/oauth/types.rs, and the runs of `run`: requests, rounds of the eviction task and
-- events of the htpasswd watcher, each as one step.
pub mod Effects
pub mod Requests
pub mod Spec
pub mod Users
pub mod Refinement
pub mod Sessions
pub mod Bounds
pub mod External
mod LocalTests
mod Tests
use picoshift.Prelude.{
  ℕ, ◌+◌, String, Bool, ◌&&◌, ◌||◌, not, Option, none, some, List, [], ◌∷◌, ◌==◌, if◌then◌else◌,
}
use text.Mathlib.Text.{starts_with}
use picoshift.Prelude.Text.{contains}
use picoshift.Json.Interface.{Serde}
use picoshift.OAuth.Http.{Request, header_text, has_header, Response, json_response, text_response}
use picoshift.OAuth.Users.{UserStore}
use picoshift.OAuth.State.{
  Externals, AuthMode, legacy, oidc, byoidc, JwtKeys, ByoidcConfig, OAuthState, evict,
}
use picoshift.OAuth.Clients.{Api}
use picoshift.OAuth.Pages.{discovery_json}
use picoshift.OAuth.Authorize.{World, handle_authorize_get, handle_authorize_post}
use picoshift.OAuth.Token.{Clocks, handle_token}
use picoshift.OAuth.UserInfo.{handle_userinfo, handle_jwks}
use picoshift.OAuth.Byoidc.{handle_byoidc_userinfo}
use picoshift.OAuth.Byoidc.Provider.{Sent, Web, new_cache}
use picoshift.OAuth.Byoidc.Endpoints.{
  WireResponse, wire, handle_byoidc_authorize, handle_byoidc_token, handle_byoidc_jwks,
  handle_byoidc_proxy,
}

unfoldable pub is_byoidc : AuthMode → Bool
is_byoidc legacy = Bool.false
is_byoidc oidc = Bool.false
is_byoidc byoidc = Bool.true

unfoldable pub is_oidc : AuthMode → Bool
is_oidc legacy = Bool.false
is_oidc oidc = Bool.true
is_oidc byoidc = Bool.false

unfoldable pub is_cli_auth_request : Request → Bool
is_cli_auth_request req = has_header req "authorization" || has_header req "x-csrf-token"

-- The paths that the external provider mode passes on.
unfoldable pub is_proxied : String → Bool
is_proxied path =
    contains path "/oauth2/"
    || contains path "/v2.0/"
    || starts_with path "/oidc/"
    || starts_with path "/admin"

-- What a request draws from the random generators and the clocks.
pub record Draws : Type 0 where
  pub code : String
  pub token : String
  pub now : ℕ
  pub clocks : Clocks

-- The handlers of the first `match`, which look at no body, and those of the second.
pub data Bodiless : Type 0 where
  discovery jwks authorize userinfo : Bodiless

pub data Bodied : Type 0 where
  log_in exchange relay not_found : Bodied

unfoldable pub get_route : String → Option Bodiless
get_route path =
    if path == "/.well-known/oauth-authorization-server"
      || path == "/.well-known/openid-configuration"
    then some Bodiless.discovery
    else if path == "/oauth/jwks"
    then some Bodiless.jwks
    else if path == "/oauth/authorize"
    then some Bodiless.authorize
    else if path == "/oauth/userinfo"
    then some Bodiless.userinfo
    else none

unfoldable pub first_route : String → String → Option Bodiless
first_route method path = if method == "GET" then get_route path else none

unfoldable pub second_route : AuthMode → String → String → Bodied
second_route mode method path =
    if method == "POST" && path == "/oauth/authorize"
    then Bodied.log_in
    else if method == "POST" && path == "/oauth/token"
    then Bodied.exchange
    else if is_byoidc mode && is_proxied path
    then Bodied.relay
    else Bodied.not_found

module _ {J : Serde} (X : Externals J) (W : Web X) where
  -- The server's state with the calls to the API server, and the requests to the provider.
  pub record Server : Type 0 where
    pub world : World X
    pub sent : List Sent

  -- The answer, `none` where the connection ends without one.
  abbrev pub Answered : Type 0
  Answered = Option WireResponse × Server

  abbrev pub unchanged : Server → Response → Answered
  unchanged s r = (some (wire r), s)

  abbrev stepped : Server → Response × World X → Answered
  stepped s (r, w) = (some (wire r), record s { world = w })

  abbrev fetched : Server → Response × List Sent → Answered
  fetched s (r, log) = (some (wire r), record s { sent = log })

  abbrev passed_on : Server → WireResponse × List Sent → Answered
  passed_on s (r, log) = (some r, record s { sent = log })

  abbrev exchanged : Response × World X × List Sent → Answered
  exchanged (r, w, log) = (some (wire r), record { world = w; sent = log })

  abbrev redirected : Server → Option Response → Answered
  redirected s none = (none, s)
  redirected s (some r) = unchanged s r

  module _ (api : Api J) where
    unfoldable pub run_bodiless : Server → Request → Draws → Bodiless → Answered
    run_bodiless s req d Bodiless.discovery =
        unchanged s (json_response 200 (discovery_json J s.world.state.auth_mode))
    run_bodiless s req d Bodiless.jwks =
        if is_byoidc s.world.state.auth_mode
        then fetched s (handle_byoidc_jwks X W s.world.state s.sent)
        else unchanged s (handle_jwks X s.world.state)
    run_bodiless s req d Bodiless.authorize =
        if is_byoidc s.world.state.auth_mode && not (is_cli_auth_request req)
        then redirected s (handle_byoidc_authorize X W s.world.state req)
        else stepped s (handle_authorize_get X api s.world req d.code d.now)
    run_bodiless s req d Bodiless.userinfo =
        if is_byoidc s.world.state.auth_mode
        then unchanged s (handle_byoidc_userinfo X s.world.state req)
        else unchanged s (handle_userinfo X s.world.state req d.now)

    unfoldable pub run_bodied : Server → Request → List ℕ → Draws → Bodied → Answered
    run_bodied s req body d Bodied.log_in =
        stepped s (handle_authorize_post X api s.world body d.code d.now)
    run_bodied s req body d Bodied.exchange =
        if is_byoidc s.world.state.auth_mode
        then exchanged (handle_byoidc_token X W api s.world s.sent body)
        else stepped s
            (handle_token X api s.world body (header_text req "authorization") d.token d.clocks)
    run_bodied s req body d Bodied.relay = passed_on s (
        handle_byoidc_proxy X W s.world.state s.sent req.method req.path req.query body
          (header_text req "content-type") (header_text req "authorization"))
    run_bodied s req body d Bodied.not_found = unchanged s (text_response 404 "not found\n")

    -- `none` for a body that could not be read.
    unfoldable pub handle_request : Server → Request → Option (List ℕ) → Draws → Answered
    handle_request s req body d = elim (first_route req.method req.path) [
      | some h ↦ run_bodiless s req d h
      | none ↦ elim body [
        | none ↦ (none, s)
        | some bytes ↦
            run_bodied s req bytes d (second_route s.world.state.auth_mode req.method req.path)
      ]
    ]

  -- `OAuthState::new`; the generated key pair is an argument.
  unfoldable pub new_state :
      JwtKeys X → UserStore → AuthMode → Option ByoidcConfig → List Sent → OAuthState X × List Sent
  new_state generated user_store auth_mode config log =
      let empty : OAuthState X = record {
        codes = [];
        tokens = [];
        user_store = user_store;
        auth_mode = auth_mode;
        jwt_keys = if is_oidc auth_mode then some generated else none;
        byoidc = config;
        external_jwks = none;
      } in
      elim config [
        | none ↦ (empty, log)
        | some cfg ↦
            let (cache, log') = new_cache X W cfg.issuer_url log in
            (record empty { external_jwks = some cache }, log')
      ]

  -- The states that the server reaches from its start, with the number of requests so far. A step is
  -- a request, a round of the eviction task, or a store that the htpasswd watcher puts in place.
  pub data Reach (api : Api J) (s0 : Server) : ℕ → Server → Type 0 where
    start : Reach api s0 0 s0
    request :
        {n : ℕ} {s : Server} (req : Request) (body : Option (List ℕ)) (d : Draws)
        → Reach api s0 n s
        → Reach api s0 (n + 1) (handle_request api s req body d).1
    evicted :
        {n : ℕ} {s : Server} (now : ℕ)
        → Reach api s0 n s
        → Reach api s0 n (record s { world = record s.world { state = evict X now s.world.state } })
    reloaded :
        {n : ℕ} {s : Server} (store : UserStore)
        → Reach api s0 n s
        → Reach api s0 n (record s {
          world = record s.world { state = record s.world.state { user_store = store } };
        })

  -- The stores that were in force in a run, the latest first.
  unfoldable pub stores :
      {api : Api J} {s0 : Server} {n : ℕ} {s : Server} → Reach api s0 n s → List UserStore
  stores {s0} start = s0.world.state.user_store ∷ []
  stores (request req body d r) = stores r
  stores (evicted now r) = stores r
  stores (reloaded store r) = store ∷ stores r
