-- ===== src/OAuth/Authorize.antt =====
-- The authorize handlers of simulator/src/oauth/handlers.rs: `issue_auth_code`,
-- `handle_authorize_get`, `handle_authorize_post`. The random code and the clock are arguments.
pub mod Parts
pub mod Logins
use picoshift.Prelude.{
  ℕ, String, Bool, true, false, not, ◌||◌, Option, none, some, List, [], ◌∷◌, any, ◌==◌,
  if◌then◌else◌,
}
use text.Mathlib.Text.{starts_with}
use picoshift.Prelude.Maps.{Map, lookup, insert}
use picoshift.Prelude.Options.{◌>>=◌, unwrap_or, is_none, is_some}
use picoshift.Prelude.Text.{is_empty, strip_prefix}
use picoshift.Prelude.Text.Bytes.{as_bytes}
use picoshift.Prelude.Text.Trim.{trim}
use picoshift.Prelude.Text.Split.{split_once}
use picoshift.Json.Interface.{Serde}
use picoshift.OAuth.Users.{UserStore, authenticate}
use picoshift.OAuth.Http.{
  Request, header_text, has_header, Response, text_response, html_response, collect, Reply, reply,
  go, or_reply, and_go,
}
use picoshift.OAuth.State.{Externals, AuthCode, OAuthState}
use picoshift.OAuth.Clients.{Call, get_client, Api, validate_client, ensure_user_and_identity}
use picoshift.OAuth.Pages.{login_form_html}

abbrev pub found : String → Response
found location = record { status = 302; headers = ("location", location) ∷ []; body = "" }

abbrev pub unauthorized : String → Response
unauthorized body = record {
  status = 401;
  headers = ("www-authenticate", "Basic realm=\"openshift\"") ∷ [];
  body = body;
}

-- What the two handlers read of their parameters.
pub record AuthorizeQuery : Type 0 where
  pub client_id : String
  pub redirect_uri : String
  pub req_state : String
  pub response_type : String
  pub code_challenge : Option String
  pub code_challenge_method : Option String

unfoldable pub authorize_query : Map String → Reply AuthorizeQuery
authorize_query params =
    and_go (or_reply (lookup "client_id" params) (text_response 400 "missing client_id\n"))
      λ client_id.
        and_go
          (or_reply (lookup "redirect_uri" params) (text_response 400 "missing redirect_uri\n"))
          λ redirect_uri. go (record {
            client_id = client_id;
            redirect_uri = redirect_uri;
            req_state = unwrap_or (lookup "state" params) "";
            response_type = unwrap_or (lookup "response_type" params) "";
            code_challenge = lookup "code_challenge" params;
            code_challenge_method = lookup "code_challenge_method" params;
          })

abbrev pub challenge_or_form : Request → AuthorizeQuery → Map String → Response
challenge_or_form req q params =
    if has_header req "x-csrf-token"
    then unauthorized "challenge\n"
    else html_response 200 (
        login_form_html q.client_id q.redirect_uri q.req_state q.response_type
          (is_some (lookup "error" params)))

-- The credentials of an `authorization` header that begins with `Basic `.
unfoldable pub basic_header : Request → Option String
basic_header req = header_text req "authorization" >>= λ auth. strip_prefix auth "Basic "

module _ {J : Serde} (api : Api J) where
  -- `validate_client` and the prefix test on the redirect URI.
  unfoldable pub check_client : List (Call J) → AuthorizeQuery → Reply (Unit {0})
  check_client log q = elim (validate_client api log q.client_id) [
    | none ↦ reply (text_response 400 "unknown client_id\n")
    | some (secret, redirect_uris) ↦
        if any (λ u. starts_with q.redirect_uri u) redirect_uris
        then go tt
        else reply (text_response 400 "redirect_uri mismatch\n")
  ]

module _ {J : Serde} (X : Externals J) where
  -- The server's state, and the calls that it has made to the API server, the latest first.
  pub record World : Type 0 where
    pub state : OAuthState X
    pub calls : List (Call J)

  -- `parse_query`, `parse_form_body`
  unfoldable pub parse_query : Request → Map String
  parse_query req = elim req.query [ none ↦ [] | some q ↦ collect [] (X.parse_form (as_bytes q)) ]

  unfoldable pub parse_form_body : List ℕ → Map String
  parse_form_body body = collect [] (X.parse_form body)

  -- The decoding of `Basic` credentials, up to `split_once(':')`.
  unfoldable pub basic_credentials : String → Option (String × String)
  basic_credentials encoded = do
    decoded ← X.decode_standard (trim encoded)
    cred_str ← X.from_utf8 decoded
    split_once b':' cred_str

  unfoldable pub redirect_to : String → String → String → String
  redirect_to redirect_uri code req_state =
      let redirect = unwrap_or (X.parse_url redirect_uri) X.error_url in
      let redirect = X.append_pair redirect "code" code in
      X.url_text (if is_empty req_state then redirect else X.append_pair redirect "state" req_state)

  unfoldable pub issue_auth_code : World → String → AuthorizeQuery → String → ℕ → Response × World
  issue_auth_code w username q code now =
      let auth_code : AuthCode = record {
        username = username;
        client_id = q.client_id;
        created = now;
        code_challenge = q.code_challenge;
        code_challenge_method = q.code_challenge_method;
      } in
      (
        found (redirect_to q.redirect_uri code q.req_state),
        record w { state = record w.state { codes = insert code auth_code w.state.codes } },
      )

  module _ (api : Api J) where
    abbrev pub asked : World → String → World
    asked w client_id = record w { calls = get_client client_id ∷ w.calls }

    unfoldable pub log_in : World → String → AuthorizeQuery → String → ℕ → Response × World
    unfolding issue_auth_code
    log_in w username q code now =
        issue_auth_code (record w { calls = ensure_user_and_identity api w.calls username })
          username q code now

    -- The user of `Basic` credentials that the store accepts.
    unfoldable pub basic_user : UserStore → String → Option String
    basic_user store encoded = do
      (user, pass) ← basic_credentials encoded
      entry ← authenticate store user pass
      some user

    -- The answer to a request whose client and redirect URI are good.
    unfoldable pub authorize_request :
        World → Request → AuthorizeQuery → Map String → String → ℕ → Response × World
    authorize_request w req q params code now = elim (basic_header req) [
      | none ↦ (challenge_or_form req q params, w)
      | some encoded ↦ elim (basic_user w.state.user_store encoded) [
        | none ↦ (unauthorized "invalid credentials\n", w)
        | some user ↦ log_in w user q code now
      ]
    ]

    unfoldable pub handle_authorize_get : World → Request → String → ℕ → Response × World
    handle_authorize_get w req code now =
        let params = parse_query req in
        elim (authorize_query params) [
          | reply r ↦ (r, w)
          | go q ↦
              let w' = asked w q.client_id in
              elim (check_client api w.calls q) [
                | reply r ↦ (r, w')
                | go _ ↦ authorize_request w' req q params code now
              ]
        ]

    -- The log-in of a form whose client and redirect URI are named.
    unfoldable pub form_log_in : World → Map String → AuthorizeQuery → String → ℕ → Response × World
    form_log_in w params q code now =
        let username = unwrap_or (lookup "username" params) "" in
        let password = unwrap_or (lookup "password" params) "" in
        if is_empty username || is_none (authenticate w.state.user_store username password)
        then (
          html_response 200
              (login_form_html q.client_id q.redirect_uri q.req_state q.response_type true),
          w,
        )
        else elim (check_client api w.calls q) [
          | reply r ↦ (r, asked w q.client_id)
          | go _ ↦ log_in (asked w q.client_id) username q code now
        ]

    unfoldable pub handle_authorize_post : World → List ℕ → String → ℕ → Response × World
    handle_authorize_post w body code now =
        let params = parse_form_body body in
        elim (authorize_query params) [ reply r ↦ (r, w) | go q ↦ form_log_in w params q code now ]
