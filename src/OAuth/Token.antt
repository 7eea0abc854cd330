-- ===== src/OAuth/Token.antt =====
-- The token endpoint of simulator/src/oauth/handlers.rs: `handle_token`, `verify_pkce`,
-- `extract_client_id_from_basic`. The random token and the readings of the clocks are arguments.
pub mod Grants
pub mod SingleUse
use picoshift.Prelude.{
  ℕ, ◌+◌, String, Bool, true, false, not, ◌&&◌, Option, none, some, List, [], ◌∷◌, map, ltb, ◌==◌,
  if◌then◌else◌,
}
use picoshift.Prelude.Maps.{Map, lookup, insert, remove}
use picoshift.Prelude.Options.{◌>>=◌, unwrap_or, or_else}
use picoshift.Prelude.Text.{is_empty, strip_prefix}
use picoshift.Prelude.Text.Bytes.{as_bytes}
use picoshift.Prelude.Text.Replace.{format}
use picoshift.Json.Interface.{Serde}
use picoshift.OAuth.Users.{UserStore, UserEntry, get}
use picoshift.OAuth.Http.{Response, json_response, Reply, reply, go, or_reply, and_go}
use picoshift.OAuth.State.{
  Externals, AuthCode, TokenInfo, JwtKeys, OAuthState, code_ttl, token_ttl_secs, elapsed,
}
use picoshift.OAuth.Clients.{Call, get_client, Api, validate_client}
use picoshift.OAuth.Pages.{oauth_base}
use picoshift.OAuth.Authorize.{World, parse_form_body, basic_credentials, asked}

-- The readings of the clocks: when the code is checked, the seconds since the epoch when the token
-- is signed, and when the token is stored.
pub record Clocks : Type 0 where
  pub checked : ℕ
  pub unix_secs : ℕ
  pub stored : ℕ

abbrev pub bad_request : String → Response
bad_request body = json_response 400 body

abbrev pub invalid_grant : Response
invalid_grant = bad_request "{\"error\":\"invalid_grant\"}"

-- What the handler reads of its parameters.
pub record TokenQuery : Type 0 where
  pub code : String
  pub client_id : String
  pub client_secret : String
  pub code_verifier : Option String

-- The user store's part of a user's claims.
abbrev pub default_email : String → String
default_email username = format (username ∷ "@ocp-sim.test" ∷ [])

abbrev pub email_of : String → Option UserEntry → String
email_of username none = default_email username
email_of username (some entry) = unwrap_or entry.email (default_email username)

abbrev pub groups_of : Option UserEntry → List String
groups_of none = "system:authenticated" ∷ []
groups_of (some entry) = unwrap_or entry.groups ("system:authenticated" ∷ [])

module _ {J : Serde} (X : Externals J) where
  unfoldable pub verify_pkce : String → String → String → Bool
  verify_pkce verifier challenge method =
      if method == "S256"
      then X.encode_url_safe (X.sha256 (as_bytes verifier)) == challenge
      else if method == "plain"
      then verifier == challenge
      else false

  unfoldable pub extract_client_id_from_basic : Option String → Option String
  extract_client_id_from_basic authorization = do
    auth ← authorization
    encoded ← strip_prefix auth "Basic "
    (user, pass) ← basic_credentials X encoded
    some user

  unfoldable pub code_query : Map String → Option String → Reply TokenQuery
  code_query params authorization =
      and_go
        (or_reply (lookup "code" params)
          (bad_request "{\"error\":\"invalid_request\",\"error_description\":\"missing code\"}"))
        λ code.
          and_go
            (or_reply
              (or_else (lookup "client_id" params) (extract_client_id_from_basic authorization))
              (bad_request
                "{\"error\":\"invalid_request\",\"error_description\":\"missing client_id\"}"))
            λ client_id. go (record {
              code = code;
              client_id = client_id;
              client_secret = unwrap_or (lookup "client_secret" params) "";
              code_verifier = lookup "code_verifier" params;
            })

  unfoldable pub token_query : List ℕ → Option String → Reply TokenQuery
  unfolding code_query
  token_query body authorization =
      let params = parse_form_body X body in
      if unwrap_or (lookup "grant_type" params) "" == "authorization_code"
      then code_query params authorization
      else reply (bad_request "{\"error\":\"unsupported_grant_type\"}")

  -- The checks on a code's age and client.
  unfoldable pub check_code : AuthCode → TokenQuery → ℕ → Reply (Unit {0})
  check_code ac q now =
      if ltb code_ttl (elapsed ac.created now)
      then reply
          (bad_request "{\"error\":\"invalid_grant\",\"error_description\":\"code expired\"}")
      else if ac.client_id == q.client_id
      then go tt
      else reply
          (bad_request "{\"error\":\"invalid_grant\",\"error_description\":\"client_id mismatch\"}")

  -- A code with a challenge wants a verifier.
  unfoldable pub check_verifier : String → Option String → Option String → Reply (Unit {0})
  check_verifier challenge method none = reply (
      bad_request "{\"error\":\"invalid_request\",\"error_description\":\"missing code_verifier\"}")
  check_verifier challenge method (some verifier) =
      if verify_pkce verifier challenge (unwrap_or method "S256")
      then go tt
      else reply (
          bad_request
            "{\"error\":\"invalid_grant\",\"error_description\":\"code_verifier mismatch\"}")

  -- Without a challenge the client's secret decides, unless it is empty.
  unfoldable pub check_secret : Option (String × List String) → String → Reply (Unit {0})
  check_secret none client_secret = reply (bad_request "{\"error\":\"invalid_client\"}")
  check_secret (some (expected_secret, uris)) client_secret =
      if not (is_empty expected_secret) && not (client_secret == expected_secret)
      then reply (
          json_response 401
            "{\"error\":\"invalid_client\",\"error_description\":\"bad client_secret\"}")
      else go tt

  unfoldable pub claims : UserStore → String → String → ℕ → J.Value
  claims store username client_id now =
      let entry = get store username in
      J.obj (
        ("iss", J.str oauth_base)
        ∷ ("sub", J.str username)
        ∷ ("aud", J.str client_id)
        ∷ ("preferred_username", J.str username)
        ∷ ("email", J.str (email_of username entry))
        ∷ ("groups", J.arr (map J.str (groups_of entry)))
        ∷ ("iat", J.num now)
        ∷ ("exp", J.num (now + token_ttl_secs))
        ∷ [])

  -- A signed token in the OIDC mode, and otherwise a random one; `none` where signing fails.
  unfoldable pub make_token : OAuthState X → String → String → String → ℕ → Option String
  make_token s username client_id random now = elim s.jwt_keys [
    | none ↦ some (format ("sha256~" ∷ random ∷ []))
    | some keys ↦
        X.jwt_encode keys.kid (claims s.user_store username client_id now) keys.encoding_key
  ]

  unfoldable pub token_body : String → String
  token_body token = J.to_string (
      J.obj (
        ("access_token", J.str token)
        ∷ ("token_type", J.str "Bearer")
        ∷ ("expires_in", J.num token_ttl_secs)
        ∷ []))

  unfoldable pub issue_token :
      World X → AuthCode → TokenQuery → String → Clocks → Response × World X
  issue_token w ac q random t =
      elim (make_token w.state ac.username q.client_id random t.unix_secs) [
        | none ↦ (json_response 500 "{\"error\":\"server_error\"}", w)
        | some token ↦ (
          json_response 200 (token_body token),
          record w {
            state = record w.state {
              tokens =
                  insert token (record { username = ac.username; created = t.stored })
                    w.state.tokens;
            };
          },
        )
      ]

  module _ (api : Api J) where
    -- What is asked of the client beside the code: the API server is called only for a code that
    -- has no challenge.
    unfoldable pub authenticate_client :
        World X → AuthCode → TokenQuery → Reply (Unit {0}) × World X
    authenticate_client w ac q = elim ac.code_challenge [
      | some challenge ↦ (check_verifier challenge ac.code_challenge_method q.code_verifier, w)
      | none ↦ (
        check_secret (validate_client api w.calls q.client_id) q.client_secret,
        asked X api w q.client_id,
      )
    ]

    abbrev pub finish :
        Reply (Unit {0}) × World X → AuthCode → TokenQuery → String → Clocks → Response × World X
    finish (reply r, w) ac q random t = (r, w)
    finish (go _, w) ac q random t = issue_token w ac q random t

    -- The exchange of a code that was found, after its removal.
    unfoldable pub exchange : World X → AuthCode → TokenQuery → String → Clocks → Response × World X
    exchange w ac q random t = elim (check_code ac q t.checked) [
      | reply r ↦ (r, w)
      | go _ ↦ finish (authenticate_client w ac q) ac q random t
    ]

    abbrev pub without_code : World X → String → World X
    without_code w code = record w { state = record w.state { codes = remove code w.state.codes } }

    unfoldable pub redeem : World X → TokenQuery → String → Clocks → Response × World X
    redeem w q random t = elim (lookup q.code w.state.codes) [
      | none ↦ (invalid_grant, w)
      | some ac ↦ exchange (without_code w q.code) ac q random t
    ]

    unfoldable pub handle_token :
        World X → List ℕ → Option String → String → Clocks → Response × World X
    handle_token w body authorization random t = elim (token_query body authorization) [
      | reply r ↦ (r, w)
      | go q ↦ redeem w q random t
    ]
