-- ===== src/OAuth/Tests.antt =====
-- Runs of the OAuth server's model at concrete inputs.
use picoshift.Prelude.{
  ℕ, ◌+◌, String, ◌≡◌, ◌≢◌, refl, none, some, List, [], ◌∷◌, arith, ltb, ◌==◌, if◌then◌else◌,
}
use picoshift.Prelude.Maps.{lookup, insert, remove}
use picoshift.Prelude.Text.Replace.{format}
use picoshift.Json.Tree.{Tree, text, object, field, end, array, cons, nil, tree_serde}
use picoshift.Kube.{ok}
use picoshift.OAuth.Users.{default_store, authenticate}
use picoshift.Prelude.Text.Bytes.{as_bytes, encode_utf8}
use picoshift.Prelude.Text.Trim.{trim, trim_start, trim_end, is_whitespace}
use picoshift.Prelude.Text.Split.{split_once, split}
use picoshift.OAuth.Byoidc.{header_kid, validate_token, handle_byoidc_userinfo}
use picoshift.OAuth.Byoidc.Validation.{IsValidated, handle_byoidc_userinfo-IsValidated}
use picoshift.OAuth.Der.{without_sign, parse_rsa_integers}
use picoshift.OAuth.Der.RoundTrip.{parse_rsa_integers-sequence, sequence, short}
use picoshift.OAuth.Http.{Request, header_text, collect, go}
use picoshift.OAuth.State.{Externals, AuthCode, legacy, OAuthState, evict, token_ttl, elapsed}
use picoshift.OAuth.Clients.{Api, validate_client}
use picoshift.OAuth.Authorize.{
  World, AuthorizeQuery, check_client, authorize_request, basic_header, basic_user, log_in,
  form_log_in, issue_auth_code, redirect_to, parse_query, parse_form_body, basic_credentials,
  authorize_query, handle_authorize_get, handle_authorize_post,
}
use picoshift.OAuth.Authorize.Logins.{
  IsLoggedIn, CarriesBasic, CarriesForm, handle_authorize_get-IsLoggedIn,
  handle_authorize_post-IsLoggedIn,
}
use picoshift.OAuth.Token.{
  code_query, redeem, exchange, check_code, authenticate_client, check_verifier, verify_pkce,
  issue_token, make_token, TokenQuery, Clocks, token_query, handle_token, invalid_grant,
}
use picoshift.OAuth.Token.Grants.{IsGranted, handle_token-IsGranted}
use picoshift.OAuth.Token.SingleUse.{handle_token-again}
use picoshift.OAuth.UserInfo.{token_user, handle_userinfo}
use picoshift.OAuth.UserInfo.Sessions.{
  bearer_token, handle_userinfo-evict, handle_userinfo-unsigned, token_user-handle_token,
}

-- A request of the token endpoint, one of the authorize endpoint, and one with a wrong grant type.
abbrev form : List ℕ → List (String × String)
form [] =
    ("grant_type", "authorization_code")
    ∷ ("code", "c1")
    ∷ ("client_id", "console")
    ∷ ("code_verifier", "v1")
    ∷ []
form (b ∷ []) =
    ("client_id", "console")
    ∷ ("redirect_uri", "https://console/cb")
    ∷ ("username", "admin")
    ∷ ("password", "admin")
    ∷ []
form (b ∷ c ∷ bs) = ("grant_type", "password") ∷ []

abbrev sample : Externals tree_serde
sample = record {
  EncodingKey = Unit {0};
  DecodingKey = Unit {0};
  jwt_encode = λ kid claims key. none;
  jwt_decode = λ token key. some (object (field "sub" (text "bob") end));
  decode_standard = λ s. some (1 ∷ 2 ∷ []);
  encode_url_safe = λ bs. "";
  decode_url_safe = λ s. if s == "h1" then some [] else none;
  from_utf8 = λ bs. some "admin:admin";
  sha256 = λ bs. bs;
  from_slice = λ bs. some (object (field "kid" (text "k1") end));
  parse_form = form;
  Url = String;
  parse_url = λ s. some s;
  error_url = "http://localhost/error";
  append_pair = λ u k v. format (u ∷ "?" ∷ k ∷ "=" ∷ v ∷ []);
  url_text = λ u. u;
}

abbrev console : Tree
console = object (
    field "secret" (text "s1")
      (field "redirectURIs" (array (cons (text "https://console") nil)) end))

abbrev server : Api tree_serde
server = record { client = λ log id. ok console; user = λ log name v. ok (some "uid-1") }

abbrev stored_code : AuthCode
stored_code = record {
  username = "admin";
  client_id = "console";
  created = 5;
  code_challenge = some "v1";
  code_challenge_method = some "plain";
}

abbrev world : World sample
world = record {
  state = record {
    codes = ("c1", stored_code) ∷ [];
    tokens = [];
    user_store = default_store;
    auth_mode = legacy;
    jwt_keys = none;
    byoidc = none;
    external_jwks = none;
  };
  calls = [];
}

abbrev clocks : Clocks
clocks = record { checked = 6; unix_secs = 7; stored = 8 }

abbrev query : TokenQuery
query = record { code = "c1"; client_id = "console"; client_secret = ""; code_verifier = some "v1" }

reads : token_query sample [] none ≡ go query
unfolding token_query parse_form_body collect lookup insert remove
reads = refl

answers : (handle_token sample server world [] none "r" clocks).0.status ≡ 200
unfolding handle_token token_query code_query parse_form_body collect lookup insert remove redeem
    exchange check_code authenticate_client check_verifier verify_pkce issue_token make_token
answers = refl

handle_token-IsGranted_example :
    (q : TokenQuery) × (token_query sample [] none ≡ go q) × IsGranted sample server world q 6
handle_token-IsGranted_example =
    handle_token-IsGranted sample server world [] none "r" clocks answers

handle_token-again_example :
    handle_token sample server
      (handle_token sample server world [] none "r" clocks).1
      []
      none
      "s"
      clocks
    ≡ (invalid_grant, (handle_token sample server world [] none "r" clocks).1)
handle_token-again_example =
    handle_token-again sample server world [] [] none none "r" "s" clocks clocks query query reads
      reads refl

refuses : (handle_token sample server world (1 ∷ 2 ∷ []) none "r" clocks).0.status ≢ 200
unfolding handle_token token_query parse_form_body collect lookup insert remove
refuses h = let bad : ◌≡◌ {A = ℕ} 400 200 = h in absurd (omega (arith, bad))

token_user-handle_token_example :
    (q : TokenQuery) × (ac : AuthCode) × (token_query sample [] none ≡ go q)
    × (lookup q.code world.state.codes ≡ some ac)
    × ((now : ℕ)
        → token_user sample
            (handle_token sample server world [] none "r" clocks).1.state
            (format ("sha256~" ∷ "r" ∷ []))
            now
          ≡ (if ltb (elapsed 8 now) token_ttl then some ac.username else none))
token_user-handle_token_example =
    token_user-handle_token sample server world [] none "r" clocks refl answers

-- A request with the credentials `admin:admin`, and one with a token that nobody has signed.
abbrev with_basic : Request
with_basic = record {
  method = "GET";
  path = "/oauth/authorize";
  query = some "q";
  headers = ("authorization", some "Basic YWRtaW46YWRtaW4=") ∷ [];
}

redirects : (handle_authorize_get sample server world with_basic "c2" 9).0.status ≡ 302
unfolding handle_authorize_get authorize_query parse_query collect lookup insert remove check_client
    validate_client as_bytes encode_utf8 authorize_request basic_header basic_user log_in
    header_text issue_auth_code authenticate basic_credentials split_once trim trim_start trim_end
    is_whitespace redirect_to
redirects = refl

handle_authorize_get-IsLoggedIn_example :
    (q : AuthorizeQuery) × (authorize_query (parse_query sample with_basic) ≡ go q)
    × IsLoggedIn sample server
        (CarriesBasic sample server with_basic)
        world
        (handle_authorize_get sample server world with_basic "c2" 9).1
        q
        "c2"
        9
handle_authorize_get-IsLoggedIn_example =
    handle_authorize_get-IsLoggedIn sample server world with_basic "c2" 9 redirects

posted : (handle_authorize_post sample server world (1 ∷ []) "c2" 9).0.status ≡ 302
unfolding handle_authorize_post form_log_in authorize_query parse_form_body collect lookup insert
    remove check_client validate_client log_in issue_auth_code authenticate redirect_to
posted = refl

handle_authorize_post-IsLoggedIn_example :
    (q : AuthorizeQuery) × (authorize_query (parse_form_body sample (1 ∷ [])) ≡ go q)
    × IsLoggedIn sample server
        (CarriesForm sample server (parse_form_body sample (1 ∷ [])))
        world
        (handle_authorize_post sample server world (1 ∷ []) "c2" 9).1
        q
        "c2"
        9
handle_authorize_post-IsLoggedIn_example =
    handle_authorize_post-IsLoggedIn sample server world (1 ∷ []) "c2" 9 posted

abbrev with_bearer : Request
with_bearer = record {
  method = "GET";
  path = "/oauth/userinfo";
  query = none;
  headers = ("authorization", some "Bearer eyJ.e30.x") ∷ [];
}

bears : bearer_token with_bearer ≡ some "eyJ.e30.x"
unfolding header_text lookup
bears = refl

-- A state with a token that is a day old, at the instant `token_ttl`.
abbrev with_token : OAuthState sample
with_token = record world.state { tokens = ("t1", record { username = "admin"; created = 0 }) ∷ [] }

handle_userinfo-unsigned_example :
    handle_userinfo sample world.state with_bearer 1
    ≡ handle_userinfo sample with_token with_bearer 2
handle_userinfo-unsigned_example =
    handle_userinfo-unsigned sample world.state with_token with_bearer 1 2 "eyJ.e30.x" bears refl
      refl

abbrev with_old : Request
with_old = record with_bearer { headers = ("authorization", some "Bearer t1") ∷ [] }

handle_userinfo-evict_example :
    handle_userinfo sample (evict sample token_ttl with_token) with_old (token_ttl + 1)
    ≡ handle_userinfo sample with_token with_old (token_ttl + 1)
unfolding lookup
handle_userinfo-evict_example =
    handle_userinfo-evict sample with_token with_old token_ttl (token_ttl + 1) (refl, tt)
      (omega arith)

parse_rsa_integers-sequence_example :
    parse_rsa_integers (sequence (9 ∷ []) (3 ∷ []) (0 ∷ 200 ∷ 7 ∷ []) (3 ∷ []) (1 ∷ 0 ∷ 1 ∷ []) [])
    ≡ some (without_sign (0 ∷ 200 ∷ 7 ∷ []), 1 ∷ 0 ∷ 1 ∷ [])
parse_rsa_integers-sequence_example =
    parse_rsa_integers-sequence 9 (9 ∷ []) (3 ∷ []) (0 ∷ 200 ∷ 7 ∷ []) (3 ∷ []) (1 ∷ 0 ∷ 1 ∷ []) []
      (short (omega arith)) (short (omega arith)) (short (omega arith))

-- The external provider's key, and a token whose header names it.
abbrev external_state : OAuthState sample
external_state = record world.state {
  external_jwks = some (record {
    keys = ("k1", tt) ∷ [];
    discovery = record {
      authorization_endpoint = "";
      token_endpoint = "";
      userinfo_endpoint = "";
      jwks_uri = "";
    };
  });
}

abbrev with_external : Request
with_external = record with_bearer { headers = ("authorization", some "Bearer h1.e30.x") ∷ [] }

accepts : (handle_byoidc_userinfo sample external_state with_external).status ≡ 200
unfolding handle_byoidc_userinfo validate_token header_kid lookup header_text split
accepts = refl

handle_byoidc_userinfo-IsValidated_example : IsValidated sample external_state with_external
handle_byoidc_userinfo-IsValidated_example =
    handle_byoidc_userinfo-IsValidated sample external_state with_external accepts
