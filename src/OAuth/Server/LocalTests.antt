-- ===== src/OAuth/Server/LocalTests.antt =====
-- A run of the OAuth server's model in the legacy mode: an admin logs in by a form and redeems the
-- code.
use picoshift.Prelude.{◌+◌, ◌≤◌, String, ◌≡◌, refl, none, some, List, [], ◌∷◌}
use picoshift.Prelude.Maps.{lookup, insert, remove}
use picoshift.Prelude.Text.Replace.{format}
use picoshift.Json.Tree.{text, object, field, end, array, cons, nil, tree_serde}
use picoshift.Kube.{ok}
use picoshift.OAuth.Users.{default_store, authenticate}
use picoshift.OAuth.Http.{Request, collect}
use picoshift.OAuth.State.{Externals, legacy}
use picoshift.OAuth.Clients.{Api, validate_client}
use picoshift.OAuth.Authorize.{
  handle_authorize_post, authorize_query, parse_form_body, form_log_in, check_client, log_in,
  issue_auth_code,
}
use picoshift.OAuth.Token.{
  handle_token, token_query, code_query, redeem, exchange, check_code, authenticate_client,
  check_secret, issue_token, make_token,
}
use picoshift.OAuth.Byoidc.Provider.{Web}
use picoshift.OAuth.Server.{
  Draws, Server, handle_request, Reach, start, request, is_byoidc, stores, first_route,
  second_route, run_bodied,
}
use picoshift.OAuth.Server.Spec.{Event, Run, issues, grants, outstanding}
use picoshift.OAuth.Server.Refinement.{view, Follows, Reach-Run}
use picoshift.OAuth.Server.Sessions.{IsUser, Reach-IsUser, Reach-single_use}

-- A log-in form and a token request at once, with a client without a secret.
abbrev local_sample : Externals tree_serde
local_sample = record {
  EncodingKey = Unit {0};
  DecodingKey = Unit {0};
  jwt_encode = λ kid claims key. none;
  jwt_decode = λ token key. none;
  decode_standard = λ s. none;
  encode_url_safe = λ bs. "";
  decode_url_safe = λ s. none;
  from_utf8 = λ bs. none;
  sha256 = λ bs. bs;
  from_slice = λ bs. none;
  Url = String;
  parse_url = λ s. some s;
  error_url = "http://localhost/error";
  append_pair = λ u k v. format (u ∷ "?" ∷ k ∷ "=" ∷ v ∷ []);
  url_text = λ u. u;
  parse_form = λ bs.
      ("grant_type", "authorization_code")
      ∷ ("code", "c1")
      ∷ ("client_id", "console")
      ∷ ("redirect_uri", "https://console/cb")
      ∷ ("username", "admin")
      ∷ ("password", "admin")
      ∷ [];
}

abbrev local_web : Web local_sample
local_web = record {
  send = λ log s. none;
  text = λ bs. "";
  from_rsa_components = λ n e. none;
  url_path = λ u. "/keys";
  url_query = λ u. none;
  set_path = λ u p. u;
  set_query = λ u q. u;
  scheme = λ u. "https";
  host_str = λ u. none;
  port = λ u. none;
}

abbrev local_server : Api tree_serde
local_server = record {
  client =
      λ log id. ok (object (field "redirectURIs" (array (cons (text "https://console") nil)) end));
  user = λ log name v. ok none;
}

abbrev pub draws : Draws
draws = record {
  code = "c1";
  token = "t1";
  now = 5;
  clocks = record { checked = 6; unix_secs = 7; stored = 8 };
}

abbrev pub to_token : Request
to_token = record { method = "POST"; path = "/oauth/token"; query = none; headers = [] }

abbrev local_begin : Server local_sample local_web
local_begin = record {
  world = record {
    state = record {
      codes = [];
      tokens = [];
      user_store = default_store;
      auth_mode = legacy;
      jwt_keys = none;
      byoidc = none;
      external_jwks = none;
    };
    calls = [];
  };
  sent = [];
}

abbrev to_log_in : Request
to_log_in = record { method = "POST"; path = "/oauth/authorize"; query = none; headers = [] }

abbrev logged_in : Server local_sample local_web
logged_in =
    (handle_request local_sample local_web local_server local_begin to_log_in (some []) draws).1

abbrev redeemed : Server local_sample local_web
redeemed = (handle_request local_sample local_web local_server logged_in to_token (some []) draws).1

local_run : Reach local_sample local_web local_server local_begin 2 redeemed
local_run = request to_token (some []) draws (request to_log_in (some []) draws start)

has_token :
    lookup "sha256~t1" redeemed.world.state.tokens
    ≡ some (record { username = "admin"; created = 8 })
unfolding handle_request first_route run_bodied second_route is_byoidc handle_authorize_post
    authorize_query parse_form_body collect lookup insert remove form_log_in authenticate
    check_client validate_client log_in issue_auth_code handle_token token_query code_query redeem
    exchange check_code authenticate_client check_secret issue_token make_token
has_token = refl

Reach-Run_example :
    (es : List Event) × Follows local_sample local_web local_server local_run es
    × Run default_store es (view local_sample redeemed.world.state)
Reach-Run_example = Reach-Run local_sample local_web local_server refl refl local_run

Reach-single_use_example :
    (es : List Event) × Follows local_sample local_web local_server local_run es
    × Run default_store es (view local_sample redeemed.world.state)
    × ((k : String) → grants k es + outstanding (lookup k redeemed.world.state.codes) ≤ issues k es)
Reach-single_use_example = Reach-single_use local_sample local_web local_server local_run refl refl

Reach-IsUser_example : IsUser (stores local_sample local_web local_run) "admin"
Reach-IsUser_example =
    Reach-IsUser local_sample local_web local_server local_run "sha256~t1"
      (record { username = "admin"; created = 8 }) refl refl has_token
