-- ===== src/OAuth/Server/Tests.antt =====
-- Runs of the OAuth server's model, and of the external provider mode, at concrete inputs.
use picoshift.Prelude.{
  ℕ, String, ◌≡◌, refl, ◌⊎◌, false, Option, none, some, List, [], ◌∷◌, ◌==◌, length, if◌then◌else◌,
}
use picoshift.Prelude.Maps.{lookup, insert, remove}
use picoshift.Prelude.Text.Replace.{format}
use picoshift.Json.Tree.{Tree, text, object, field, end, array, cons, nil, tree_serde}
use picoshift.Kube.{ok}
use picoshift.OAuth.Users.{default_store}
use picoshift.OAuth.Http.{collect}
use picoshift.OAuth.State.{Externals, byoidc, ByoidcConfig, ExternalJwksCache, OAuthState, evict}
use picoshift.OAuth.Clients.{Api, ensure_user_and_identity}
use picoshift.OAuth.Authorize.{parse_form_body}
use picoshift.OAuth.Byoidc.Provider.{
  Web, refresh, new_cache, empty_cache, max_attempts, refresh_keys, read_keys, add_keys, read_key,
  read_discovery, fetch_json, rewrite_to_internal, trim_end_matches,
}
use picoshift.OAuth.Byoidc.Provider.Keys.{IsProvided, refresh-IsProvided}
use picoshift.OAuth.Byoidc.Provider.Attempts.{IsStopped, new_cache-IsStopped}
use picoshift.OAuth.Byoidc.Exchange.{IsApplied, handle_byoidc_token-IsApplied}
use picoshift.OAuth.Byoidc.Endpoints.{
  handle_byoidc_token, relayed_headers, cookies, configured, token_request, finish_exchange,
  token_answer, exchanged_claims, ensure_user,
}
use picoshift.OAuth.Byoidc.{validate_token, header_kid}
use picoshift.Prelude.Text.Split.{split}
use picoshift.OAuth.Byoidc.Relays.{Kept, is_passed_on, relayed_headers-Kept}
use picoshift.OAuth.Server.{Server, handle_request, Reach, start, request, evicted, is_byoidc}
use picoshift.OAuth.Server.External.{Reach-no_tokens}
use picoshift.OAuth.Server.LocalTests.{draws, to_token}

-- The provider's documents by the first byte of a body: the discovery, the keys, a token answer.
abbrev key_object : Tree
key_object = object (
    field "kty" (text "RSA")
      (field "kid" (text "k1") (field "n" (text "n1") (field "e" (text "e1") end))))

abbrev documents : List ℕ → Option Tree
documents [] = some (object (field "kid" (text "k1") end))
documents (b ∷ []) = some (
    object (
      field "jwks_uri" (text "https://p/keys")
        (field "token_endpoint" (text "https://p/token") end)))
documents (b ∷ c ∷ []) = some (object (field "keys" (array (cons key_object nil)) end))
documents (b ∷ c ∷ d ∷ bs) = some (object (field "access_token" (text "h1.p.s") end))

abbrev sample : Externals tree_serde
sample = record {
  EncodingKey = Unit {0};
  DecodingKey = String;
  jwt_encode = λ kid claims key. none;
  jwt_decode = λ token key. some (object (field "sub" (text "bob") end));
  decode_standard = λ s. none;
  encode_url_safe = λ bs. "";
  decode_url_safe = λ s. some [];
  from_utf8 = λ bs. none;
  sha256 = λ bs. bs;
  from_slice = documents;
  parse_form = λ bs. ("code", "c1") ∷ [];
  Url = String;
  parse_url = λ s. some s;
  error_url = "http://localhost/error";
  append_pair = λ u k v. format (u ∷ "?" ∷ k ∷ "=" ∷ v ∷ []);
  url_text = λ u. u;
}

abbrev answer_to : String → List ℕ
answer_to url =
    if url == "https://p/keys"
    then 1 ∷ 2 ∷ []
    else if url == "https://p/token"
    then 1 ∷ 2 ∷ 3 ∷ []
    else 1 ∷ []

abbrev web : Web sample
web = record {
  send = λ log s. some (record { status = 200; headers = []; body = some (answer_to s.url) });
  text = λ bs. "";
  from_rsa_components = λ n e. some n;
  url_path = λ u. "/keys";
  url_query = λ u. none;
  set_path = λ u p. "https://p/keys";
  set_query = λ u q. u;
  scheme = λ u. "https";
  host_str = λ u. none;
  port = λ u. none;
}

abbrev server : Api tree_serde
server = record { client = λ log id. ok key_object; user = λ log name v. ok none }

abbrev loaded_cache : ExternalJwksCache sample
loaded_cache = record {
  keys = ("k1", "n1") ∷ [];
  discovery = record {
    authorization_endpoint = "";
    token_endpoint = "https://p/token";
    userinfo_endpoint = "";
    jwks_uri = "https://p/keys";
  };
}

abbrev config : ByoidcConfig
config = record { issuer_url = "https://p/"; client_id = "c"; client_secret = "s" }

abbrev external_state : OAuthState sample
external_state = record {
  codes = [];
  tokens = [];
  user_store = default_store;
  auth_mode = byoidc;
  jwt_keys = none;
  byoidc = some config;
  external_jwks = some loaded_cache;
}

abbrev begin : Server sample web
begin = record { world = record { state = external_state; calls = [] }; sent = [] }

abbrev asked_once : Server sample web
asked_once = (handle_request sample web server begin to_token (some []) draws).1

two_steps : Reach sample web server begin 1 (record asked_once {
  world = record asked_once.world { state = evict sample 9 asked_once.world.state };
})
two_steps = evicted 9 (request to_token (some []) draws start)

Reach-no_tokens_example : (evict sample 9 asked_once.world.state).tokens ≡ []
unfolding is_byoidc
Reach-no_tokens_example = Reach-no_tokens sample web server refl refl two_steps

new_cache-IsStopped_example :
    IsStopped sample web max_attempts
      (empty_cache sample web, [])
      (new_cache sample web "https://p/" [])
      "https://p/"
new_cache-IsStopped_example = new_cache-IsStopped sample web "https://p/" []

-- The keys that a first refresh loads.
loads_key :
    lookup "k1" (refresh sample web (empty_cache sample web) [] "https://p/").0.keys ≡ some "n1"
unfolding refresh refresh_keys read_keys add_keys read_key read_discovery fetch_json
    rewrite_to_internal trim_end_matches lookup insert remove
loads_key = refl

refresh-IsProvided_example :
    (lookup "k1" (empty_cache sample web).keys ≡ some "n1")
    ⊎ IsProvided sample web [] "https://p/" "k1" "n1"
refresh-IsProvided_example =
    refresh-IsProvided sample web (empty_cache sample web) [] "https://p/" "k1" "n1" loads_key

handle_byoidc_token-IsApplied_example :
    ((handle_byoidc_token sample web server begin.world [] []).1.calls ≡ [])
    ⊎ IsApplied sample web server external_state [] [] []
        (handle_byoidc_token sample web server begin.world [] []).1.calls
handle_byoidc_token-IsApplied_example =
    handle_byoidc_token-IsApplied sample web server begin.world [] []

-- The run applies a User: the second case of the theorem is met.
applies_user : length (handle_byoidc_token sample web server begin.world [] []).1.calls ≡ 2
unfolding handle_byoidc_token configured token_request finish_exchange token_answer exchanged_claims
    validate_token header_kid split lookup ensure_user ensure_user_and_identity collect
    parse_form_body insert remove
applies_user = refl

abbrev answer_headers : List (String × String)
answer_headers =
    ("set-cookie", "a=1") ∷ ("server", "x") ∷ ("location", "/l") ∷ ("set-cookie", "b=2") ∷ []

relayed_headers-Kept_example :
    ((name : String)
      → Kept name
      → lookup name (relayed_headers answer_headers) ≡ lookup name answer_headers)
    × (cookies (relayed_headers answer_headers) ≡ cookies answer_headers)
    × ((name : String)
        → is_passed_on name ≡ false
        → lookup name (relayed_headers answer_headers) ≡ none)
relayed_headers-Kept_example = relayed_headers-Kept answer_headers
