-- ===== src/OAuth/Byoidc/Provider.antt =====
-- The external provider's discovery document and keys, simulator/src/oauth/byoidc.rs: `refresh`,
-- `rewrite_to_internal` and `new` of `ExternalJwksCache`. The HTTP client `reqwest`, and the parts
-- of `url` and `jsonwebtoken` that only this mode calls, are a parameter.
pub mod Keys
pub mod Attempts
use picoshift.Prelude.{
  ℕ, zero, suc, String, Char, Bool, code, eqb, ◌&&◌, ◌==◌, Option, none, some, List, [], ◌∷◌,
  is_nil, if◌then◌else◌,
}
use picoshift.Prelude.Maps.{Map, insert}
use picoshift.Prelude.Options.{◌>>=◌, unwrap_or}
use picoshift.Prelude.Text.{is_empty}
use picoshift.Prelude.Text.Replace.{format}
use picoshift.Json.Interface.{Serde}
use picoshift.OAuth.State.{Externals, ExternalOidcDiscovery, ExternalJwksCache}

-- The body of a request.
pub data Content : Type 0 where
  no_content : Content
  form : List (String × String) → Content
  raw : List ℕ → Content

-- A request; `follow` is the client's policy on redirects.
pub record Sent : Type 0 where
  pub method : String
  pub url : String
  pub headers : List (String × String)
  pub content : Content
  pub follow : Bool

-- An answer: the headers in their order; `none` for a body that could not be read.
pub record Answer : Type 0 where
  pub status : ℕ
  pub headers : List (String × String)
  pub body : Option (List ℕ)

-- What the mode takes from other packages: the answer to a request after the ones before it, `none`
-- where it could not be sent; the reading of a body as text; and functions of `url` and
-- `jsonwebtoken`.
pub record Web {J : Serde} (X : Externals J) : Type 0 where
  pub send : List Sent → Sent → Option Answer
  pub text : List ℕ → String
  pub from_rsa_components : String → String → Option X.DecodingKey
  pub url_path : X.Url → String
  pub url_query : X.Url → Option String
  pub set_path : X.Url → String → X.Url
  pub set_query : X.Url → Option String → X.Url
  pub scheme : X.Url → String
  pub host_str : X.Url → Option String
  pub port : X.Url → Option ℕ

abbrev pub get_request : String → Sent
get_request url = record {
  method = "GET";
  url = url;
  headers = [];
  content = no_content;
  follow = Bool.true;
}

abbrev cons_unless_matched : ℕ → Char → String → String
cons_unless_matched p c String.[] = if eqb (code c) p then "" else String.◌∷◌ c ""
cons_unless_matched p c (String.◌∷◌ d s) = String.◌∷◌ c (String.◌∷◌ d s)

-- `str::trim_end_matches` of a character.
unfoldable pub trim_end_matches : ℕ → String → String
trim_end_matches p String.[] = ""
trim_end_matches p (String.◌∷◌ c s) = cons_unless_matched p c (trim_end_matches p s)

abbrev pub discovery_url : String → String
discovery_url issuer_trimmed = format (issuer_trimmed ∷ "/.well-known/openid-configuration" ∷ [])

-- The rounds of the loop in `new`.
abbrev pub max_attempts : ℕ
max_attempts = 5

module _ {J : Serde} (X : Externals J) (W : Web X) where
  unfoldable pub rewrite_to_internal : String → String → String
  rewrite_to_internal external_url issuer_url = elim (X.parse_url external_url) [
    | none ↦ external_url
    | some ext ↦ elim (X.parse_url issuer_url) [
      | none ↦ external_url
      | some iss ↦ X.url_text (W.set_query (W.set_path iss (W.url_path ext)) (W.url_query ext))
    ]
  ]

  -- `get(key).and_then(|v| v.as_str()).unwrap_or_default()`
  abbrev pub text_at : J.Value → String → String
  text_at v key = unwrap_or (J.get v key >>= J.as_str) ""

  -- A document that was fetched and parsed.
  unfoldable pub fetch_json : List Sent → String → Option J.Value
  fetch_json log url = do resp ← W.send log (get_request url); bytes ← resp.body; X.from_slice bytes

  unfoldable pub read_discovery : J.Value → ExternalOidcDiscovery
  read_discovery doc = record {
    authorization_endpoint = text_at doc "authorization_endpoint";
    token_endpoint = text_at doc "token_endpoint";
    userinfo_endpoint = text_at doc "userinfo_endpoint";
    jwks_uri = text_at doc "jwks_uri";
  }

  -- The key of an entry, `none` where its type is not `RSA` or its numbers are refused.
  unfoldable pub read_key : J.Value → Option X.DecodingKey
  read_key key =
      if text_at key "kty" == "RSA"
      then W.from_rsa_components (text_at key "n") (text_at key "e")
      else none

  abbrev insert_read : String → Option X.DecodingKey → Map X.DecodingKey → Map X.DecodingKey
  insert_read kid none m = m
  insert_read kid (some dk) m = insert kid dk m

  unfoldable pub add_keys : Map X.DecodingKey → List J.Value → Map X.DecodingKey
  add_keys m [] = m
  add_keys m (key ∷ keys) = add_keys (insert_read (text_at key "kid") (read_key key) m) keys

  abbrev pub entries : J.Value → List J.Value
  entries jwks = unwrap_or (J.get jwks "keys" >>= J.as_array) []

  unfoldable pub read_keys : J.Value → Map X.DecodingKey
  read_keys jwks = add_keys [] (entries jwks)

  -- The second half of a refresh: the keys of the address that the discovery document names.
  unfoldable pub refresh_keys :
      ExternalJwksCache X → List Sent → String → ExternalJwksCache X × List Sent
  refresh_keys cache log issuer_trimmed =
      let url = rewrite_to_internal cache.discovery.jwks_uri issuer_trimmed in
      if is_empty cache.discovery.jwks_uri then (cache, log) else elim (fetch_json log url) [
        | none ↦ (cache, get_request url ∷ log)
        | some jwks ↦ (record cache { keys = read_keys jwks }, get_request url ∷ log)
      ]

  unfoldable pub refresh :
      ExternalJwksCache X → List Sent → String → ExternalJwksCache X × List Sent
  refresh cache log issuer_url =
      let issuer_trimmed = trim_end_matches b'/' issuer_url in
      let url = discovery_url issuer_trimmed in
      elim (fetch_json log url) [
        | none ↦ (cache, get_request url ∷ log)
        | some doc ↦
            refresh_keys (record cache { discovery = read_discovery doc }) (get_request url ∷ log)
              issuer_trimmed
      ]

  -- The rounds that are left of the loop in `new`: it ends early once there are keys.
  unfoldable pub attempts :
      ℕ → ExternalJwksCache X × List Sent → String → ExternalJwksCache X × List Sent
  attempts zero (cache, log) issuer_url = (cache, log)
  attempts (suc n) (cache, log) issuer_url =
      let next = refresh cache log issuer_url in
      let rest = attempts n next issuer_url in if is_nil next.0.keys then rest else next

  abbrev pub empty_cache : ExternalJwksCache X
  empty_cache = record {
    keys = [];
    discovery = record {
      authorization_endpoint = "";
      token_endpoint = "";
      userinfo_endpoint = "";
      jwks_uri = "";
    };
  }

  unfoldable pub new_cache : String → List Sent → ExternalJwksCache X × List Sent
  new_cache issuer_url log = attempts max_attempts (empty_cache, log) issuer_url
