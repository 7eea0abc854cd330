-- ===== src/OAuth/State.antt =====
-- The state of the OAuth server: simulator/src/oauth/types.rs, `AuthMode` of
-- simulator/src/main.rs, and the packages that the server calls, as a parameter. An instant is a
-- number of nanoseconds.
use picoshift.Prelude.{ℕ, ◌*◌, ◌^◌, ◌-◌, String, Option, List, ltb}
use picoshift.Prelude.Maps.{Map, retain}
use picoshift.Json.Interface.{Serde}
use picoshift.OAuth.Users.{UserStore}

pub data AuthMode : Type 0 where
  legacy oidc byoidc : AuthMode

abbrev pub second : ℕ
second = 10 ^ 9

abbrev pub code_ttl : ℕ
code_ttl = 300 * second

-- `TOKEN_TTL.as_secs()`
abbrev pub token_ttl_secs : ℕ
token_ttl_secs = 86400

abbrev pub token_ttl : ℕ
token_ttl = token_ttl_secs * second

-- `Instant::elapsed`, which saturates at zero.
abbrev pub elapsed : ℕ → ℕ → ℕ
elapsed created now = now - created

-- What the server takes from other packages.
pub record Externals (J : Serde) : Type 1 where
  -- `jsonwebtoken`: keys, signing, which may fail, and reading.
  pub EncodingKey : Type 0
  pub DecodingKey : Type 0
  pub jwt_encode : String → J.Value → EncodingKey → Option String
  -- The claims of a token whose RS256 signature the key verifies and that has not expired.
  pub jwt_decode : String → DecodingKey → Option J.Value
  -- `base64`: the standard and the URL-safe engine.
  pub decode_standard : String → Option (List ℕ)
  pub encode_url_safe : List ℕ → String
  pub decode_url_safe : String → Option (List ℕ)
  -- `str::from_utf8`.
  pub from_utf8 : List ℕ → Option String
  -- `ring`: SHA-256.
  pub sha256 : List ℕ → List ℕ
  -- `serde_json::from_slice`.
  pub from_slice : List ℕ → Option J.Value
  -- `url`: `form_urlencoded::parse`, `Url::parse`, the fallback `http://localhost/error`,
  -- `query_pairs_mut().append_pair`, and the text of a URL.
  pub parse_form : List ℕ → List (String × String)
  pub Url : Type 0
  pub parse_url : String → Option Url
  pub error_url : Url
  pub append_pair : Url → String → String → Url
  pub url_text : Url → String

pub record AuthCode : Type 0 where
  pub username : String
  pub client_id : String
  pub created : ℕ
  pub code_challenge : Option String
  pub code_challenge_method : Option String

pub record TokenInfo : Type 0 where
  pub username : String
  pub created : ℕ

-- simulator/src/oauth/byoidc.rs
pub record ByoidcConfig : Type 0 where
  pub issuer_url : String
  pub client_id : String
  pub client_secret : String

pub record ExternalOidcDiscovery : Type 0 where
  pub authorization_endpoint : String
  pub token_endpoint : String
  pub userinfo_endpoint : String
  pub jwks_uri : String

module _ {J : Serde} (X : Externals J) where
  pub record JwtKeys : Type 0 where
    pub encoding_key : X.EncodingKey
    pub kid : String
    pub n_b64 : String
    pub e_b64 : String

  pub record ExternalJwksCache : Type 0 where
    pub keys : Map X.DecodingKey
    pub discovery : ExternalOidcDiscovery

  -- The maps, the store and the cache are behind locks in the source.
  pub record OAuthState : Type 0 where
    pub codes : Map AuthCode
    pub tokens : Map TokenInfo
    pub user_store : UserStore
    pub auth_mode : AuthMode
    pub jwt_keys : Option JwtKeys
    pub byoidc : Option ByoidcConfig
    pub external_jwks : Option ExternalJwksCache

  -- One round of the eviction task of `run`, at an instant.
  unfoldable pub evict : ℕ → OAuthState → OAuthState
  evict now s = record s {
    codes = retain (λ v. ltb (elapsed v.created now) code_ttl) s.codes;
    tokens = retain (λ v. ltb (elapsed v.created now) token_ttl) s.tokens;
  }
