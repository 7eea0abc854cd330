-- ===== src/OAuth/Byoidc/Exchange.antt =====
-- For whom a token exchange with the external provider applies a User.
use picoshift.Prelude.{ℕ, String, ◌≡◌, ◌⊎◌, inl, inr, some, List, Bool-cases, Option-cases, arith}
use picoshift.Prelude.Maps.{lookup}
use picoshift.Prelude.Options.{◌>>=◌, >>=-eq-some}
use picoshift.Prelude.Text.{is_empty}
use picoshift.Json.Interface.{Serde}
use picoshift.OAuth.Http.{go, Reply-cases, Response, json_response}
use picoshift.OAuth.State.{Externals, ByoidcConfig, ExternalJwksCache, OAuthState}
use picoshift.OAuth.Clients.{Call, Api, ensure_user_and_identity}
use picoshift.OAuth.Authorize.{World}
use picoshift.OAuth.Byoidc.{header_kid, validate_token, claims_user}
use picoshift.OAuth.Byoidc.Validation.{validate_token-key}
use picoshift.OAuth.Byoidc.Provider.{Sent, Web}
use picoshift.OAuth.Byoidc.Endpoints.{
  configured, token_request, exchanged_claims, token_answer, ensure_user, finish_exchange,
  handle_byoidc_token,
}

module _ {J : Serde} (X : Externals J) (W : Web X) where
  -- A token that the provider has answered with, under this key of its answer, whose signature a key
  -- of the cache verifies.
  pub record IsVerified (cache : ExternalJwksCache X) (token_resp claims : J.Value) (field : String)
      : Type 0 where
    pub token : String
    pub answered : (J.get token_resp field >>= J.as_str) ≡ some token
    pub kid : String
    pub named : header_kid X token ≡ some kid
    pub key : X.DecodingKey
    pub cached : lookup kid cache.keys ≡ some key
    pub verified : X.jwt_decode token key ≡ some claims

  IsVerified-token :
      (cache : ExternalJwksCache X) (token_resp claims : J.Value) (field token : String)
      → (J.get token_resp field >>= J.as_str) ≡ some token
      → validate_token X cache token ≡ some claims
      → IsVerified cache token_resp claims field
  IsVerified-token cache token_resp claims field token answered h =
      let (kid, key, named, cached, verified) = validate_token-key X cache token claims h in
      record {
        token = token;
        answered = answered;
        kid = kid;
        named = named;
        key = key;
        cached = cached;
        verified = verified;
      }

  exchanged_claims-IsVerified :
      (cache : ExternalJwksCache X) (token_resp claims : J.Value)
      → exchanged_claims X W cache token_resp ≡ some claims
      → IsVerified cache token_resp claims "access_token"
        ⊎ IsVerified cache token_resp claims "id_token"
  unfolding exchanged_claims
  exchanged_claims-IsVerified cache token_resp claims h =
      elim (Option-cases (J.get token_resp "access_token" >>= J.as_str)) [
        | inl missing ↦ cc (rw (exchanged_claims, missing) at h)
        | inr (token, given) ↦ elim (Option-cases (validate_token X cache token)) [
          | inr (c, valid) ↦
              let e : c ≡ claims = ground (arith, rw (exchanged_claims, given, valid) at h) in
              inl (
                IsVerified-token cache token_resp claims "access_token" token given
                  (rw (← e) valid))
          | inl invalid ↦
              let (id_token, given', valid) =
                >>=-eq-some (J.get token_resp "id_token" >>= J.as_str) (validate_token X cache)
                  (rw (exchanged_claims, given, invalid) at h) in
              inr (IsVerified-token cache token_resp claims "id_token" id_token given' valid)
        ]
      ]

  -- The claims of one of the provider's tokens, and the calls for the user that they name.
  pub record IsApplied (api : Api J) (s : OAuthState X) (log : List Sent) (body : List ℕ)
      (before after : List (Call J)) : Type 0 where
    pub byoidc : ByoidcConfig
    pub config : s.byoidc ≡ some byoidc
    pub cache : ExternalJwksCache X
    pub loaded : s.external_jwks ≡ some cache
    pub token_resp : J.Value
    pub answer : token_answer X W (W.send log (token_request X W byoidc cache body)) ≡ go token_resp
    pub claims : J.Value
    pub verified :
        IsVerified cache token_resp claims "access_token"
        ⊎ IsVerified cache token_resp claims "id_token"
    pub applied : after ≡ ensure_user_and_identity api before (claims_user X claims)

  configured-go :
      (s : OAuthState X) (r r' : Response) {b : ByoidcConfig} {c : ExternalJwksCache X}
      → configured X W s r r' ≡ go (b, c)
      → (s.byoidc ≡ some b) × (s.external_jwks ≡ some c)
  unfolding configured
  configured-go s r r' {b} {c} h = elim (Option-cases s.byoidc) [
    | inl no_config ↦ cc (rw (configured, no_config) at h)
    | inr (b', config) ↦ elim (Option-cases s.external_jwks) [
      | inl no_cache ↦ cc (rw (configured, config, no_cache) at h)
      | inr (c', loaded) ↦
          let same : go (b', c') ≡ go (b, c) = rw (configured, config, loaded) at h in
          (ground (arith, config, same), ground (arith, loaded, same))
    ]
  ]

  finish_exchange-IsApplied :
      (api : Api J) (w : World X) (log : List Sent) (body : List ℕ) (byoidc : ByoidcConfig)
      (cache : ExternalJwksCache X)
      → w.state.byoidc ≡ some byoidc
      → w.state.external_jwks ≡ some cache
      → let after =
          (finish_exchange X W api w cache
            (W.send log (token_request X W byoidc cache body))).1.calls in
        (after ≡ w.calls) ⊎ IsApplied api w.state log body w.calls after
  unfolding finish_exchange ensure_user
  finish_exchange-IsApplied api w log body byoidc cache config loaded =
      let answer = token_answer X W (W.send log (token_request X W byoidc cache body)) in
      elim (Reply-cases answer) [
        | inl (r, refused) ↦ inl (rw (finish_exchange, refused))
        | inr (token_resp, read) ↦ elim (Option-cases (exchanged_claims X W cache token_resp)) [
          | inl nobody ↦ inl (rw (finish_exchange, read, ensure_user, nobody))
          | inr (claims, valid) ↦ inr (record {
            byoidc = byoidc;
            config = config;
            cache = cache;
            loaded = loaded;
            token_resp = token_resp;
            answer = read;
            claims = claims;
            verified = exchanged_claims-IsVerified cache token_resp claims valid;
            applied = rw (finish_exchange, read, ensure_user, valid);
          })
        ]
      ]

  -- A token exchange in the external provider mode applies no User or Identity, or the provider has
  -- answered it with an access token, or else an ID token, whose signature a key of the cache
  -- verifies, and they are applied for the user whom that token's claims name.
  pub handle_byoidc_token-IsApplied :
      (api : Api J) (w : World X) (log : List Sent) (body : List ℕ)
      → ((handle_byoidc_token X W api w log body).1.calls ≡ w.calls)
        ⊎ IsApplied api w.state log body w.calls (handle_byoidc_token X W api w log body).1.calls
  unfolding handle_byoidc_token finish_exchange ensure_user
  handle_byoidc_token-IsApplied api w log body =
      elim (Reply-cases (
        configured X W w.state (json_response 500 "{\"error\":\"byoidc_not_configured\"}")
          (json_response 500 "{\"error\":\"byoidc_jwks_not_loaded\"}"))) [
            | inl (r, refused) ↦ inl (rw (handle_byoidc_token, refused))
            | inr ((byoidc, cache), ready) ↦
                elim (Bool-cases (is_empty cache.discovery.token_endpoint)) [
                  | inl unknown ↦ inl (rw (handle_byoidc_token, ready, unknown))
                  | inr known ↦
                      let (config, loaded) = configured-go w.state _ _ ready in
                      rw (handle_byoidc_token, ready, known)
                        (finish_exchange-IsApplied api w log body byoidc cache config loaded)
                ]
          ]
