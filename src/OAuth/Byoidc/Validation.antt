-- ===== src/OAuth/Byoidc/Validation.antt =====
-- Which tokens the external provider mode answers for.
use picoshift.Prelude.{ℕ, String, ◌≡◌, Option, some, Option-cases, inl, inr, arith}
use picoshift.Prelude.Maps.{lookup}
use picoshift.Prelude.Options.{◌>>=◌, unwrap_or, >>=-eq-some}
use picoshift.Prelude.Text.{strip_prefix}
use picoshift.Json.Interface.{Serde}
use picoshift.OAuth.Http.{Request, header_text}
use picoshift.OAuth.State.{Externals, ExternalJwksCache, OAuthState}
use picoshift.OAuth.Byoidc.{header_kid, validate_token, handle_byoidc_userinfo}

abbrev bearer_token : Request → Option String
bearer_token req = strip_prefix (unwrap_or (header_text req "authorization") "") "Bearer "

module _ {J : Serde} (X : Externals J) where
  -- The bearer token is verified by a key of the external provider that is in the cache.
  pub record IsValidated (s : OAuthState X) (req : Request) : Type 0 where
    pub cache : ExternalJwksCache X
    pub loaded : s.external_jwks ≡ some cache
    pub token : String
    pub carried :
        strip_prefix (unwrap_or (header_text req "authorization") "") "Bearer " ≡ some token
    pub kid : String
    pub named : header_kid X token ≡ some kid
    pub key : X.DecodingKey
    pub cached : lookup kid cache.keys ≡ some key
    pub claims : J.Value
    pub verified : X.jwt_decode token key ≡ some claims

  pub validate_token-key :
      (cache : ExternalJwksCache X) (token : String) (claims : J.Value)
      → validate_token X cache token ≡ some claims
      → (kid : String) × (key : X.DecodingKey) × (header_kid X token ≡ some kid)
        × (lookup kid cache.keys ≡ some key)
        × (X.jwt_decode token key ≡ some claims)
  unfolding validate_token
  validate_token-key cache token claims h =
      let (kid, named, h1) =
        >>=-eq-some (header_kid X token) (λ k. lookup k cache.keys >>= λ dk. X.jwt_decode token dk)
          h in
      let (key, cached, verified) =
        >>=-eq-some (lookup kid cache.keys) (λ dk. X.jwt_decode token dk) h1 in
      (kid, key, named, cached, verified)

  -- In the external provider mode the userinfo endpoint answers 200 only for a bearer token that is
  -- verified by the cached key of the provider that its header names.
  pub handle_byoidc_userinfo-IsValidated :
      (s : OAuthState X) (req : Request)
      → (handle_byoidc_userinfo X s req).status ≡ 200
      → IsValidated s req
  unfolding handle_byoidc_userinfo
  handle_byoidc_userinfo-IsValidated s req h = elim (Option-cases s.external_jwks) [
    | inl e ↦
        let bad : ◌≡◌ {A = ℕ} 500 200 = rw (handle_byoidc_userinfo, e) at h in
        absurd (omega (arith, bad))
    | inr (cache, e) ↦ elim (Option-cases (bearer_token req)) [
      | inl f ↦
          let bad : ◌≡◌ {A = ℕ} 401 200 = rw (handle_byoidc_userinfo, e, f) at h in
          absurd (omega (arith, bad))
      | inr (token, f) ↦ elim (Option-cases (validate_token X cache token)) [
        | inl g ↦
            let bad : ◌≡◌ {A = ℕ} 401 200 = rw (handle_byoidc_userinfo, e, f, g) at h in
            absurd (omega (arith, bad))
        | inr (claims, g) ↦
            let (kid, key, named, cached, verified) = validate_token-key cache token claims g in
            record {
              cache = cache;
              loaded = e;
              token = token;
              carried = f;
              kid = kid;
              named = named;
              key = key;
              cached = cached;
              claims = claims;
              verified = verified;
            }
      ]
    ]
  ]
