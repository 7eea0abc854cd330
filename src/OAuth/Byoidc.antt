-- ===== src/OAuth/Byoidc.antt =====
-- The userinfo endpoint of the external provider mode, simulator/src/oauth/byoidc.rs:
-- `validate_token` and `handle_byoidc_userinfo`.
pub mod Validation
pub mod Provider
pub mod Endpoints
pub mod Exchange
pub mod Relays
use picoshift.Prelude.{String, Option, none, some, List, [], ◌∷◌, map, first, filter_map}
use picoshift.Prelude.Maps.{lookup}
use picoshift.Prelude.Options.{◌>>=◌, unwrap_or, or_else}
use picoshift.Prelude.Text.{strip_prefix}
use picoshift.Prelude.Text.Split.{split}
use picoshift.Json.Interface.{Serde}
use picoshift.OAuth.Http.{Request, header_text, Response, json_response}
use picoshift.OAuth.State.{Externals, ExternalJwksCache, OAuthState}

module _ {J : Serde} (X : Externals J) where
  -- The `kid` of a token's header.
  unfoldable pub header_kid : String → Option String
  header_kid token = do
    header_part ← first (split b'.' token)
    header_bytes ← X.decode_url_safe header_part
    header ← X.from_slice header_bytes
    some (unwrap_or (J.get header "kid" >>= J.as_str) "")

  -- The claims of a token that the key of its header's `kid` verifies.
  unfoldable pub validate_token : ExternalJwksCache X → String → Option J.Value
  validate_token cache token = do
    kid ← header_kid token
    dk ← lookup kid cache.keys
    X.jwt_decode token dk

  unfoldable pub claims_user : J.Value → String
  claims_user claims =
      unwrap_or
        (or_else (J.get claims "preferred_username")
            (or_else (J.get claims "email") (J.get claims "sub"))
          >>= J.as_str)
        "unknown"

  unfoldable pub claims_groups : J.Value → List String
  claims_groups claims =
      unwrap_or (J.get claims "groups" >>= J.as_array >>= λ vs. some (filter_map J.as_str vs))
        ("system:authenticated" ∷ [])

  unfoldable pub claims_body : J.Value → String
  claims_body claims =
      let username = claims_user claims in
      J.to_string (
        J.obj (
          ("sub", J.str username)
          ∷ ("name", J.str username)
          ∷ ("preferred_username", J.str username)
          ∷ ("email", J.str (unwrap_or (J.get claims "email" >>= J.as_str) ""))
          ∷ ("groups", J.arr (map J.str (claims_groups claims)))
          ∷ []))

  abbrev pub claims_response : Option J.Value → Response
  claims_response none = json_response 401 "{\"error\":\"invalid_token\"}"
  claims_response (some claims) = json_response 200 (claims_body claims)

  unfoldable pub handle_byoidc_userinfo : OAuthState X → Request → Response
  handle_byoidc_userinfo s req = elim s.external_jwks [
    | none ↦ json_response 500 "{\"error\":\"byoidc_not_configured\"}"
    | some cache ↦ elim (strip_prefix (unwrap_or (header_text req "authorization") "") "Bearer ") [
      | none ↦ json_response 401 "{\"error\":\"missing bearer token\"}"
      | some token ↦ claims_response (validate_token cache token)
    ]
  ]
