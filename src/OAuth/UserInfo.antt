-- ===== src/OAuth/UserInfo.antt =====
-- The userinfo and JWKS endpoints of simulator/src/oauth/handlers.rs: `decode_jwt_username`,
-- `handle_userinfo`, `handle_jwks`.
pub mod Sessions
use picoshift.Prelude.{
  ℕ, String, Bool, Option, none, some, List, [], ◌∷◌, map, first, drop, ltb, if◌then◌else◌,
}
use text.Mathlib.Text.{starts_with}
use picoshift.Prelude.Maps.{lookup}
use picoshift.Prelude.Options.{◌>>=◌, unwrap_or, or_else}
use picoshift.Prelude.Text.{strip_prefix}
use picoshift.Prelude.Text.Split.{split}
use picoshift.Json.Interface.{Serde}
use picoshift.OAuth.Users.{UserStore, get}
use picoshift.OAuth.Http.{Request, header_text, Response, json_response}
use picoshift.OAuth.State.{Externals, TokenInfo, JwtKeys, OAuthState, token_ttl, elapsed}
use picoshift.OAuth.Token.{email_of, groups_of}

abbrev pub live_user : ℕ → TokenInfo → Option String
live_user now info = if ltb (elapsed info.created now) token_ttl then some info.username else none

module _ {J : Serde} (X : Externals J) where
  -- The payload is read; the signature is not looked at.
  unfoldable pub decode_jwt_username : String → Option String
  decode_jwt_username token = do
    part ← first (drop 1 (split b'.' token))
    payload ← X.decode_url_safe part
    claims ← X.from_slice payload
    name ← or_else (J.get claims "preferred_username") (J.get claims "sub")
    J.as_str name

  -- The user that a bearer token stands for.
  unfoldable pub token_user : OAuthState X → String → ℕ → Option String
  token_user s token now =
      if starts_with token "eyJ"
      then decode_jwt_username token
      else (lookup token s.tokens >>= live_user now)

  unfoldable pub userinfo_body : UserStore → String → String
  userinfo_body store username =
      let entry = get store username in
      J.to_string (
        J.obj (
          ("sub", J.str username)
          ∷ ("name", J.str username)
          ∷ ("preferred_username", J.str username)
          ∷ ("email", J.str (email_of username entry))
          ∷ ("groups", J.arr (map J.str (groups_of entry)))
          ∷ []))

  abbrev pub user_response : UserStore → Option String → Response
  user_response store none = json_response 401 "{\"error\":\"invalid_token\"}"
  user_response store (some username) = json_response 200 (userinfo_body store username)

  unfoldable pub handle_userinfo : OAuthState X → Request → ℕ → Response
  handle_userinfo s req now =
      elim (strip_prefix (unwrap_or (header_text req "authorization") "") "Bearer ") [
        | none ↦ json_response 401 "{\"error\":\"missing bearer token\"}"
        | some token ↦ user_response s.user_store (token_user s token now)
      ]

  abbrev jwk : JwtKeys X → J.Value
  jwk keys = J.obj (
      ("kty", J.str "RSA")
      ∷ ("use", J.str "sig")
      ∷ ("kid", J.str keys.kid)
      ∷ ("alg", J.str "RS256")
      ∷ ("n", J.str keys.n_b64)
      ∷ ("e", J.str keys.e_b64)
      ∷ [])

  abbrev jwks : Option (JwtKeys X) → List J.Value
  jwks none = []
  jwks (some keys) = jwk keys ∷ []

  unfoldable pub handle_jwks : OAuthState X → Response
  handle_jwks s = json_response 200 (J.to_string (J.obj (("keys", J.arr (jwks s.jwt_keys)) ∷ [])))
