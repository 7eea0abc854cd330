-- ===== src/OAuth/UserInfo/Sessions.antt =====
-- Which user a bearer token stands for, from its issue to its eviction.
use text.Mathlib.Text.{starts_with}
use text.Mathlib.TextEquality.{starts_with_iff}
use text.Mathlib.TextLemmas.{cons-append, head-eq_of_cons-eq}
use picoshift.Prelude.{
  ℕ, ◌≤◌, String, code, ◌≡◌, refl, sym, ap, ◌∙◌, true, false, Option, none, some, List, [], ◌∷◌,
  Option-cases, Bool-cases, inl, inr, ltb, eq_refl, arith, if◌then◌else◌,
}
use picoshift.Prelude.Maps.{IsMap, lookup, lookup-insert, lookup-retain}
use picoshift.Prelude.Options.{◌>>=◌, unwrap_or, keep_if}
use picoshift.Prelude.Text.{strip_prefix}
use picoshift.Prelude.Text.Replace.{format}
use picoshift.Json.Interface.{Serde}
use picoshift.OAuth.Clients.{Api}
use picoshift.OAuth.Http.{Request, header_text, go}
use picoshift.OAuth.State.{Externals, AuthCode, TokenInfo, OAuthState, evict, token_ttl, elapsed}
use picoshift.OAuth.Authorize.{World}
use picoshift.OAuth.Token.{TokenQuery, Clocks, make_token, issue_token, token_query, handle_token}
use picoshift.OAuth.Token.Grants.{handle_token-IsGranted, handle_token-issues}
use picoshift.OAuth.UserInfo.{live_user, token_user, handle_userinfo}

abbrev pub bearer_token : Request → Option String
bearer_token req = strip_prefix (unwrap_or (header_text req "authorization") "") "Bearer "

-- A random token is never taken for a signed one.
starts_with-random :
    (random : String) → starts_with (format ("sha256~" ∷ random ∷ [])) "eyJ" ≡ false
starts_with-random random =
    elim (Bool-cases (starts_with (format ("sha256~" ∷ random ∷ [])) "eyJ")) [
      | inl signed ↦
          let (rest, e) = (starts_with_iff (format ("sha256~" ∷ random ∷ [])) "eyJ").0 signed in
          let heads = ap code (
            head-eq_of_cons-eq
              (sym (cons-append "e" "yJ" rest) ∙ e ∙ cons-append "s" "ha256~" random)) in
          absurd (omega (arith, heads))
      | inr other ↦ other
    ]

keep_live :
    (now later : ℕ) (o : Option TokenInfo)
    → now ≤ later
    → (keep_if (λ v. ltb (elapsed v.created now) token_ttl) o >>= live_user later)
      ≡ (o >>= live_user later)
keep_live now later none h = refl
keep_live now later (some v) h = ground arith

module _ {J : Serde} (X : Externals J) where
  -- A round of the eviction task changes no answer of the userinfo endpoint, then or later: it takes
  -- only tokens that stand for nobody any more.
  pub handle_userinfo-evict :
      (s : OAuthState X) (req : Request) (now later : ℕ)
      → IsMap s.tokens
      → now ≤ later
      → handle_userinfo X (evict X now s) req later ≡ handle_userinfo X s req later
  unfolding handle_userinfo evict token_user
  handle_userinfo-evict s req now later h k = elim (Option-cases (bearer_token req)) [
    | inl missing ↦ rw (missing, handle_userinfo)
    | inr (token, given) ↦ rw (
      given,
      handle_userinfo,
      token_user,
      lookup-retain (λ v. ltb (elapsed v.created now) token_ttl) token s.tokens h,
      keep_live now later (lookup token s.tokens) k,
    )
  ]

  -- The answer to a bearer token that begins with `eyJ` depends on the user store alone: not on the
  -- tokens that were issued, on the keys that they are signed with, or on the time.
  pub handle_userinfo-unsigned :
      (s s' : OAuthState X) (req : Request) (now now' : ℕ) (token : String)
      → bearer_token req ≡ some token
      → starts_with token "eyJ" ≡ true
      → s.user_store ≡ s'.user_store
      → handle_userinfo X s req now ≡ handle_userinfo X s' req now'
  unfolding handle_userinfo token_user
  handle_userinfo-unsigned s s' req now now' token given signed same =
      rw (given, handle_userinfo, signed, same)

  token_user-issue_token :
      (w : World X) (ac : AuthCode) (q : TokenQuery) (random : String) (t : Clocks) (now : ℕ)
      → w.state.jwt_keys ≡ none
      → token_user X (issue_token X w ac q random t).1.state (format ("sha256~" ∷ random ∷ [])) now
        ≡ (if ltb (elapsed t.stored now) token_ttl then some ac.username else none)
  unfolding token_user issue_token make_token
  token_user-issue_token w ac q random t now h = rw (
    h,
    issue_token,
    make_token,
    token_user,
    starts_with-random random,
    lookup-insert,
    eq_refl (format ("sha256~" ∷ random ∷ [])),
  )

  -- In the modes without signing keys, once the token endpoint has answered 200, the token stands
  -- for the user for whom the code was stored, for less than a day, and then for nobody.
  pub token_user-handle_token :
      (api : Api J) (w : World X) (body : List ℕ) (authorization : Option String) (random : String)
      (t : Clocks)
      → w.state.jwt_keys ≡ none
      → (handle_token X api w body authorization random t).0.status ≡ 200
      → (q : TokenQuery) × (ac : AuthCode) × (token_query X body authorization ≡ go q)
        × (lookup q.code w.state.codes ≡ some ac)
        × ((now : ℕ)
            → token_user X
                (handle_token X api w body authorization random t).1.state
                (format ("sha256~" ∷ random ∷ []))
                now
              ≡ (if ltb (elapsed t.stored now) token_ttl then some ac.username else none))
  token_user-handle_token api w body authorization random t h answered =
      let (q, read, granted) =
        handle_token-IsGranted X api w body authorization random t answered in
      let (w', issued, keys) =
        handle_token-issues X api w body authorization random t q read granted answered in
      (
        q,
        granted.ac,
        read,
        granted.stored,
        λ now. rw issued (token_user-issue_token w' granted.ac q random t now (keys ∙ h)),
      )
