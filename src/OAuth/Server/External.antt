-- ===== src/OAuth/Server/External.antt =====
-- The external provider mode issues no tokens of its own.
use picoshift.Prelude.{
  ℕ, String, ◌≡◌, refl, ap, inl, inr, true, Option, List, Option-cases, arith, ◌∙◌, [],
}
use picoshift.Prelude.Maps.{Map, retain}
use picoshift.Json.Interface.{Serde}
use picoshift.OAuth.Http.{Request}
use picoshift.OAuth.State.{Externals, OAuthState, evict}
use picoshift.OAuth.Clients.{Api}
use picoshift.OAuth.Authorize.{
  World, AuthorizeQuery, authorize_request, form_log_in, handle_authorize_get,
  handle_authorize_post,
}
use picoshift.OAuth.Authorize.Parts.{log_in-tokens}
use picoshift.OAuth.Byoidc.Provider.{Web}
use picoshift.OAuth.Byoidc.Endpoints.{handle_byoidc_authorize}
use picoshift.OAuth.Server.{
  is_byoidc, Draws, Bodiless, Bodied, first_route, second_route, Server, run_bodiless, run_bodied,
  handle_request, Reach, start, request, evicted, reloaded,
}
use picoshift.OAuth.Server.Effects.{Effect, same, issued, spent, granted}
use picoshift.OAuth.Server.Requests.{
  handle_request-Effect, handle_byoidc_token-state, redirected-state,
}

module _ {J : Serde} (X : Externals J) (api : Api J) where
  authorize_request-tokens :
      (w : World X) (req : Request) (q : AuthorizeQuery) (params : Map String) (code : String)
      (now : ℕ)
      → (authorize_request X api w req q params code now).1.state.tokens ≡ w.state.tokens
  unfolding authorize_request
  authorize_request-tokens w req q params code now = grind (arith, log_in-tokens X api)

  handle_authorize_get-tokens :
      (w : World X) (req : Request) (code : String) (now : ℕ)
      → (handle_authorize_get X api w req code now).1.state.tokens ≡ w.state.tokens
  unfolding handle_authorize_get
  handle_authorize_get-tokens w req code now = grind (arith, authorize_request-tokens)

  form_log_in-tokens :
      (w : World X) (params : Map String) (q : AuthorizeQuery) (code : String) (now : ℕ)
      → (form_log_in X api w params q code now).1.state.tokens ≡ w.state.tokens
  unfolding form_log_in
  form_log_in-tokens w params q code now = grind (arith, log_in-tokens X api)

  handle_authorize_post-tokens :
      (w : World X) (body : List ℕ) (code : String) (now : ℕ)
      → (handle_authorize_post X api w body code now).1.state.tokens ≡ w.state.tokens
  unfolding handle_authorize_post
  handle_authorize_post-tokens w body code now = grind (arith, form_log_in-tokens)

module _ {J : Serde} (X : Externals J) (W : Web X) (api : Api J) where
  run_bodiless-tokens :
      (s : Server X W) (req : Request) (d : Draws) (h : Bodiless)
      → (run_bodiless X W api s req d h).1.world.state.tokens ≡ s.world.state.tokens
  unfolding run_bodiless
  run_bodiless-tokens s req d Bodiless.discovery = refl
  run_bodiless-tokens s req d Bodiless.jwks = ground arith
  run_bodiless-tokens s req d Bodiless.authorize = ground (
    arith,
    redirected-state X W api s (handle_byoidc_authorize X W s.world.state req),
    handle_authorize_get-tokens X api s.world req d.code d.now,
  )
  run_bodiless-tokens s req d Bodiless.userinfo = ground arith

  run_bodied-tokens :
      (s : Server X W) (req : Request) (body : List ℕ) (d : Draws) (h : Bodied)
      → is_byoidc s.world.state.auth_mode ≡ true
      → (run_bodied X W api s req body d h).1.world.state.tokens ≡ s.world.state.tokens
  unfolding run_bodied
  run_bodied-tokens s req body d Bodied.log_in e =
      handle_authorize_post-tokens X api s.world body d.code d.now
  run_bodied-tokens s req body d Bodied.exchange e =
      rw (run_bodied, e)
        (ap (λ (o : OAuthState X). o.tokens)
          (handle_byoidc_token-state X W api s.world s.sent body))
  run_bodied-tokens s req body d Bodied.relay e = refl
  run_bodied-tokens s req body d Bodied.not_found e = refl

  handle_request-tokens :
      (s : Server X W) (req : Request) (body : Option (List ℕ)) (d : Draws)
      → is_byoidc s.world.state.auth_mode ≡ true
      → (handle_request X W api s req body d).1.world.state.tokens ≡ s.world.state.tokens
  unfolding handle_request
  handle_request-tokens s req body d e = elim (Option-cases (first_route req.method req.path)) [
    | inr (h, f) ↦ rw (f, handle_request) (run_bodiless-tokens s req d h)
    | inl f ↦ elim (Option-cases body) [
      | inl broken ↦ rw (f, handle_request, broken)
      | inr (bytes, read) ↦
          rw (f, handle_request, read)
            (run_bodied-tokens s req bytes d
              (second_route s.world.state.auth_mode req.method req.path) e)
    ]
  ]

  Effect-auth_mode : {s s' : OAuthState X} → Effect X s s' → s'.auth_mode ≡ s.auth_mode
  Effect-auth_mode same = refl
  Effect-auth_mode (issued k ac e member named) = refl
  Effect-auth_mode (spent k) = refl
  Effect-auth_mode (granted k ac t created stands) = refl

  -- No step changes the mode that the server was started in.
  pub Reach-auth_mode :
      {s0 : Server X W} {n : ℕ} {s : Server X W}
      → Reach X W api s0 n s
      → s.world.state.auth_mode ≡ s0.world.state.auth_mode
  unfolding evict
  Reach-auth_mode start = refl
  Reach-auth_mode (request {n} {s} req body d r) =
      Effect-auth_mode (handle_request-Effect X W api s req body d) ∙ Reach-auth_mode r
  Reach-auth_mode (evicted now r) = Reach-auth_mode r
  Reach-auth_mode (reloaded store r) = Reach-auth_mode r

  -- A server that is started in the external provider mode without tokens never stores one,
  -- whatever it is asked.
  pub Reach-no_tokens :
      {s0 : Server X W} {n : ℕ} {s : Server X W}
      → is_byoidc s0.world.state.auth_mode ≡ true
      → s0.world.state.tokens ≡ []
      → Reach X W api s0 n s
      → s.world.state.tokens ≡ []
  unfolding evict retain
  Reach-no_tokens external none_yet start = none_yet
  Reach-no_tokens external none_yet (request {n} {s} req body d r) =
      handle_request-tokens s req body d (rw (Reach-auth_mode r) external)
      ∙ Reach-no_tokens external none_yet r
  Reach-no_tokens external none_yet (evicted {n} {s} now r) =
      rw (Reach-no_tokens external none_yet r)
  Reach-no_tokens external none_yet (reloaded store r) = Reach-no_tokens external none_yet r
