-- ===== src/OAuth/Server/Requests.antt =====
-- The effect of `handle_request` as a whole, and what the external provider mode leaves alone.
use picoshift.Prelude.{
  ℕ, ◌≡◌, refl, inl, inr, ◌&&◌, not, Option, none, some, List, Bool-cases, Option-cases, arith,
}
use picoshift.Json.Interface.{Serde}
use picoshift.OAuth.Http.{Request, Response, header_text}
use picoshift.OAuth.State.{Externals, ExternalJwksCache}
use picoshift.OAuth.Clients.{Api}
use picoshift.OAuth.Authorize.{World}
use picoshift.OAuth.Byoidc.Provider.{Sent, Answer, Web}
use picoshift.OAuth.Byoidc.Endpoints.{finish_exchange, handle_byoidc_token, handle_byoidc_authorize}
use picoshift.OAuth.Server.{
  is_byoidc, is_cli_auth_request, Draws, Bodiless, Bodied, first_route, second_route, Server,
  redirected, run_bodiless, run_bodied, handle_request,
}
use picoshift.OAuth.Server.Effects.{
  Effect, same, handle_token-Effect, handle_authorize_get-Effect, handle_authorize_post-Effect,
}

module _ {J : Serde} (X : Externals J) (W : Web X) (api : Api J) where
  finish_exchange-state :
      (w : World X) (cache : ExternalJwksCache X) (answer : Option Answer)
      → (finish_exchange X W api w cache answer).1.state ≡ w.state
  unfolding finish_exchange
  finish_exchange-state w cache answer = ground arith

  pub handle_byoidc_token-state :
      (w : World X) (log : List Sent) (body : List ℕ)
      → (handle_byoidc_token X W api w log body).1.state ≡ w.state
  unfolding handle_byoidc_token
  handle_byoidc_token-state w log body = grind (arith, finish_exchange-state)

  pub redirected-state : (s : Server X W) (o : Option Response) → (redirected X W s o).1 ≡ s
  redirected-state s none = refl
  redirected-state s (some r) = refl

  run_bodiless-Effect :
      (s : Server X W) (req : Request) (d : Draws) (h : Bodiless)
      → Effect X s.world.state (run_bodiless X W api s req d h).1.world.state
  unfolding run_bodiless
  run_bodiless-Effect s req d Bodiless.discovery = same
  run_bodiless-Effect s req d Bodiless.jwks =
      elim (Bool-cases (is_byoidc s.world.state.auth_mode)) [
        | inr e ↦ rw (run_bodiless, e) same
        | inl e ↦ rw (run_bodiless, e) same
      ]
  run_bodiless-Effect s req d Bodiless.authorize =
      elim (Bool-cases (is_byoidc s.world.state.auth_mode && not (is_cli_auth_request req))) [
        | inl e ↦
            rw (run_bodiless, e, redirected-state s (handle_byoidc_authorize X W s.world.state req))
              same
        | inr e ↦ rw (run_bodiless, e) (handle_authorize_get-Effect X api s.world req d.code d.now)
      ]
  run_bodiless-Effect s req d Bodiless.userinfo =
      elim (Bool-cases (is_byoidc s.world.state.auth_mode)) [
        | inr e ↦ rw (run_bodiless, e) same
        | inl e ↦ rw (run_bodiless, e) same
      ]

  run_bodied-Effect :
      (s : Server X W) (req : Request) (body : List ℕ) (d : Draws) (h : Bodied)
      → Effect X s.world.state (run_bodied X W api s req body d h).1.world.state
  unfolding run_bodied
  run_bodied-Effect s req body d Bodied.log_in =
      handle_authorize_post-Effect X api s.world body d.code d.now
  run_bodied-Effect s req body d Bodied.exchange =
      elim (Bool-cases (is_byoidc s.world.state.auth_mode)) [
        | inr e ↦
            rw (run_bodied, e)
              (handle_token-Effect X api s.world body (header_text req "authorization") d.token
                d.clocks)
        | inl e ↦ rw (run_bodied, e, handle_byoidc_token-state s.world s.sent body) same
      ]
  run_bodied-Effect s req body d Bodied.relay = same
  run_bodied-Effect s req body d Bodied.not_found = same

  -- Whatever a request says, it leaves the state of the server as it is, or stores one code, for the
  -- name of an entry of the user store, or takes one code out of the map, or takes out a code that
  -- was stored and stores one token for the user of that code.
  pub handle_request-Effect :
      (s : Server X W) (req : Request) (body : Option (List ℕ)) (d : Draws)
      → Effect X s.world.state (handle_request X W api s req body d).1.world.state
  unfolding handle_request
  handle_request-Effect s req body d = elim (Option-cases (first_route req.method req.path)) [
    | inr (h, e) ↦ rw (e, handle_request) (run_bodiless-Effect s req d h)
    | inl e ↦ elim (Option-cases body) [
      | inl broken ↦ rw (e, handle_request, broken) same
      | inr (bytes, read) ↦
          rw (e, handle_request, read)
            (run_bodied-Effect s req bytes d
              (second_route s.world.state.auth_mode req.method req.path))
    ]
  ]
