-- ===== src/OAuth/Token/SingleUse.antt =====
-- What an exchange does to the server's maps: the code goes, whatever the outcome, and a token comes
-- only with the answer 200.
use picoshift.Prelude.{
  ℕ, String, ◌≡◌, ◌≢◌, refl, ap, ◌∙◌, Option, none, List, Option-cases, ◌==◌, eq_iff, arith,
  if◌then◌else◌, inl, inr,
}
use picoshift.Prelude.Maps.{lookup, lookup-remove}
use picoshift.Json.Interface.{Serde}
use picoshift.OAuth.Http.{Response, Reply, reply, go, Reply-cases}
use picoshift.OAuth.State.{Externals, AuthCode}
use picoshift.OAuth.Clients.{Api}
use picoshift.OAuth.Authorize.{World}
use picoshift.OAuth.Token.{
  TokenQuery, Clocks, token_query, invalid_grant, issue_token, authenticate_client, finish,
  exchange, redeem, handle_token, without_code,
}

module _ {J : Serde} (X : Externals J) (api : Api J) where
  issue_token-codes :
      (w : World X) (ac : AuthCode) (q : TokenQuery) (random : String) (t : Clocks)
      → (issue_token X w ac q random t).1.state.codes ≡ w.state.codes
  unfolding issue_token
  issue_token-codes w ac q random t = ground arith

  issue_token-tokens :
      (w : World X) (ac : AuthCode) (q : TokenQuery) (random : String) (t : Clocks)
      → (issue_token X w ac q random t).0.status ≢ 200
      → (issue_token X w ac q random t).1.state.tokens ≡ w.state.tokens
  unfolding issue_token
  issue_token-tokens w ac q random t h = ground arith

  pub authenticate_client-state :
      (w : World X) (ac : AuthCode) (q : TokenQuery)
      → (authenticate_client X api w ac q).1.state ≡ w.state
  unfolding authenticate_client
  authenticate_client-state w ac q = ground arith

  finish-codes :
      (m : Reply (Unit {0}) × World X) (ac : AuthCode) (q : TokenQuery) (random : String)
      (t : Clocks)
      → (finish X api m ac q random t).1.state.codes ≡ m.1.state.codes
  finish-codes (reply r, w) ac q random t = refl
  finish-codes (go _, w) ac q random t = issue_token-codes w ac q random t

  finish-tokens :
      (m : Reply (Unit {0}) × World X) (ac : AuthCode) (q : TokenQuery) (random : String)
      (t : Clocks)
      → (finish X api m ac q random t).0.status ≢ 200
      → (finish X api m ac q random t).1.state.tokens ≡ m.1.state.tokens
  finish-tokens (reply r, w) ac q random t h = refl
  finish-tokens (go _, w) ac q random t h = issue_token-tokens w ac q random t h

  exchange-codes :
      (w : World X) (ac : AuthCode) (q : TokenQuery) (random : String) (t : Clocks)
      → (exchange X api w ac q random t).1.state.codes ≡ w.state.codes
  unfolding exchange
  exchange-codes w ac q random t = ground (
    arith,
    finish-codes (authenticate_client X api w ac q) ac q random t,
    authenticate_client-state w ac q,
  )

  exchange-tokens :
      (w : World X) (ac : AuthCode) (q : TokenQuery) (random : String) (t : Clocks)
      → (exchange X api w ac q random t).0.status ≢ 200
      → (exchange X api w ac q random t).1.state.tokens ≡ w.state.tokens
  unfolding exchange
  exchange-tokens w ac q random t h = ground (
    arith,
    finish-tokens (authenticate_client X api w ac q) ac q random t,
    authenticate_client-state w ac q,
  )

  redeem-codes :
      (w : World X) (q : TokenQuery) (random : String) (t : Clocks) (k : String)
      → lookup k (redeem X api w q random t).1.state.codes
        ≡ (if q.code == k then none else lookup k w.state.codes)
  unfolding redeem
  redeem-codes w q random t k = elim (Option-cases (lookup q.code w.state.codes)) [
    | inl missing ↦ rw (missing, redeem) (ground (arith, eq_iff q.code k, missing))
    | inr (ac, stored) ↦
        rw (stored, redeem)
          (ap (lookup k) (exchange-codes (without_code X api w q.code) ac q random t)
            ∙ lookup-remove q.code k w.state.codes)
  ]

  redeem-tokens :
      (w : World X) (q : TokenQuery) (random : String) (t : Clocks)
      → (redeem X api w q random t).0.status ≢ 200
      → (redeem X api w q random t).1.state.tokens ≡ w.state.tokens
  unfolding redeem
  redeem-tokens w q random t h = elim (Option-cases (lookup q.code w.state.codes)) [
    | inl missing ↦ rw (missing, redeem)
    | inr (ac, stored) ↦
        rw (stored, redeem)
          (exchange-tokens (without_code X api w q.code) ac q random t (rw (stored, redeem) at h))
  ]

  handle_token-reply :
      (w : World X) (body : List ℕ) (authorization : Option String) (random : String) (t : Clocks)
      {r : Response}
      → token_query X body authorization ≡ reply r
      → handle_token X api w body authorization random t ≡ (r, w)
  unfolding handle_token
  handle_token-reply w body authorization random t h = rw (h, handle_token)

  pub handle_token-go :
      (w : World X) (body : List ℕ) (authorization : Option String) (random : String) (t : Clocks)
      {q : TokenQuery}
      → token_query X body authorization ≡ go q
      → handle_token X api w body authorization random t ≡ redeem X api w q random t
  unfolding handle_token
  handle_token-go w body authorization random t h = rw (h, handle_token)

  -- An exchange takes the code that it names out of the map, whatever the answer, and no other.
  handle_token-codes :
      (w : World X) (body : List ℕ) (authorization : Option String) (random : String) (t : Clocks)
      (q : TokenQuery) (k : String)
      → token_query X body authorization ≡ go q
      → lookup k (handle_token X api w body authorization random t).1.state.codes
        ≡ (if q.code == k then none else lookup k w.state.codes)
  unfolding handle_token
  handle_token-codes w body authorization random t q k h =
      rw (h, handle_token) (redeem-codes w q random t k)

  -- An answer other than 200 leaves the tokens as they were.
  handle_token-tokens :
      (w : World X) (body : List ℕ) (authorization : Option String) (random : String) (t : Clocks)
      → (handle_token X api w body authorization random t).0.status ≢ 200
      → (handle_token X api w body authorization random t).1.state.tokens ≡ w.state.tokens
  handle_token-tokens w body authorization random t h =
      elim (Reply-cases (token_query X body authorization)) [
        | inl (r, refused) ↦ rw (handle_token-reply w body authorization random t refused)
        | inr (q, asked) ↦
            let e = handle_token-go w body authorization random t asked in
            rw e (redeem-tokens w q random t (rw e at h))
      ]

  redeem-again :
      (w : World X) (q : TokenQuery) (random : String) (t : Clocks)
      → lookup q.code w.state.codes ≡ none
      → redeem X api w q random t ≡ (invalid_grant, w)
  unfolding redeem
  redeem-again w q random t h = rw (h, redeem)

  -- Right after a readable request of the grant type `authorization_code` that names a code, a further
  -- one that names it, whoever sends it and whatever else it says, is refused as an invalid grant and
  -- changes nothing.
  pub handle_token-again :
      (w : World X) (body body' : List ℕ) (authorization authorization' : Option String)
      (random random' : String) (t t' : Clocks) (q q' : TokenQuery)
      → token_query X body authorization ≡ go q
      → token_query X body' authorization' ≡ go q'
      → q'.code ≡ q.code
      → handle_token X api
          (handle_token X api w body authorization random t).1
          body'
          authorization'
          random'
          t'
        ≡ (invalid_grant, (handle_token X api w body authorization random t).1)
  handle_token-again w body body' authorization authorization' random random' t t' q q' h h' same =
      rw
        (
          handle_token-go w body authorization random t h,
          handle_token-go (redeem X api w q random t).1 body' authorization' random' t' h',
        )
        (redeem-again (redeem X api w q random t).1 q' random' t'
          (rw same (redeem-codes w q random t q.code ∙ ground (arith, eq_iff q.code q.code))))
