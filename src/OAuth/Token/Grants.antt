-- ===== src/OAuth/Token/Grants.antt =====
-- What has been established when the token endpoint answers with a token.
use picoshift.Prelude.{
  ℕ, ◌≤◌, String, ◌≡◌, ◌≢◌, refl, ◌⊎◌, inl, inr, true, Option, none, some, List, Option-cases,
  Bool-cases, eq_iff, arith,
}
use picoshift.Prelude.Maps.{lookup}
use picoshift.Prelude.Options.{unwrap_or}
use picoshift.Prelude.Text.{is_empty}
use picoshift.Json.Interface.{Serde}
use picoshift.OAuth.Http.{Response, reply, go, Reply-cases}
use picoshift.OAuth.State.{Externals, AuthCode, code_ttl, elapsed}
use picoshift.OAuth.Clients.{Call, Api, validate_client}
use picoshift.OAuth.Authorize.{World, asked}
use picoshift.OAuth.Token.{
  TokenQuery, Clocks, verify_pkce, token_query, check_code, check_verifier, check_secret,
  issue_token, authenticate_client, exchange, redeem, handle_token, without_code, finish,
}

empty_text : (s : String) → is_empty s ≡ true → s ≡ ""
empty_text String.[] h = refl
empty_text (String.◌∷◌ c s) h = cc

module _ {J : Serde} (X : Externals J) (api : Api J) where
  -- The client has shown the verifier of the code's challenge, or, for a code without one, the
  -- secret of its registration, which may be empty.
  pub data ShownBy (log : List (Call J)) (ac : AuthCode) (q : TokenQuery) : Type 0 where
    verifier :
        (challenge v : String)
        → ac.code_challenge ≡ some challenge
        → q.code_verifier ≡ some v
        → verify_pkce X v challenge (unwrap_or ac.code_challenge_method "S256") ≡ true
        → ShownBy log ac q
    secret :
        (expected : String) (uris : List String)
        → ac.code_challenge ≡ none
        → validate_client api log q.client_id ≡ some (expected, uris)
        → (expected ≡ "") ⊎ (q.client_secret ≡ expected)
        → ShownBy log ac q

  pub record IsGranted (w : World X) (q : TokenQuery) (now : ℕ) : Type 0 where
    pub ac : AuthCode
    pub stored : lookup q.code w.state.codes ≡ some ac
    pub fresh : elapsed ac.created now ≤ code_ttl
    pub same_client : ac.client_id ≡ q.client_id
    pub shown : ShownBy w.calls ac q

  check_code-go :
      (ac : AuthCode) (q : TokenQuery) (now : ℕ)
      → check_code X ac q now ≡ go tt
      → (elapsed ac.created now ≤ code_ttl) × (ac.client_id ≡ q.client_id)
  unfolding check_code
  check_code-go ac q now h = ground (arith, eq_iff ac.client_id q.client_id)

  check_verifier-go :
      (challenge : String) (method v : Option String)
      → check_verifier X challenge method v ≡ go tt
      → (t : String) × (v ≡ some t) × (verify_pkce X t challenge (unwrap_or method "S256") ≡ true)
  unfolding check_verifier
  check_verifier-go challenge method none h = cc
  check_verifier-go challenge method (some t) h = (t, refl, ground arith)

  check_secret-go :
      (client : Option (String × List String)) (given : String)
      → check_secret X client given ≡ go tt
      → (e : String) × (us : List String) × (client ≡ some (e, us)) × ((e ≡ "") ⊎ (given ≡ e))
  unfolding check_secret
  check_secret-go none given h = cc
  check_secret-go (some (e, us)) given h = elim (Bool-cases (is_empty e)) [
    | inl blank ↦ (e, us, refl, inl (empty_text e blank))
    | inr filled ↦ (e, us, refl, inr (ground (arith, eq_iff given e)))
  ]

  authenticate_client-go :
      (w : World X) (ac : AuthCode) (q : TokenQuery)
      → (authenticate_client X api w ac q).0 ≡ go tt
      → ShownBy w.calls ac q
  unfolding authenticate_client
  authenticate_client-go w ac q h = elim (Option-cases ac.code_challenge) [
    | inl plain ↦
        let (e, us, found, ok) = check_secret-go _ _ (rw plain at h) in secret e us plain found ok
    | inr (c, pkce) ↦
        let (v, given, ok) = check_verifier-go c _ _ (rw pkce at h) in verifier c v pkce given ok
  ]

  -- An early return is never an answer with a token.
  token_query-reply :
      (body : List ℕ) (authorization : Option String) {r : Response}
      → token_query X body authorization ≡ reply r
      → r.status ≢ 200
  unfolding token_query
  token_query-reply body authorization h = ground arith

  check_code-reply :
      (ac : AuthCode) (q : TokenQuery) (now : ℕ) {r : Response}
      → check_code X ac q now ≡ reply r
      → r.status ≢ 200
  unfolding check_code
  check_code-reply ac q now h = ground arith

  authenticate_client-reply :
      (w : World X) (ac : AuthCode) (q : TokenQuery) {r : Response}
      → (authenticate_client X api w ac q).0 ≡ reply r
      → r.status ≢ 200
  unfolding authenticate_client check_verifier check_secret
  authenticate_client-reply w ac q h = ground arith

  finish-status :
      (w : World X) (ac : AuthCode) (q : TokenQuery) (random : String) (t : Clocks)
      → (finish X api (authenticate_client X api w ac q) ac q random t).0.status ≡ 200
      → (authenticate_client X api w ac q).0 ≡ go tt
  finish-status w ac q random t h = elim (Reply-cases (authenticate_client X api w ac q).0) [
    | inl (r, refused) ↦ absurd (authenticate_client-reply w ac q refused (ground (arith, refused)))
    | inr (_, passed) ↦ passed
  ]

  exchange-status :
      (w : World X) (ac : AuthCode) (q : TokenQuery) (random : String) (t : Clocks)
      → (exchange X api w ac q random t).0.status ≡ 200
      → (check_code X ac q t.checked ≡ go tt) × ((authenticate_client X api w ac q).0 ≡ go tt)
  unfolding exchange
  exchange-status w ac q random t h = elim (Reply-cases (check_code X ac q t.checked)) [
    | inl (r, refused) ↦
        absurd (check_code-reply ac q t.checked refused (rw (refused, exchange) at h))
    | inr (_, passed) ↦ (passed, finish-status w ac q random t (rw (passed, exchange) at h))
  ]

  redeem-IsGranted :
      (w : World X) (q : TokenQuery) (random : String) (t : Clocks)
      → (redeem X api w q random t).0.status ≡ 200
      → IsGranted w q t.checked
  unfolding redeem
  redeem-IsGranted w q random t h = elim (Option-cases (lookup q.code w.state.codes)) [
    | inl missing ↦
        let bad : ◌≡◌ {A = ℕ} 400 200 = rw (missing, redeem) at h in absurd (omega (arith, bad))
    | inr (ac, stored) ↦
        let (checked, shown) =
          exchange-status (without_code X api w q.code) ac q random t (rw (stored, redeem) at h) in
        let (fresh, same) = check_code-go ac q t.checked checked in
        record {
          ac = ac;
          stored = stored;
          fresh = fresh;
          same_client = same;
          shown = authenticate_client-go (without_code X api w q.code) ac q shown;
        }
  ]

  -- The token endpoint answers 200 only if the request carries a code that is stored, at most 300
  -- seconds old and issued to the client that the request names, and the client has shown the
  -- verifier of the code's challenge, or, where the code has none, is registered with an empty
  -- secret or with the secret that the request carries.
  pub handle_token-IsGranted :
      (w : World X) (body : List ℕ) (authorization : Option String) (random : String) (t : Clocks)
      → (handle_token X api w body authorization random t).0.status ≡ 200
      → (q : TokenQuery) × (token_query X body authorization ≡ go q) × IsGranted w q t.checked
  unfolding handle_token
  handle_token-IsGranted w body authorization random t h =
      elim (Reply-cases (token_query X body authorization)) [
        | inl (r, refused) ↦
            absurd (token_query-reply body authorization refused (rw (refused, handle_token) at h))
        | inr (q, asked) ↦ (q, asked, redeem-IsGranted w q random t (rw (asked, handle_token) at h))
      ]

  -- Behind the answer 200 is the last step of the exchange.
  finish-issues :
      (w : World X) (ac : AuthCode) (q : TokenQuery) (random : String) (t : Clocks)
      → (authenticate_client X api w ac q).0 ≡ go tt
      → (w' : World X) × (finish X api (authenticate_client X api w ac q) ac q random t
          ≡ issue_token X w' ac q random t)
        × (w'.state.jwt_keys ≡ w.state.jwt_keys)
  unfolding authenticate_client
  finish-issues w ac q random t h =
      ((authenticate_client X api w ac q).1, ground (arith, h), ground arith)

  pub handle_token-issues :
      (w : World X) (body : List ℕ) (authorization : Option String) (random : String) (t : Clocks)
      (q : TokenQuery)
      → token_query X body authorization ≡ go q
      → (g : IsGranted w q t.checked)
      → (handle_token X api w body authorization random t).0.status ≡ 200
      → (w' : World X) × (handle_token X api w body authorization random t
          ≡ issue_token X w' g.ac q random t)
        × (w'.state.jwt_keys ≡ w.state.jwt_keys)
  unfolding handle_token redeem exchange
  handle_token-issues w body authorization random t q read g answered =
      let (checked, shown) =
        exchange-status (without_code X api w q.code) g.ac q random t
          (rw (read, handle_token, redeem, g.stored) at answered) in
      let (w', issued, keys) = finish-issues (without_code X api w q.code) g.ac q random t shown in
      (w', rw (read, handle_token, redeem, g.stored, exchange, checked) issued, keys)
