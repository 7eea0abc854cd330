-- ===== src/OAuth/Authorize/Parts.antt =====
-- The parts of the authorize handlers: the check of the client, the entry of a code, and the
-- credentials of a header.
use text.Mathlib.Text.{starts_with}
use picoshift.Prelude.{
  ℕ, String, ◌≡◌, ◌≢◌, refl, inl, inr, true, false, ◌||◌, some, List, In, any-witness, Option-cases,
  Bool-cases, arith, any,
}
use picoshift.Prelude.Maps.{Map, insert}
use picoshift.Prelude.Options.{is_none}
use picoshift.Prelude.Text.{is_empty}
use picoshift.Json.Interface.{Serde}
use picoshift.OAuth.Users.{UserEntry, UserStore, authenticate}
use picoshift.OAuth.Http.{Response, reply, go}
use picoshift.OAuth.State.{Externals, AuthCode}
use picoshift.OAuth.Clients.{Call, Api, validate_client}
use picoshift.OAuth.Authorize.{
  World, AuthorizeQuery, authorize_query, check_client, basic_credentials, log_in, basic_user,
}

-- The entry of a code that is issued to a user at an instant.
abbrev pub code_for : String → AuthorizeQuery → ℕ → AuthCode
code_for username q now = record {
  username = username;
  client_id = q.client_id;
  created = now;
  code_challenge = q.code_challenge;
  code_challenge_method = q.code_challenge_method;
}

pub authenticated_entry :
    (store : UserStore) (user pass : String)
    → (is_empty user || is_none (authenticate store user pass)) ≡ false
    → (e : UserEntry) × (authenticate store user pass ≡ some e)
authenticated_entry store user pass h = elim (Option-cases (authenticate store user pass)) [
  | inl missing ↦ absurd (ground (arith, missing))
  | inr found ↦ found
]

module _ {J : Serde} (X : Externals J) (api : Api J) where
  -- The client is registered, with a redirect URI that the request's begins with.
  pub record IsRegistered (log : List (Call J)) (q : AuthorizeQuery) : Type 0 where
    pub secret : String
    pub redirect_uris : List String
    pub client : validate_client api log q.client_id ≡ some (secret, redirect_uris)
    pub uri : String
    pub listed : In uri redirect_uris
    pub uri_matches : starts_with q.redirect_uri uri ≡ true

  pub check_client-go :
      (log : List (Call J)) (q : AuthorizeQuery)
      → check_client api log q ≡ go tt
      → IsRegistered log q
  unfolding check_client
  check_client-go log q h = elim (Option-cases (validate_client api log q.client_id)) [
    | inl unknown ↦ cc (rw (unknown, check_client) at h)
    | inr ((secret, uris), known) ↦
        elim (Bool-cases (any (λ u. starts_with q.redirect_uri u) uris)) [
          | inl matched ↦
              let (uri, listed, ok) =
                any-witness (λ u. starts_with q.redirect_uri u) uris matched in
              record {
                secret = secret;
                redirect_uris = uris;
                client = known;
                uri = uri;
                listed = listed;
                uri_matches = ok;
              }
          | inr unmatched ↦ cc (rw (known, check_client, unmatched) at h)
        ]
  ]

  pub check_client-reply :
      (log : List (Call J)) (q : AuthorizeQuery) {r : Response}
      → check_client api log q ≡ reply r
      → r.status ≢ 302
  unfolding check_client
  check_client-reply log q h = ground arith

  pub authorize_query-reply :
      (params : Map String) {r : Response} → authorize_query params ≡ reply r → r.status ≢ 302
  unfolding authorize_query
  authorize_query-reply params h = ground arith

  pub log_in-codes :
      (w : World X) (username : String) (q : AuthorizeQuery) (code : String) (now : ℕ)
      → (log_in X api w username q code now).1.state.codes
        ≡ insert code (code_for username q now) w.state.codes
  unfolding log_in
  log_in-codes w username q code now = refl

  pub log_in-tokens :
      (w : World X) (username : String) (q : AuthorizeQuery) (code : String) (now : ℕ)
      → (log_in X api w username q code now).1.state.tokens ≡ w.state.tokens
  unfolding log_in
  log_in-tokens w username q code now = refl

  pub basic_user_sound :
      (store : UserStore) (encoded : String) {user : String}
      → basic_user X api store encoded ≡ some user
      → (pass : String) × (e : UserEntry) × (basic_credentials X encoded ≡ some (user, pass))
        × (authenticate store user pass ≡ some e)
  unfolding basic_user
  basic_user_sound store encoded {user} h = elim (Option-cases (basic_credentials X encoded)) [
    | inl bad ↦ cc (rw (bad, basic_user) at h)
    | inr ((name, pass), decoded) ↦ elim (Option-cases (authenticate store name pass)) [
      | inl refused ↦ cc (rw (decoded, basic_user, refused) at h)
      | inr (e, found) ↦
          let same : name ≡ user = ground (arith, rw (decoded, basic_user, found) at h) in
          (pass, e, rw (← same) decoded, rw (← same) found)
    ]
  ]
