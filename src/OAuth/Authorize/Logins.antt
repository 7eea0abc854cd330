-- ===== src/OAuth/Authorize/Logins.antt =====
-- When the authorize endpoint issues a code, and to whom.
use picoshift.Prelude.{
  ℕ, String, ◌≡◌, ◌≢◌, refl, sym, ap, ◌∙◌, inl, inr, ◌||◌, some, List, In, Option-cases, Bool-cases,
  arith,
}
use picoshift.Prelude.Maps.{Map, lookup, insert}
use picoshift.Prelude.Options.{unwrap_or, is_none}
use picoshift.Prelude.Text.{is_empty}
use picoshift.Json.Interface.{Serde}
use picoshift.OAuth.Users.{UserEntry, authenticate}
use picoshift.OAuth.Users.Lookup.{authenticate_sound}
use picoshift.OAuth.Http.{Request, go, Reply-cases}
use picoshift.OAuth.State.{Externals, OAuthState}
use picoshift.OAuth.Clients.{Api}
use picoshift.OAuth.Authorize.{
  World, AuthorizeQuery, parse_query, parse_form_body, authorize_query, check_client,
  basic_credentials, basic_header, challenge_or_form, asked, log_in, basic_user, authorize_request,
  handle_authorize_get, handle_authorize_post, form_log_in,
}
use picoshift.OAuth.Authorize.Parts.{
  code_for, authenticated_entry, IsRegistered, check_client-go, check_client-reply,
  authorize_query-reply, log_in-codes, log_in-tokens, basic_user_sound,
}

module _ {J : Serde} (X : Externals J) (api : Api J) where
  -- The credentials that the request carries are those of an entry of the store, the client is
  -- registered, and the code is stored for the two, and nothing else changes.
  pub record IsLoggedIn (Carries : String → String → Type 0) (w after : World X)
      (q : AuthorizeQuery) (code : String) (now : ℕ) : Type 0 where
    pub username : String
    pub password : String
    pub carried : Carries username password
    pub entry : UserEntry
    pub user : In entry w.state.user_store.users
    pub name : entry.username ≡ username
    pub pass : entry.password ≡ password
    pub registered : IsRegistered X api w.calls q
    pub codes : after.state.codes ≡ insert code (code_for username q now) w.state.codes
    pub tokens : after.state.tokens ≡ w.state.tokens

  -- The credentials of a GET are in its `authorization` header, those of a POST in its form.
  abbrev pub CarriesBasic : Request → String → String → Type 0
  CarriesBasic req username password =
      (encoded : String) × (basic_header req ≡ some encoded)
      × (basic_credentials X encoded ≡ some (username, password))

  abbrev pub CarriesForm : Map String → String → String → Type 0
  CarriesForm params username password =
      (unwrap_or (lookup "username" params) "" ≡ username)
      × (unwrap_or (lookup "password" params) "" ≡ password)

  log_in-IsLoggedIn :
      (Carries : String → String → Type 0) (w w' : World X) (username password : String)
      (q : AuthorizeQuery) (code : String) (now : ℕ) (e : UserEntry)
      → w'.state ≡ w.state
      → Carries username password
      → authenticate w.state.user_store username password ≡ some e
      → check_client api w.calls q ≡ go tt
      → IsLoggedIn Carries w (log_in X api w' username q code now).1 q code now
  log_in-IsLoggedIn Carries w w' username password q code now e same carried found passed =
      let (member, named, matched) =
        authenticate_sound w.state.user_store username password found in
      record {
        username = username;
        password = password;
        carried = carried;
        entry = e;
        user = member;
        name = named;
        pass = matched;
        registered = check_client-go X api w.calls q passed;
        codes =
            log_in-codes X api w' username q code now
            ∙ ap (λ (s : OAuthState X). insert code (code_for username q now) s.codes) same;
        tokens =
            log_in-tokens X api w' username q code now ∙ ap (λ (s : OAuthState X). s.tokens) same;
      }

  -- The part of a GET behind the checks on the client.
  authorize_request-IsLoggedIn :
      (w w' : World X) (req : Request) (q : AuthorizeQuery) (params : Map String) (code : String)
      (now : ℕ)
      → w'.state ≡ w.state
      → check_client api w.calls q ≡ go tt
      → (authorize_request X api w' req q params code now).0.status ≡ 302
      → IsLoggedIn
          (CarriesBasic req)
          w
          (authorize_request X api w' req q params code now).1
          q
          code
          now
  unfolding authorize_request
  authorize_request-IsLoggedIn w w' req q params code now same passed h =
      elim (Option-cases (basic_header req)) [
        | inl missing ↦
            let refused : ((challenge_or_form req q params).status ≡ 302) =
              rw (missing, authorize_request) at h in
            absurd (ground (arith, refused))
        | inr (encoded, given) ↦
            elim (Option-cases (basic_user X api w'.state.user_store encoded)) [
              | inl bad ↦
                  let refused : ◌≡◌ {A = ℕ} 401 302 = rw (given, authorize_request, bad) at h in
                  absurd (omega (arith, refused))
              | inr (user, accepted) ↦
                  let (pass, e, decoded, found) =
                    basic_user_sound X api w'.state.user_store encoded accepted in
                  let found' : authenticate w.state.user_store user pass ≡ some e =
                    sym (ap (λ (s : OAuthState X). authenticate s.user_store user pass) same)
                    ∙ found in
                  rw (given, authorize_request, accepted)
                    (log_in-IsLoggedIn (CarriesBasic req) w w' user pass q code now e same
                      (encoded, given, decoded) found' passed)
            ]
      ]

  authorize_request-refused :
      (w : World X) (req : Request) (q : AuthorizeQuery) (params : Map String) (code : String)
      (now : ℕ)
      → (authorize_request X api w req q params code now).0.status ≢ 302
      → (authorize_request X api w req q params code now).1 ≡ w
  unfolding authorize_request log_in
  authorize_request-refused w req q params code now h = ground arith

  -- The part of a POST behind the reading of its form.
  form_log_in-IsLoggedIn :
      (w : World X) (params : Map String) (q : AuthorizeQuery) (code : String) (now : ℕ)
      → (form_log_in X api w params q code now).0.status ≡ 302
      → IsLoggedIn (CarriesForm params) w (form_log_in X api w params q code now).1 q code now
  unfolding form_log_in
  form_log_in-IsLoggedIn w params q code now h =
      let user = unwrap_or (lookup "username" params) "" in
      let pass = unwrap_or (lookup "password" params) "" in
      elim (Bool-cases (is_empty user || is_none (authenticate w.state.user_store user pass))) [
        | inl bad ↦
            let refused : ◌≡◌ {A = ℕ} 200 302 = rw (bad, form_log_in) at h in
            absurd (omega (arith, refused))
        | inr good ↦ elim (Reply-cases (check_client api w.calls q)) [
          | inl (r, refused) ↦
              absurd
                (check_client-reply X api w.calls q refused (rw (good, form_log_in, refused) at h))
          | inr (_, passed) ↦
              let (e, found) = authenticated_entry w.state.user_store user pass good in
              rw (good, form_log_in, passed)
                (log_in-IsLoggedIn (CarriesForm params) w (asked X api w q.client_id) user pass q
                  code now e refl (refl, refl) found passed)
        ]
      ]

  -- A GET of the authorize endpoint redirects with a code only if it names a registered client and a
  -- redirect URI that begins with one of the client's, and its Basic credentials are those of an
  -- entry of the user store; the code is then stored for that user and client.
  pub handle_authorize_get-IsLoggedIn :
      (w : World X) (req : Request) (code : String) (now : ℕ)
      → (handle_authorize_get X api w req code now).0.status ≡ 302
      → (q : AuthorizeQuery) × (authorize_query (parse_query X req) ≡ go q)
        × IsLoggedIn (CarriesBasic req) w (handle_authorize_get X api w req code now).1 q code now
  unfolding handle_authorize_get
  handle_authorize_get-IsLoggedIn w req code now h =
      elim (Reply-cases (authorize_query (parse_query X req))) [
        | inl (r, refused) ↦
            absurd (authorize_query-reply X api _ refused (rw (refused, handle_authorize_get) at h))
        | inr (q, read) ↦ elim (Reply-cases (check_client api w.calls q)) [
          | inl (r, refused) ↦ absurd (
              check_client-reply X api w.calls q refused
                (rw (read, handle_authorize_get, refused) at h))
          | inr (_, passed) ↦ (
            q,
            read,
            rw (read, handle_authorize_get, passed)
                (authorize_request-IsLoggedIn w (asked X api w q.client_id) req q
                  (parse_query X req) code now refl passed
                  (rw (read, handle_authorize_get, passed) at h)),
          )
        ]
      ]

  -- A POST of the authorize endpoint redirects with a code only if its form names a registered
  -- client and a redirect URI that begins with one of the client's, and holds the credentials of an
  -- entry of the user store; the code is then stored for that user and client.
  pub handle_authorize_post-IsLoggedIn :
      (w : World X) (body : List ℕ) (code : String) (now : ℕ)
      → (handle_authorize_post X api w body code now).0.status ≡ 302
      → (q : AuthorizeQuery) × (authorize_query (parse_form_body X body) ≡ go q)
        × IsLoggedIn
            (CarriesForm (parse_form_body X body))
            w
            (handle_authorize_post X api w body code now).1
            q
            code
            now
  unfolding handle_authorize_post
  handle_authorize_post-IsLoggedIn w body code now h =
      elim (Reply-cases (authorize_query (parse_form_body X body))) [
        | inl (r, refused) ↦
            absurd
              (authorize_query-reply X api _ refused (rw (refused, handle_authorize_post) at h))
        | inr (q, read) ↦ (
          q,
          read,
          rw (read, handle_authorize_post)
              (form_log_in-IsLoggedIn w (parse_form_body X body) q code now
                (rw (read, handle_authorize_post) at h)),
        )
      ]
