-- ===== src/OAuth/Server/Effects.antt =====
-- What a request to the OAuth server does to its state: at most one code is stored, or one is taken
-- out, alone or for one token.
use picoshift.Prelude.{
  ℕ, String, ◌≡◌, inl, inr, ◌||◌, Option, some, List, In, Bool-cases, Option-cases,
}
use picoshift.Prelude.Maps.{Map, lookup, insert, remove}
use picoshift.Prelude.Options.{unwrap_or, is_none}
use picoshift.Prelude.Text.{is_empty}
use picoshift.Json.Interface.{Serde}
use picoshift.OAuth.Users.{UserEntry, authenticate}
use picoshift.OAuth.Users.Lookup.{authenticate_sound}
use picoshift.OAuth.Http.{Request, Reply, reply, go, Reply-cases}
use picoshift.OAuth.State.{Externals, AuthCode, OAuthState}
use picoshift.OAuth.Clients.{Api}
use picoshift.OAuth.Authorize.{
  World, AuthorizeQuery, parse_query, parse_form_body, authorize_query, check_client, basic_header,
  basic_user, asked, log_in, authorize_request, form_log_in, handle_authorize_get,
  handle_authorize_post,
}
use picoshift.OAuth.Authorize.Parts.{code_for, authenticated_entry, basic_user_sound}
use picoshift.OAuth.Token.{
  TokenQuery, Clocks, token_query, check_code, authenticate_client, make_token, issue_token, finish,
  exchange, redeem, handle_token, without_code,
}
use picoshift.OAuth.Token.SingleUse.{authenticate_client-state}

module _ {J : Serde} (X : Externals J) where
  pub data Effect (s : OAuthState X) : OAuthState X → Type 0 where
    same : Effect s s
    issued :
        (k : String) (ac : AuthCode) (e : UserEntry)
        → In e s.user_store.users
        → e.username ≡ ac.username
        → Effect s (record s { codes = insert k ac s.codes })
    spent : (k : String) → Effect s (record s { codes = remove k s.codes })
    granted :
        (k : String) (ac : AuthCode) (t : String) (created : ℕ)
        → lookup k s.codes ≡ some ac
        → Effect s (record s {
          codes = remove k s.codes;
          tokens = insert t (record { username = ac.username; created = created }) s.tokens;
        })

  module _ (api : Api J) where
    issue_token-Effect :
        (s : OAuthState X) (w : World X) (ac : AuthCode) (q : TokenQuery) (random : String)
        (t : Clocks)
        → lookup q.code s.codes ≡ some ac
        → w.state ≡ record s { codes = remove q.code s.codes }
        → Effect s (issue_token X w ac q random t).1.state
    unfolding issue_token
    issue_token-Effect s w ac q random t stored e =
        elim (Option-cases (make_token X w.state ac.username q.client_id random t.unix_secs)) [
          | inl failed ↦ rw (failed, issue_token, e) (spent q.code)
          | inr (token, made) ↦ rw (made, issue_token, e) (granted q.code ac token t.stored stored)
        ]

    finish-Effect :
        (s : OAuthState X) (m : Reply (Unit {0}) × World X) (ac : AuthCode) (q : TokenQuery)
        (random : String) (t : Clocks)
        → lookup q.code s.codes ≡ some ac
        → m.1.state ≡ record s { codes = remove q.code s.codes }
        → Effect s (finish X api m ac q random t).1.state
    finish-Effect s (reply r, w) ac q random t stored e = rw e (spent q.code)
    finish-Effect s (go _, w) ac q random t stored e = issue_token-Effect s w ac q random t stored e

    exchange-Effect :
        (w : World X) (ac : AuthCode) (q : TokenQuery) (random : String) (t : Clocks)
        → lookup q.code w.state.codes ≡ some ac
        → Effect w.state (exchange X api (without_code X api w q.code) ac q random t).1.state
    unfolding exchange
    exchange-Effect w ac q random t stored = elim (Reply-cases (check_code X ac q t.checked)) [
      | inl (r, refused) ↦ rw (refused, exchange) (spent q.code)
      | inr (_, passed) ↦
          let w' = without_code X api w q.code in
          rw (passed, exchange)
            (finish-Effect w.state (authenticate_client X api w' ac q) ac q random t stored
              (authenticate_client-state X api w' ac q))
    ]

    redeem-Effect :
        (w : World X) (q : TokenQuery) (random : String) (t : Clocks)
        → Effect w.state (redeem X api w q random t).1.state
    unfolding redeem
    redeem-Effect w q random t = elim (Option-cases (lookup q.code w.state.codes)) [
      | inl missing ↦ rw (missing, redeem) same
      | inr (ac, stored) ↦ rw (stored, redeem) (exchange-Effect w ac q random t stored)
    ]

    pub handle_token-Effect :
        (w : World X) (body : List ℕ) (authorization : Option String) (random : String) (t : Clocks)
        → Effect w.state (handle_token X api w body authorization random t).1.state
    unfolding handle_token
    handle_token-Effect w body authorization random t =
        elim (Reply-cases (token_query X body authorization)) [
          | inl (r, refused) ↦ rw (refused, handle_token) same
          | inr (q, asked) ↦ rw (asked, handle_token) (redeem-Effect w q random t)
        ]

    log_in-Effect :
        (w : World X) (username pass : String) (q : AuthorizeQuery) (code : String) (now : ℕ)
        (e : UserEntry)
        → authenticate w.state.user_store username pass ≡ some e
        → Effect w.state (log_in X api w username q code now).1.state
    unfolding log_in
    log_in-Effect w username pass q code now e found =
        let (member, named, matched) = authenticate_sound w.state.user_store username pass found in
        issued code (code_for username q now) e member named

    authorize_request-Effect :
        (w : World X) (req : Request) (q : AuthorizeQuery) (params : Map String) (code : String)
        (now : ℕ)
        → Effect w.state (authorize_request X api w req q params code now).1.state
    unfolding authorize_request
    authorize_request-Effect w req q params code now = elim (Option-cases (basic_header req)) [
      | inl missing ↦ rw (missing, authorize_request) same
      | inr (encoded, given) ↦ elim (Option-cases (basic_user X api w.state.user_store encoded)) [
        | inl bad ↦ rw (given, authorize_request, bad) same
        | inr (user, accepted) ↦
            let (pass, e, decoded, found) =
              basic_user_sound X api w.state.user_store encoded accepted in
            rw (given, authorize_request, accepted) (log_in-Effect w user pass q code now e found)
      ]
    ]

    pub handle_authorize_get-Effect :
        (w : World X) (req : Request) (code : String) (now : ℕ)
        → Effect w.state (handle_authorize_get X api w req code now).1.state
    unfolding handle_authorize_get
    handle_authorize_get-Effect w req code now =
        elim (Reply-cases (authorize_query (parse_query X req))) [
          | inl (r, refused) ↦ rw (refused, handle_authorize_get) same
          | inr (q, read) ↦ elim (Reply-cases (check_client api w.calls q)) [
            | inl (r, refused) ↦ rw (read, handle_authorize_get, refused) same
            | inr (_, passed) ↦
                rw (read, handle_authorize_get, passed)
                  (authorize_request-Effect (asked X api w q.client_id) req q (parse_query X req)
                    code now)
          ]
        ]

    form_log_in-Effect :
        (w : World X) (params : Map String) (q : AuthorizeQuery) (code : String) (now : ℕ)
        → Effect w.state (form_log_in X api w params q code now).1.state
    unfolding form_log_in
    form_log_in-Effect w params q code now =
        let user = unwrap_or (lookup "username" params) "" in
        let pass = unwrap_or (lookup "password" params) "" in
        elim (Bool-cases (is_empty user || is_none (authenticate w.state.user_store user pass))) [
          | inl bad ↦ rw (bad, form_log_in) same
          | inr good ↦ elim (Reply-cases (check_client api w.calls q)) [
            | inl (r, refused) ↦ rw (good, form_log_in, refused) same
            | inr (_, passed) ↦
                let (e, found) = authenticated_entry w.state.user_store user pass good in
                rw (good, form_log_in, passed)
                  (log_in-Effect (asked X api w q.client_id) user pass q code now e found)
          ]
        ]

    pub handle_authorize_post-Effect :
        (w : World X) (body : List ℕ) (code : String) (now : ℕ)
        → Effect w.state (handle_authorize_post X api w body code now).1.state
    unfolding handle_authorize_post
    handle_authorize_post-Effect w body code now =
        elim (Reply-cases (authorize_query (parse_form_body X body))) [
          | inl (r, refused) ↦ rw (refused, handle_authorize_post) same
          | inr (q, read) ↦
              rw (read, handle_authorize_post)
                (form_log_in-Effect w (parse_form_body X body) q code now)
        ]
