-- ===== src/OAuth/Pages.antt =====
-- The pages and documents of simulator/src/oauth/helpers.rs: `html_escape`, `login_form_html` and
-- `discovery_json`.
use picoshift.Prelude.{String, Bool, List, [], ◌∷◌, if◌then◌else◌, ◌++◌, map}
use picoshift.Prelude.Text.Replace.{replace, format}
use picoshift.Json.Interface.{Serde}
use picoshift.OAuth.State.{AuthMode, legacy, oidc, byoidc}

unfoldable pub html_escape : String → String
html_escape s =
    replace b'"' "&quot;" (replace b'>' "&gt;" (replace b'<' "&lt;" (replace b'&' "&amp;" s)))

abbrev form_head : String
form_head = format (
    "<!DOCTYPE html>\n" ∷ "<html lang=\"en\">\n" ∷ "<head>\n" ∷ "<meta charset=\"utf-8\">\n"
    ∷ "<meta name=\"viewport\" content=\"width=device-width, initial-scale=1\">\n"
    ∷ "<title>Log in to ocp-sim</title>\n" ∷ "<style>\n"
    ∷ "  body { margin:0; font-family:-apple-system,BlinkMacSystemFont,\"Segoe UI\",Roboto,sans-serif;\n"
    ∷ "         background:#151515; color:#e0e0e0; display:flex; align-items:center; justify-content:center; min-height:100vh; }\n"
    ∷ "  .card { background:#1e1e1e; border:1px solid #333; border-radius:8px; padding:32px; width:340px; }\n"
    ∷ "  h1 { font-size:20px; margin:0 0 24px; text-align:center; }\n"
    ∷ "  label { display:block; font-size:13px; margin-bottom:4px; }\n"
    ∷ "  input[type=text], input[type=password] { width:100%; padding:8px; margin-bottom:16px;\n"
    ∷ "         border:1px solid #555; border-radius:4px; background:#2a2a2a; color:#e0e0e0;\n"
    ∷ "         font-size:14px; box-sizing:border-box; }\n"
    ∷ "  button { width:100%; padding:10px; background:#0066cc; color:#fff; border:none;\n"
    ∷ "           border-radius:4px; font-size:14px; cursor:pointer; }\n"
    ∷ "  button:hover { background:#004c99; }\n" ∷ "</style>\n" ∷ "</head>\n" ∷ "<body>\n"
    ∷ "<div class=\"card\">\n" ∷ "  <h1>Log in to ocp-sim</h1>\n" ∷ "  " ∷ [])

abbrev after_error : String
after_error = format (
    "\n" ∷ "  <form method=\"POST\" action=\"/oauth/authorize\">\n"
    ∷ "    <input type=\"hidden\" name=\"client_id\" value=\"" ∷ [])

abbrev after_client_id : String
after_client_id =
    format ("\">\n" ∷ "    <input type=\"hidden\" name=\"redirect_uri\" value=\"" ∷ [])

abbrev after_redirect_uri : String
after_redirect_uri = format ("\">\n" ∷ "    <input type=\"hidden\" name=\"state\" value=\"" ∷ [])

abbrev after_state : String
after_state = format ("\">\n" ∷ "    <input type=\"hidden\" name=\"response_type\" value=\"" ∷ [])

abbrev form_tail : String
form_tail = format (
    "\">\n" ∷ "    <label for=\"username\">Username</label>\n"
    ∷ "    <input type=\"text\" id=\"username\" name=\"username\" autocomplete=\"username\" autofocus>\n"
    ∷ "    <label for=\"password\">Password</label>\n"
    ∷ "    <input type=\"password\" id=\"password\" name=\"password\" autocomplete=\"current-password\">\n"
    ∷ "    <button type=\"submit\">Log in</button>\n" ∷ "  </form>\n" ∷ "</div>\n" ∷ "</body>\n"
    ∷ "</html>" ∷ [])

abbrev error_message : String
error_message =
    "<div style=\"background:#c9190b;color:#fff;padding:8px 12px;border-radius:4px;margin-bottom:16px;font-size:14px\">Invalid username or password. Please try again.</div>"

unfoldable pub login_form_html : String → String → String → String → Bool → String
unfolding html_escape
login_form_html client_id redirect_uri state response_type error =
    let error_block = if error then error_message else "" in
    format (
      form_head
      ∷ error_block
      ∷ after_error
      ∷ html_escape client_id
      ∷ after_client_id
      ∷ html_escape redirect_uri
      ∷ after_redirect_uri
      ∷ html_escape state
      ∷ after_state
      ∷ html_escape response_type
      ∷ form_tail
      ∷ [])

abbrev pub oauth_base : String
oauth_base = "https://oauth-openshift.apps.ocp-sim.test"

module _ (J : Serde) where
  open J use {Value, str, arr, obj, to_string}

  strs : List String → Value
  strs ss = arr (map str ss)

  -- The document of the legacy mode; that of the OIDC mode has five more entries.
  server_entries : List (String × Value)
  server_entries =
      ("issuer", str oauth_base)
      ∷ ("authorization_endpoint", str (format (oauth_base ∷ "/oauth/authorize" ∷ [])))
      ∷ ("token_endpoint", str (format (oauth_base ∷ "/oauth/token" ∷ [])))
      ∷ (
        "scopes_supported",
        strs ("user:check-access" ∷ "user:full" ∷ "user:info" ∷ "user:list-projects" ∷ []),
      )
      ∷ ("response_types_supported", strs ("code" ∷ "token" ∷ []))
      ∷ ("grant_types_supported", strs ("authorization_code" ∷ "implicit" ∷ []))
      ∷ ("code_challenge_methods_supported", strs ("plain" ∷ "S256" ∷ []))
      ∷ []

  oidc_entries : List (String × Value)
  oidc_entries =
      ("userinfo_endpoint", str (format (oauth_base ∷ "/oauth/userinfo" ∷ [])))
      ∷ ("jwks_uri", str (format (oauth_base ∷ "/oauth/jwks" ∷ [])))
      ∷ ("id_token_signing_alg_values_supported", strs ("RS256" ∷ []))
      ∷ ("subject_types_supported", strs ("public" ∷ []))
      ∷ (
        "token_endpoint_auth_methods_supported",
        strs ("client_secret_post" ∷ "client_secret_basic" ∷ []),
      )
      ∷ []

  local_entries : List (String × Value)
  local_entries =
      ("issuer", str "https://localhost:9443")
      ∷ ("jwks_uri", str "https://localhost:9443/oauth/jwks")
      ∷ ("response_types_supported", strs ("code" ∷ []))
      ∷ ("grant_types_supported", strs ("authorization_code" ∷ []))
      ∷ ("id_token_signing_alg_values_supported", strs ("RS256" ∷ []))
      ∷ ("subject_types_supported", strs ("public" ∷ []))
      ∷ []

  unfoldable pub discovery_json : AuthMode → String
  unfolding strs server_entries oidc_entries local_entries
  discovery_json byoidc = to_string (obj local_entries)
  discovery_json oidc = to_string (obj (server_entries ++ oidc_entries))
  discovery_json legacy = to_string (obj server_entries)
