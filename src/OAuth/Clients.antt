-- ===== src/OAuth/Clients.antt =====
-- The calls of the OAuth server to the API server, simulator/src/oauth/k8s.rs.
use picoshift.Prelude.{String, Option, none, some, List, [], ◌∷◌, filter_map}
use picoshift.Prelude.Text.Replace.{format}
use picoshift.Prelude.Options.{◌>>=◌, unwrap_or}
use picoshift.Json.{array_in}
use picoshift.Json.Interface.{Serde}
use picoshift.Kube.{Result, ok, err}

-- The requests: a read of an OAuthClient, and server-side applies of a User and of an Identity.
pub data Call (J : Serde) : Type 0 where
  get_client : String → Call J
  apply_user apply_identity : String → J.Value → Call J

-- The API server: what it answers after the calls before. A client is the object's `data`; the
-- answer to an applied user holds the object's `uid`.
pub record Api (J : Serde) : Type 0 where
  pub client : List (Call J) → String → Result J.Value
  pub user : List (Call J) → String → J.Value → Result (Option String)

module _ {J : Serde} (api : Api J) where
  open J use {Value, get, as_str, str, obj, arr}

  -- `api.get(client_id).await.ok()?`
  abbrev client_object : Result Value → Option Value
  client_object (ok v) = some v
  client_object (err e) = none

  -- The secret and the redirect URIs of a client that exists.
  unfoldable pub validate_client : List (Call J) → String → Option (String × List String)
  validate_client log client_id = do
    oauth_client ← client_object (api.client log client_id)
    let secret = unwrap_or (get oauth_client "secret" >>= as_str) ""
    let redirect_uris =
        unwrap_or
          (array_in J oauth_client ("redirectURIs" ∷ []) >>= λ us. some (filter_map as_str us)) []
    some (secret, redirect_uris)

  abbrev pub identity_name : String → String
  identity_name username = format ("ocp-sim." ∷ username ∷ [])

  unfoldable pub user_object : String → Value
  user_object username = obj (
      ("apiVersion", str "user.openshift.io/v1")
      ∷ ("kind", str "User")
      ∷ ("metadata", obj (("name", str username) ∷ []))
      ∷ ("fullName", str username)
      ∷ ("identities", arr (str (identity_name username) ∷ []))
      ∷ [])

  unfoldable pub identity_object : String → String → Value
  identity_object username uid = obj (
      ("apiVersion", str "user.openshift.io/v1")
      ∷ ("kind", str "Identity")
      ∷ ("metadata", obj (("name", str (identity_name username)) ∷ []))
      ∷ ("providerName", str "ocp-sim")
      ∷ ("providerUserName", str username)
      ∷ ("user", obj (("name", str username) ∷ ("uid", str uid) ∷ []))
      ∷ [])

  -- The identity is applied only if the user was; errors are logged and dropped.
  unfoldable pub ensure_user_and_identity : List (Call J) → String → List (Call J)
  ensure_user_and_identity log username =
      let user_obj = user_object username in
      let log' = apply_user username user_obj ∷ log in
      elim (api.user log username user_obj) [
        | ok uid ↦
            apply_identity (identity_name username)
              (identity_object username (unwrap_or uid "unknown"))
            ∷ log'
        | err e ↦ log'
      ]
