-- ===== src/OAuth/Watcher.antt =====
-- The watcher of the htpasswd secret, simulator/src/oauth/watcher.rs. The reading of bytes as a text
-- that replaces what is no UTF-8, `from_utf8_lossy`, is a parameter.
pub mod Reloads
use picoshift.Prelude.{ℕ, String, Bool, Option, none, some, List, [], ◌∷◌, ◌==◌, if◌then◌else◌}
use picoshift.Prelude.Maps.{Map, lookup}
use picoshift.Prelude.Options.{◌>>=◌, unwrap_or, or_else}
use picoshift.OAuth.Users.{UserStore, from_htpasswd}

pub record Secret : Type 0 where
  pub name : Option String
  pub data_ : Option (Map (List ℕ))
  pub string_data : Option (Map String)

module _ (from_utf8_lossy : List ℕ → String) where
  unfoldable pub htpasswd_data : Secret → Option String
  htpasswd_data secret =
      or_else (secret.data_ >>= lookup "htpasswd" >>= λ b. some (from_utf8_lossy b))
        (secret.string_data >>= lookup "htpasswd")

  -- The store that an event brings, `none` where the loop keeps the one it has.
  unfoldable pub reloaded : Secret → Option UserStore
  reloaded secret =
      let store = htpasswd_data secret >>= λ text. some (from_htpasswd text) in
      if unwrap_or secret.name "" == "htpass-secret" then store else none

  -- The loop over the events of the watch, `none` for a watch error.
  unfoldable pub watch_htpasswd_secret : UserStore → List (Option Secret) → UserStore
  watch_htpasswd_secret store [] = store
  watch_htpasswd_secret store (none ∷ events) = watch_htpasswd_secret store events
  watch_htpasswd_secret store (some secret ∷ events) =
      watch_htpasswd_secret (unwrap_or (reloaded secret) store) events
