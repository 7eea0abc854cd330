-- ===== src/OAuth/Watcher/Reloads.antt =====
-- Which users the server accepts after the events of the watch.
use picoshift.Prelude.{ℕ, String, ◌≡◌, refl, ap, Option, none, some, List, [], ◌∷◌, ◌++◌, map, All}
use picoshift.Prelude.Options.{unwrap_or}
use picoshift.Prelude.Text.Lines.{unlines}
use picoshift.OAuth.Users.{UserEntry, UserStore}
use picoshift.OAuth.Users.Htpasswd.{IsPlain, line_of, from_htpasswd-unlines}
use picoshift.OAuth.Watcher.{Secret, htpasswd_data, reloaded, watch_htpasswd_secret}

module _ (from_utf8_lossy : List ℕ → String) where
  -- None of the events brings a store: an error, another secret, or no `htpasswd` key.
  abbrev pub IsQuiet : Option Secret → Type 0
  IsQuiet none = Unit
  IsQuiet (some secret) = reloaded from_utf8_lossy secret ≡ none

  quiet_after :
      (store : UserStore) (events : List (Option Secret))
      → All IsQuiet events
      → watch_htpasswd_secret from_utf8_lossy store events ≡ store
  unfolding watch_htpasswd_secret
  quiet_after store [] h = refl
  quiet_after store (none ∷ events) (_, h) = quiet_after store events h
  quiet_after store (some secret ∷ events) (q, h) = rw q (quiet_after store events h)

  -- Once an event has brought a secret with the lines of plain entries, and only events without a
  -- store have come since, the store holds those entries and no others, whatever it held before.
  pub watch_htpasswd_secret-unlines :
      (store : UserStore) (before after : List (Option Secret)) (secret : Secret)
      (us : List UserEntry)
      → unwrap_or secret.name "" ≡ "htpass-secret"
      → htpasswd_data from_utf8_lossy secret ≡ some (unlines (map line_of us))
      → All IsPlain us
      → All IsQuiet after
      → watch_htpasswd_secret from_utf8_lossy store (before ++ some secret ∷ after)
        ≡ record { users = us }
  unfolding watch_htpasswd_secret reloaded
  watch_htpasswd_secret-unlines store [] after secret us named held plain quiet =
      let brought : reloaded from_utf8_lossy secret ≡ some (record { users = us }) =
        rw (reloaded, named, held) (ap some (from_htpasswd-unlines us plain)) in
      rw (watch_htpasswd_secret, brought) (quiet_after (record { users = us }) after quiet)
  watch_htpasswd_secret-unlines store (none ∷ before) after secret us named held plain quiet =
      watch_htpasswd_secret-unlines store before after secret us named held plain quiet
  watch_htpasswd_secret-unlines store (some s ∷ before) after secret us named held plain quiet =
      watch_htpasswd_secret-unlines (unwrap_or (reloaded from_utf8_lossy s) store) before after
        secret us named held plain quiet
