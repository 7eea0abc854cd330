-- ===== src/OAuth/Users/Tests.antt =====
-- Runs of the user store's model and of its watcher at concrete inputs.
use picoshift.Prelude.{ℕ, String, ◌≡◌, ◌≢◌, refl, false, none, some, List, [], ◌∷◌, map, arith, eqb}
use picoshift.Prelude.Maps.{lookup}
use picoshift.Prelude.Text.Lines.{unlines}
use picoshift.OAuth.Users.{UserEntry, default_store, authenticate, from_htpasswd}
use picoshift.Prelude.Text.Trim.{is_whitespace}
use picoshift.OAuth.Users.Htpasswd.{from_htpasswd-unlines, line_of, IsPlain}
use picoshift.OAuth.Watcher.{Secret, htpasswd_data, watch_htpasswd_secret}
use picoshift.OAuth.Watcher.Reloads.{watch_htpasswd_secret-unlines}

abbrev alice : UserEntry
alice = record { username = "al"; password = "pw"; email = none; groups = none }

apart : {m n : ℕ} → eqb m n ≡ false → m ≢ n
apart h e = ground (arith, h, e)

alice-IsPlain : IsPlain alice
unfolding is_whitespace
alice-IsPlain = record {
  named = apart refl;
  no_colon = (apart refl, (apart refl, tt));
  name_trimmed = (refl, refl);
  pass_trimmed = (refl, refl);
  one_line = (
    apart refl,
    apart refl,
    (
      apart refl,
      apart refl,
      (apart refl, apart refl, (apart refl, apart refl, (apart refl, apart refl, tt))),
    ),
  );
  no_email = refl;
  no_groups = refl;
}

from_htpasswd-unlines_example :
    from_htpasswd (unlines (map line_of (alice ∷ []))) ≡ record { users = alice ∷ [] }
from_htpasswd-unlines_example = from_htpasswd-unlines (alice ∷ []) (alice-IsPlain, tt)

finds : authenticate (record { users = alice ∷ [] }) "al" "pw" ≡ some alice
unfolding authenticate
finds = refl

misses : authenticate (record { users = alice ∷ [] }) "al" "x" ≡ none
unfolding authenticate
misses = refl

-- A secret with one user, and an event of the watch without a store.
abbrev htpasswd : List ℕ → String
htpasswd bs = "al:pw\n"

abbrev htpass_secret : Secret
htpass_secret = record {
  name = some "htpass-secret";
  data_ = some (("htpasswd", 1 ∷ []) ∷ []);
  string_data = none;
}

carries : htpasswd_data htpasswd htpass_secret ≡ some (unlines (map line_of (alice ∷ [])))
unfolding htpasswd_data lookup
carries = refl

watch_htpasswd_secret-unlines_example :
    watch_htpasswd_secret htpasswd default_store (some htpass_secret ∷ none ∷ [])
    ≡ record { users = alice ∷ [] }
watch_htpasswd_secret-unlines_example =
    watch_htpasswd_secret-unlines htpasswd default_store [] (none ∷ []) htpass_secret (alice ∷ [])
      refl carries (alice-IsPlain, tt) (tt, tt)
