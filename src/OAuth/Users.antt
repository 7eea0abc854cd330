-- ===== src/OAuth/Users.antt =====
-- The user store of simulator/src/oauth/types.rs: `UserEntry`, `UserStore` and its methods. The
-- laws are in the children.
pub mod Lookup
pub mod Htpasswd
mod Tests
use picoshift.Prelude.{
  ℕ, String, Bool, true, false, not, ◌&&◌, Option, none, some, List, [], ◌∷◌, map, find, filter,
  filter_map, ◌==◌,
}
use picoshift.Prelude.Options.{◌>>=◌, unwrap_or}
use picoshift.Prelude.Text.{is_empty, strip_prefix}
use picoshift.Prelude.Text.Lines.{lines}
use picoshift.Prelude.Text.Trim.{trim}
use picoshift.Prelude.Text.Split.{split_once}

pub record UserEntry : Type 0 where
  pub username : String
  pub password : String
  pub email : Option String
  pub groups : Option (List String)

pub record UserStore : Type 0 where
  pub users : List UserEntry

-- The store of `load` when no users file can be used.
abbrev pub default_store : UserStore
default_store = record {
  users =
      record {
        username = "admin";
        password = "admin";
        email = some "admin@ocp-sim.test";
        groups = some ("system:cluster-admins" ∷ "system:authenticated" ∷ []);
      }
      ∷ [];
}

-- `UserStore::load`: the file system and the YAML parser are parameters, `none` where they fail.
module _ (read_to_string : String → Option String)
    (from_yaml : String → Option (List UserEntry)) where
  unfoldable pub load : Option String → UserStore
  load none = default_store
  load (some p) = elim (read_to_string p) [
    | none ↦ default_store
    | some contents ↦ elim (from_yaml contents) [
      | none ↦ default_store
      | some users ↦ record { users = users }
    ]
  ]

abbrev pub has_credentials : String → String → UserEntry → Bool
has_credentials username password u = u.username == username && u.password == password

unfoldable pub authenticate : UserStore → String → String → Option UserEntry
authenticate store username password = find (has_credentials username password) store.users

unfoldable pub get : UserStore → String → Option UserEntry
get store username = find (λ u. u.username == username) store.users

-- `!l.trim().is_empty() && !l.starts_with('#')`
abbrev pub starts_with_hash : String → Bool
starts_with_hash l = elim (strip_prefix l "#") [ none ↦ false | some rest ↦ true ]

unfoldable pub is_entry_line : String → Bool
is_entry_line l = not (is_empty (trim l)) && not (starts_with_hash l)

unfoldable pub entry_of_line : String → Option UserEntry
entry_of_line line = do
  (user, pass) ← split_once b':' line
  some (record { username = trim user; password = trim pass; email = none; groups = none })

unfoldable pub from_htpasswd : String → UserStore
from_htpasswd text = record { users = filter_map entry_of_line (filter is_entry_line (lines text)) }
