-- ===== src/OAuth/Users/Lookup.antt =====
-- What the lookups of the user store answer.
use picoshift.Prelude.{
  String, ◌≡◌, none, some, List, [], ◌∷◌, In, All, find-some, find-none, eq_iff, arith, ◌==◌,
  and_true, false,
}
use picoshift.OAuth.Users.{UserEntry, UserStore, has_credentials, authenticate, get}

abbrev pub HasCredentials : String → String → UserEntry → Type 0
HasCredentials username password u = (u.username ≡ username) × (u.password ≡ password)

-- An authenticated entry is one of the store's, with the name and the password that were given.
pub authenticate_sound :
    (store : UserStore) (username password : String) {u : UserEntry}
    → authenticate store username password ≡ some u
    → In u store.users × (u.username ≡ username) × (u.password ≡ password)
unfolding authenticate
authenticate_sound store username password {u} h =
    let (member, ok) = find-some (has_credentials username password) store.users h in
    let (name_ok, pass_ok) = and_true _ _ ok in
    (member, (eq_iff _ _).0 name_ok, (eq_iff _ _).0 pass_ok)

lacks_credentials :
    (username password : String) (us : List UserEntry)
    → All (λ u. has_credentials username password u ≡ false) us
    → All (λ u. ¬ (HasCredentials username password u)) us
lacks_credentials username password [] h = tt
lacks_credentials username password (u ∷ us) h = (
  λ c. ground (arith, eq_iff u.username username, eq_iff u.password password, c.0, c.1, h.0),
  lacks_credentials username password us h.1,
)

-- A refusal means that no entry of the store has both the name and the password.
authenticate-none :
    (store : UserStore) (username password : String)
    → authenticate store username password ≡ none
    → All (λ u. ¬ (HasCredentials username password u)) store.users
unfolding authenticate
authenticate-none store username password h =
    lacks_credentials username password store.users (find-none _ store.users h)

-- An entry that is found by name has that name.
pub get_sound :
    (store : UserStore) (username : String) {u : UserEntry}
    → get store username ≡ some u
    → In u store.users × (u.username ≡ username)
unfolding get
get_sound store username {u} h =
    let (member, ok) = find-some (λ (v : UserEntry). v.username == username) store.users h in
    (member, (eq_iff _ _).0 ok)
