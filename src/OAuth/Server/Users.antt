-- ===== src/OAuth/Server/Users.antt =====
-- For whom codes and tokens stand: users of a store that was in force.
use picoshift.Prelude.{
  String, ◌≡◌, refl, ◌⊎◌, inl, inr, Bool, Option, none, some, List, ◌∷◌, In, ◌==◌, ltb, arith,
  Bool-cases,
}
use picoshift.Prelude.Options.{keep_if}
use picoshift.OAuth.Users.{UserEntry, UserStore}
use picoshift.OAuth.State.{AuthCode, TokenInfo, code_ttl, token_ttl, elapsed}
use picoshift.OAuth.Server.Spec.{Grants, Event, put, without, Move, Run, start, move}

-- The store at the start, or one that an event of the run brought.
pub data IsInForce (first : UserStore) (es : List Event) (store : UserStore) : Type 0 where
  first : store ≡ first → IsInForce first es store
  brought : In (Event.reload store) es → IsInForce first es store

IsInForce-later :
    {first store : UserStore} {es : List Event} (e : Event)
    → IsInForce first es store
    → IsInForce first (e ∷ es) store
IsInForce-later e (IsInForce.first same) = IsInForce.first same
IsInForce-later e (IsInForce.brought m) = IsInForce.brought (In.there m)

pub record IsKnown (first : UserStore) (es : List Event) (username : String) : Type 0 where
  pub store : UserStore
  pub in_force : IsInForce first es store
  pub entry : UserEntry
  pub member : In entry store.users
  pub name : entry.username ≡ username

IsKnown-later :
    {first : UserStore} {es : List Event} {username : String} (e : Event)
    → IsKnown first es username
    → IsKnown first (e ∷ es) username
IsKnown-later e k = record {
  store = k.store;
  in_force = IsInForce-later e k.in_force;
  entry = k.entry;
  member = k.member;
  name = k.name;
}

record AreKnown (first : UserStore) (es : List Event) (g : Grants) : Type 0 where
  store : IsInForce first es g.store
  codes : (k : String) (ac : AuthCode) → g.codes k ≡ some ac → IsKnown first es ac.username
  tokens : (t : String) (info : TokenInfo) → g.tokens t ≡ some info → IsKnown first es info.username

put-cases {ℓ} :
    {V : Type ℓ} (k : String) (v : V) (f : String → Option V) (j : String) {w : V}
    → put k v f j ≡ some w
    → (v ≡ w) ⊎ (f j ≡ some w)
put-cases k v f j h = elim (Bool-cases (k == j)) [
  | inl e ↦ inl (ground (arith, rw e at h))
  | inr e ↦ inr (rw e at h)
]

without-some {ℓ} :
    {V : Type ℓ} (k : String) (f : String → Option V) (j : String) {w : V}
    → without k f j ≡ some w
    → f j ≡ some w
without-some k f j h = elim (Bool-cases (k == j)) [ inl e ↦ cc (rw e at h) | inr e ↦ rw e at h ]

keep_if-some {ℓ} :
    {V : Type ℓ} (p : V → Bool) (o : Option V) {w : V} → keep_if p o ≡ some w → o ≡ some w
keep_if-some p none h = h
keep_if-some p (some v) h = elim (Bool-cases (p v)) [
  | inl e ↦ rw (keep_if, e) at h
  | inr e ↦ cc (rw (keep_if, e) at h)
]

Move-AreKnown :
    {first : UserStore} {es : List Event} {g g' : Grants} {e : Event}
    → Move g e g'
    → AreKnown first es g
    → AreKnown first (e ∷ es) g'
Move-AreKnown {e} Move.quiet h = record {
  store = IsInForce-later e h.store;
  codes = λ k ac is. IsKnown-later e (h.codes k ac is);
  tokens = λ t info is. IsKnown-later e (h.tokens t info is);
}
Move-AreKnown {first} {es} {g} {e} (Move.issue k ac entry member named) h = record {
  store = IsInForce-later e h.store;
  codes = λ j bc is. elim (put-cases k ac g.codes j is) [
    | inr before ↦ IsKnown-later e (h.codes j bc before)
    | inl same ↦ record {
      store = g.store;
      in_force = IsInForce-later e h.store;
      entry = entry;
      member = member;
      name = rw (← same) named;
    }
  ];
  tokens = λ t info is. IsKnown-later e (h.tokens t info is);
}
Move-AreKnown {g} {e} (Move.take k) h = record {
  store = IsInForce-later e h.store;
  codes = λ j ac is. IsKnown-later e (h.codes j ac (without-some k g.codes j is));
  tokens = λ t info is. IsKnown-later e (h.tokens t info is);
}
Move-AreKnown {first} {es} {g} {e} (Move.grant k ac t created stands) h = record {
  store = IsInForce-later e h.store;
  codes = λ j bc is. IsKnown-later e (h.codes j bc (without-some k g.codes j is));
  tokens = λ u info is.
      elim (put-cases t (record { username = ac.username; created = created }) g.tokens u is) [
        | inr before ↦ IsKnown-later e (h.tokens u info before)
        | inl same ↦ IsKnown-later e (rw (← same) (h.codes k ac stands))
      ];
}
Move-AreKnown {g} {e} (Move.expire now) h = record {
  store = IsInForce-later e h.store;
  codes = λ j ac is.
      IsKnown-later e
        (h.codes j ac (keep_if-some (λ v. ltb (elapsed v.created now) code_ttl) (g.codes j) is));
  tokens = λ t info is.
      IsKnown-later e (
        h.tokens t info
          (keep_if-some (λ v. ltb (elapsed v.created now) token_ttl) (g.tokens t) is));
}
Move-AreKnown {e} (Move.reload store) h = record {
  store = IsInForce.brought In.here;
  codes = λ k ac is. IsKnown-later e (h.codes k ac is);
  tokens = λ t info is. IsKnown-later e (h.tokens t info is);
}

Run-AreKnown :
    {first : UserStore} {es : List Event} {g : Grants} → Run first es g → AreKnown first es g
Run-AreKnown start = record {
  store = IsInForce.first refl;
  codes = λ k ac is. cc;
  tokens = λ t info is. cc;
}
Run-AreKnown (move e r m) = Move-AreKnown m (Run-AreKnown r)

-- In every run, whoever a token stands for was a user of a store that was in force: the first one,
-- or one that a reload brought.
pub Run-IsKnown :
    {first : UserStore} {es : List Event} {g : Grants}
    → Run first es g
    → (t : String) (info : TokenInfo) → g.tokens t ≡ some info
    → IsKnown first es info.username
Run-IsKnown r t info is = (Run-AreKnown r).tokens t info is
