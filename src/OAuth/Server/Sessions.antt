-- ===== src/OAuth/Server/Sessions.antt =====
-- For whom the tokens of a server's run stand, and how often a code is exchanged for one.
use picoshift.Prelude.{ℕ, ◌+◌, ◌≤◌, String, ◌≡◌, refl, ◌⊎◌, inl, inr, some, List, [], ◌∷◌, In}
use picoshift.Prelude.Maps.{lookup}
use picoshift.Json.Interface.{Serde}
use picoshift.OAuth.Users.{UserEntry, UserStore}
use picoshift.OAuth.State.{Externals, TokenInfo}
use picoshift.OAuth.Clients.{Api}
use picoshift.OAuth.Byoidc.Provider.{Web}
use picoshift.OAuth.Server.{Server, Reach, start, request, evicted, reloaded, stores}
use picoshift.OAuth.Server.Spec.{Event, IsRequest, Run, issues, grants, outstanding, Run-single_use}
use picoshift.OAuth.Server.Users.{IsInForce, Run-IsKnown}
use picoshift.OAuth.Server.Refinement.{view, Follows, Reach-Run}

not-In-nil {ℓ} : {A : Type ℓ} {a : A} → In a [] → ⊥
not-In-nil = elim [ ]

In-uncons {ℓ} : {A : Type ℓ} {a b : A} {xs : List A} → In a (b ∷ xs) → (a ≡ b) ⊎ In a xs
In-uncons In.here = inl refl
In-uncons (In.there m) = inr m

not-IsRequest : {store : UserStore} {e : Event} → IsRequest e → Event.reload store ≡ e → ⊥
not-IsRequest IsRequest.quiet h = cc
not-IsRequest IsRequest.issue h = cc
not-IsRequest IsRequest.take h = cc
not-IsRequest IsRequest.grant h = cc

-- The name is that of an entry of a store that was in force during the run.
pub record IsUser (in_force : List UserStore) (username : String) : Type 0 where
  pub store : UserStore
  pub listed : In store in_force
  pub entry : UserEntry
  pub member : In entry store.users
  pub name : entry.username ≡ username

module _ {J : Serde} (X : Externals J) (W : Web X) (api : Api J) where
  first-In :
      {s0 : Server X W} {n : ℕ} {s : Server X W} (r : Reach X W api s0 n s)
      → In s0.world.state.user_store (stores X W r)
  unfolding stores
  first-In start = In.here
  first-In (request req body d r) = first-In r
  first-In (evicted now r) = first-In r
  first-In (reloaded store r) = In.there (first-In r)

  reload-In :
      {s0 : Server X W} {n : ℕ} {s : Server X W} (r : Reach X W api s0 n s) (es : List Event)
      (store : UserStore)
      → Follows X W api r es
      → In (Event.reload store) es
      → In store (stores X W r)
  unfolding stores
  reload-In start es store follows m = absurd (not-In-nil (rw follows at m))
  reload-In (request req body d r) es store (e, es', same, asked, follows) m =
      elim (In-uncons (rw same at m)) [
        | inl reload ↦ absurd (not-IsRequest asked reload)
        | inr later ↦ reload-In r es' store follows later
      ]
  reload-In (evicted now r) es store (es', same, follows) m = elim (In-uncons (rw same at m)) [
    | inl reload ↦ cc
    | inr later ↦ reload-In r es' store follows later
  ]
  reload-In (reloaded st r) es store (es', same, follows) m = elim (In-uncons (rw same at m)) [
    | inl reload ↦ let e : store ≡ st = cc in rw (← e) In.here
    | inr later ↦ In.there (reload-In r es' store follows later)
  ]

  in_force-In :
      {s0 : Server X W} {n : ℕ} {s : Server X W} (r : Reach X W api s0 n s) (es : List Event)
      (store : UserStore)
      → Follows X W api r es
      → IsInForce s0.world.state.user_store es store
      → In store (stores X W r)
  in_force-In r es store follows (IsInForce.first same) = rw same (first-In r)
  in_force-In r es store follows (IsInForce.brought m) = reload-In r es store follows m

  -- Whoever a token of the server stands for was, at the start or since, a user of its store.
  pub Reach-IsUser :
      {s0 : Server X W} {n : ℕ} {s : Server X W} (r : Reach X W api s0 n s) (t : String)
      (info : TokenInfo)
      → s0.world.state.codes ≡ []
      → s0.world.state.tokens ≡ []
      → lookup t s.world.state.tokens ≡ some info
      → IsUser (stores X W r) info.username
  Reach-IsUser r t info no_codes no_tokens stored =
      let (es, follows, run) = Reach-Run X W api no_codes no_tokens r in
      let known = Run-IsKnown run t info stored in
      record {
        store = known.store;
        listed = in_force-In r es known.store follows known.in_force;
        entry = known.entry;
        member = known.member;
        name = known.name;
      }

  -- The steps of the server's run have events, one each, by which no code was exchanged for more
  -- tokens than it was issued, nor as many while it stands.
  pub Reach-single_use :
      {s0 : Server X W} {n : ℕ} {s : Server X W} (r : Reach X W api s0 n s)
      → s0.world.state.codes ≡ []
      → s0.world.state.tokens ≡ []
      → (es : List Event) × Follows X W api r es
        × Run s0.world.state.user_store es (view X s.world.state)
        × ((k : String) → grants k es + outstanding (lookup k s.world.state.codes) ≤ issues k es)
  Reach-single_use r no_codes no_tokens =
      let (es, follows, run) = Reach-Run X W api no_codes no_tokens r in
      (es, follows, run, λ k. Run-single_use run k)
