-- ===== src/OAuth/Server/Refinement.antt =====
-- The OAuth server does what its specification says: each of its steps is a move between the views
-- of its maps.
use picoshift.Prelude.{ℕ, String, ◌≡◌, refl, sym, Option, List, [], ◌∷◌, ltb, fun_ext}
use picoshift.Prelude.Maps.{
  Map, IsMap, lookup, insert, remove, lookup-insert, lookup-remove, lookup-retain, insert-IsMap,
  remove-IsMap, retain-IsMap,
}
use picoshift.Json.Interface.{Serde}
use picoshift.OAuth.Http.{Request}
use picoshift.OAuth.State.{Externals, OAuthState, evict, code_ttl, token_ttl, elapsed}
use picoshift.OAuth.Clients.{Api}
use picoshift.OAuth.Byoidc.Provider.{Web}
use picoshift.OAuth.Server.{Draws, Server, handle_request, Reach, start, request, evicted, reloaded}
use picoshift.OAuth.Server.Effects.{Effect, same, issued, spent, granted}
use picoshift.OAuth.Server.Requests.{handle_request-Effect}
use picoshift.OAuth.Server.Spec.{Grants, Event, put, without, expired, IsRequest, Move, Run, move}

module _ {J : Serde} (X : Externals J) where
  abbrev pub view : OAuthState X → Grants
  view s = record {
    codes = λ k. lookup k s.codes;
    tokens = λ t. lookup t s.tokens;
    store = s.user_store;
  }

  -- Each code and each token once, as in the hash maps.
  pub record AreMaps (s : OAuthState X) : Type 0 where
    pub codes : IsMap s.codes
    pub tokens : IsMap s.tokens

  insert-put :
      {V : Type 0} (k : String) (v : V) (m : Map V)
      → put k v (λ j. lookup j m) ≡ (λ j. lookup j (insert k v m))
  insert-put k v m = fun_ext λ j. sym (lookup-insert k j v m)

  remove-without :
      {V : Type 0} (k : String) (m : Map V)
      → without k (λ j. lookup j m) ≡ (λ j. lookup j (remove k m))
  remove-without k m = fun_ext λ j. sym (lookup-remove k j m)

  Effect-Move :
      {s s' : OAuthState X} → Effect X s s' → (e : Event) × IsRequest e × Move (view s) e (view s')
  Effect-Move same = (Event.quiet, IsRequest.quiet, Move.quiet)
  Effect-Move {s} (issued k ac entry member named) = (
    Event.issue k,
    IsRequest.issue,
    rw (← insert-put k ac s.codes) (Move.issue k ac entry member named),
  )
  Effect-Move {s} (spent k) =
      (Event.take k, IsRequest.take, rw (← remove-without k s.codes) (Move.take k))
  Effect-Move {s} (granted k ac t created stands) = (
    Event.grant k t,
    IsRequest.grant,
    rw
        (
          ← remove-without k s.codes,
          ← insert-put t (record { username = ac.username; created = created }) s.tokens,
        )
        (Move.grant k ac t created stands),
  )

  Effect-AreMaps : {s s' : OAuthState X} → Effect X s s' → AreMaps s → AreMaps s'
  Effect-AreMaps same h = h
  Effect-AreMaps {s} (issued k ac entry member named) h = record {
    codes = insert-IsMap k ac s.codes h.codes;
    tokens = h.tokens;
  }
  Effect-AreMaps {s} (spent k) h = record {
    codes = remove-IsMap k s.codes h.codes;
    tokens = h.tokens;
  }
  Effect-AreMaps {s} (granted k ac t created stands) h = record {
    codes = remove-IsMap k s.codes h.codes;
    tokens =
        insert-IsMap t (record { username = ac.username; created = created }) s.tokens h.tokens;
  }

  evict-view :
      (s : OAuthState X) (now : ℕ) → AreMaps s → expired now (view s) ≡ view (evict X now s)
  unfolding evict
  evict-view s now h =
      rw
        (
          fun_ext (λ j.
              sym (lookup-retain (λ v. ltb (elapsed v.created now) code_ttl) j s.codes h.codes)),
          fun_ext (λ j.
              sym (lookup-retain (λ v. ltb (elapsed v.created now) token_ttl) j s.tokens h.tokens)),
        )
        refl

  evict-AreMaps : (s : OAuthState X) (now : ℕ) → AreMaps s → AreMaps (evict X now s)
  unfolding evict
  evict-AreMaps s now h = record {
    codes = retain-IsMap (λ v. ltb (elapsed v.created now) code_ttl) s.codes h.codes;
    tokens = retain-IsMap (λ v. ltb (elapsed v.created now) token_ttl) s.tokens h.tokens;
  }

module _ {J : Serde} (X : Externals J) (W : Web X) (api : Api J) where
  -- A request is one move of the specification.
  pub handle_request-Move :
      (s : Server X W) (req : Request) (body : Option (List ℕ)) (d : Draws)
      → (e : Event) × IsRequest e
        × Move (view X s.world.state) e (view X (handle_request X W api s req body d).1.world.state)
  handle_request-Move s req body d = Effect-Move X (handle_request-Effect X W api s req body d)

  Reach-AreMaps :
      {s0 : Server X W} {n : ℕ} {s : Server X W}
      → AreMaps X s0.world.state
      → Reach X W api s0 n s
      → AreMaps X s.world.state
  Reach-AreMaps h start = h
  Reach-AreMaps h (request {n} {s} req body d r) =
      Effect-AreMaps X (handle_request-Effect X W api s req body d) (Reach-AreMaps h r)
  Reach-AreMaps h (evicted {n} {s} now r) = evict-AreMaps X s.world.state now (Reach-AreMaps h r)
  Reach-AreMaps h (reloaded {n} {s} store r) =
      let before = Reach-AreMaps h r in record { codes = before.codes; tokens = before.tokens }

  -- The events are those of the run, one for each of its steps: an eviction is at its instant, a
  -- reload brings its store, and a request does neither.
  abbrev pub Follows :
      {s0 : Server X W} {n : ℕ} {s : Server X W} → Reach X W api s0 n s → List Event → Type 0
  Follows start es = es ≡ []
  Follows (request req body d r) es =
      (e : Event) × (es' : List Event) × (es ≡ e ∷ es') × IsRequest e × Follows r es'
  Follows (evicted now r) es = (es' : List Event) × (es ≡ Event.expire now ∷ es') × Follows r es'
  Follows (reloaded store r) es =
      (es' : List Event) × (es ≡ Event.reload store ∷ es') × Follows r es'

  -- Whatever requests, evictions and reloads a server that starts without codes and tokens goes
  -- through, its maps are those of a run of the specification from the store at the start, with one
  -- event for each of its steps.
  pub Reach-Run :
      {s0 : Server X W} {n : ℕ} {s : Server X W}
      → s0.world.state.codes ≡ []
      → s0.world.state.tokens ≡ []
      → (r : Reach X W api s0 n s)
      → (es : List Event) × Follows r es × Run s0.world.state.user_store es (view X s.world.state)
  unfolding lookup
  Reach-Run {s0} no_codes no_tokens start = ([], refl, rw (no_codes, no_tokens) Run.start)
  Reach-Run no_codes no_tokens (request {n} {s} req body d r) =
      let (es, follows, run) = Reach-Run no_codes no_tokens r in
      let (e, asked, step) = handle_request-Move s req body d in
      (e ∷ es, (e, es, refl, asked, follows), move e run step)
  Reach-Run {s0} no_codes no_tokens (evicted {n} {s} now r) =
      let (es, follows, run) = Reach-Run no_codes no_tokens r in
      let maps = Reach-AreMaps (rw (no_codes, no_tokens) (record { codes = tt; tokens = tt })) r in
      (
        Event.expire now ∷ es,
        (es, refl, follows),
        rw (← evict-view X s.world.state now maps) (move (Event.expire now) run (Move.expire now)),
      )
  Reach-Run no_codes no_tokens (reloaded {n} {s} store r) =
      let (es, follows, run) = Reach-Run no_codes no_tokens r in
      (
        Event.reload store ∷ es,
        (es, refl, follows),
        move (Event.reload store) run (Move.reload store),
      )
