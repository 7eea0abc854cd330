-- ===== src/OAuth/Server/Bounds.antt =====
-- How much the OAuth server holds.
use picoshift.Prelude.{ℕ, ◌+◌, ◌≤◌, String, ◌≡◌, Bool, some, [], ◌∷◌, ltb, arith, length}
use picoshift.Prelude.Maps.{Map, lookup, insert, remove, retain}
use picoshift.Json.Interface.{Serde}
use picoshift.OAuth.State.{Externals, OAuthState, evict, code_ttl, token_ttl, elapsed}
use picoshift.OAuth.Clients.{Api}
use picoshift.OAuth.Byoidc.Provider.{Web}
use picoshift.OAuth.Server.{Server, Reach, start, request, evicted, reloaded}
use picoshift.OAuth.Server.Effects.{Effect, same, issued, spent, granted}
use picoshift.OAuth.Server.Requests.{handle_request-Effect}

module _ {V : Type 0} where
  length-remove : (k : String) (m : Map V) → length (remove k m) ≤ length m
  unfolding remove
  length-remove k [] = omega arith
  length-remove k ((j, v) ∷ m) = ground (arith, length-remove k m)

  length-remove_found :
      (k : String) (m : Map V) (v : V) → lookup k m ≡ some v → length (remove k m) + 1 ≤ length m
  unfolding remove lookup
  length-remove_found k [] v h = cc
  length-remove_found k ((j, v) ∷ m) w h =
      ground (arith, length-remove k m, length-remove_found k m w)

  length-insert : (k : String) (v : V) (m : Map V) → length (insert k v m) ≤ length m + 1
  unfolding insert
  length-insert k v m = omega (arith, length-remove k m)

  length-retain : (p : V → Bool) (m : Map V) → length (retain p m) ≤ length m
  unfolding retain
  length-retain p [] = omega arith
  length-retain p ((j, v) ∷ m) = ground (arith, length-retain p m)

module _ {J : Serde} (X : Externals J) where
  abbrev pub held : OAuthState X → ℕ
  held s = length s.codes + length s.tokens

  Effect-held : {s s' : OAuthState X} → Effect X s s' → held s' ≤ held s + 1
  Effect-held same = omega arith
  Effect-held {s} (issued k ac e member named) = omega (arith, length-insert k ac s.codes)
  Effect-held {s} (spent k) = omega (arith, length-remove k s.codes)
  Effect-held {s} (granted k ac t created stands) = omega (
    arith,
    length-remove_found k s.codes ac stands,
    length-insert t (record { username = ac.username; created = created }) s.tokens,
  )

  evict-held : (s : OAuthState X) (now : ℕ) → held (evict X now s) ≤ held s
  unfolding evict
  evict-held s now = omega (
    arith,
    length-retain (λ v. ltb (elapsed v.created now) code_ttl) s.codes,
    length-retain (λ v. ltb (elapsed v.created now) token_ttl) s.tokens,
  )

  -- A server that has answered `n` requests holds at most `n` codes and tokens together more than
  -- at its start.
  Reach-held :
      (W : Web X) (api : Api J) {s0 : Server X W} {n : ℕ} {s : Server X W}
      → Reach X W api s0 n s
      → held s.world.state ≤ held s0.world.state + n
  Reach-held W api start = omega arith
  Reach-held W api (request {n} {s} req body d r) =
      omega (arith, Reach-held W api r, Effect-held (handle_request-Effect X W api s req body d))
  Reach-held W api (evicted {n} {s} now r) =
      omega (arith, Reach-held W api r, evict-held s.world.state now)
  Reach-held W api (reloaded {n} {s} store r) = Reach-held W api r
