-- ===== src/OAuth/Server/Spec.antt =====
-- What the OAuth server promises, without its requests: which codes and tokens stand for whom, as
-- functions, and the moves between such views. A token comes only for a code that stands.
use picoshift.Prelude.{
  ℕ, ◌+◌, ◌≤◌, String, ◌≡◌, Bool, Option, none, some, List, [], ◌∷◌, In, ◌==◌, eq_iff, ltb, arith,
  if◌then◌else◌,
}
use picoshift.Prelude.Options.{keep_if}
use picoshift.OAuth.Users.{UserEntry, UserStore}
use picoshift.OAuth.State.{AuthCode, TokenInfo, code_ttl, token_ttl, elapsed}

pub record Grants : Type 0 where
  pub codes : String → Option AuthCode
  pub tokens : String → Option TokenInfo
  pub store : UserStore

-- What one move does; a code is taken alone, or for a token.
pub data Event : Type 0 where
  quiet : Event
  issue : String → Event
  take : String → Event
  grant : String → String → Event
  expire : ℕ → Event
  reload : UserStore → Event

-- The events that a request has.
pub data IsRequest : Event → Type 0 where
  quiet : IsRequest Event.quiet
  issue : {k : String} → IsRequest (Event.issue k)
  take : {k : String} → IsRequest (Event.take k)
  grant : {k t : String} → IsRequest (Event.grant k t)

abbrev pub put {ℓ} : {V : Type ℓ} → String → V → (String → Option V) → String → Option V
put k v f j = if k == j then some v else f j

abbrev pub without {ℓ} : {V : Type ℓ} → String → (String → Option V) → String → Option V
without k f j = if k == j then none else f j

abbrev pub expired : ℕ → Grants → Grants
expired now g = record g {
  codes = λ j. keep_if (λ v. ltb (elapsed v.created now) code_ttl) (g.codes j);
  tokens = λ j. keep_if (λ v. ltb (elapsed v.created now) token_ttl) (g.tokens j);
}

pub data Move (g : Grants) : Event → Grants → Type 0 where
  quiet : Move g Event.quiet g
  issue :
      (k : String) (ac : AuthCode) (e : UserEntry)
      → In e g.store.users
      → e.username ≡ ac.username
      → Move g (Event.issue k) (record g { codes = put k ac g.codes })
  take : (k : String) → Move g (Event.take k) (record g { codes = without k g.codes })
  grant :
      (k : String) (ac : AuthCode) (t : String) (created : ℕ)
      → g.codes k ≡ some ac
      → Move g (Event.grant k t) (record g {
        codes = without k g.codes;
        tokens = put t (record { username = ac.username; created = created }) g.tokens;
      })
  expire : (now : ℕ) → Move g (Event.expire now) (expired now g)
  reload : (store : UserStore) → Move g (Event.reload store) (record g { store = store })

abbrev pub initial : UserStore → Grants
initial store = record { codes = λ k. none; tokens = λ k. none; store = store }

-- The views that moves reach, with the events, the latest first.
pub data Run (store : UserStore) : List Event → Grants → Type 0 where
  start : Run store [] (initial store)
  move :
      {es : List Event} {g g' : Grants} (e : Event)
      → Run store es g
      → Move g e g'
      → Run store (e ∷ es) g'

abbrev one_if : Bool → ℕ
one_if b = if b then 1 else 0

-- How often a code was issued, and for how many tokens it was taken.
unfoldable pub issues : String → List Event → ℕ
issues k [] = 0
issues k (Event.issue j ∷ es) = one_if (j == k) + issues k es
issues k (Event.quiet ∷ es) = issues k es
issues k (Event.take j ∷ es) = issues k es
issues k (Event.grant j t ∷ es) = issues k es
issues k (Event.expire now ∷ es) = issues k es
issues k (Event.reload store ∷ es) = issues k es

unfoldable pub grants : String → List Event → ℕ
grants k [] = 0
grants k (Event.grant j t ∷ es) = one_if (j == k) + grants k es
grants k (Event.quiet ∷ es) = grants k es
grants k (Event.take j ∷ es) = grants k es
grants k (Event.issue j ∷ es) = grants k es
grants k (Event.expire now ∷ es) = grants k es
grants k (Event.reload store ∷ es) = grants k es

abbrev pub outstanding : Option AuthCode → ℕ
outstanding none = 0
outstanding (some ac) = 1

outstanding-le_one : (o : Option AuthCode) → outstanding o ≤ 1
outstanding-le_one none = omega arith
outstanding-le_one (some ac) = omega arith

outstanding-keep_if :
    (p : AuthCode → Bool) (o : Option AuthCode) → outstanding (keep_if p o) ≤ outstanding o
outstanding-keep_if p none = omega arith
outstanding-keep_if p (some ac) = ground arith

-- A move keeps the account of a code: what was granted and what still stands was issued.
Move-account :
    {g g' : Grants} {e : Event} (es : List Event) (k : String)
    → Move g e g'
    → grants k es + outstanding (g.codes k) ≤ issues k es
    → grants k (e ∷ es) + outstanding (g'.codes k) ≤ issues k (e ∷ es)
unfolding issues grants
Move-account es k Move.quiet h = h
Move-account es k (Move.issue j ac e member named) h = ground (arith, h)
Move-account {g} es k (Move.take j) h = ground (arith, h)
Move-account {g} es k (Move.grant j ac t created stands) h = ground (arith, h, stands, eq_iff j k)
Move-account {g} es k (Move.expire now) h =
    omega (arith, h, outstanding-keep_if (λ v. ltb (elapsed v.created now) code_ttl) (g.codes k))
Move-account es k (Move.reload store) h = h

-- In every run, the tokens that were granted for a code, and the code itself while it stands, are
-- at most as many as the times that the code was issued.
pub Run-single_use :
    {store : UserStore} {es : List Event} {g : Grants}
    → Run store es g
    → (k : String) → grants k es + outstanding (g.codes k) ≤ issues k es
unfolding issues grants
Run-single_use start k = omega arith
Run-single_use (move {es} e r m) k = Move-account es k m (Run-single_use r k)
