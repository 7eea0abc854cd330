-- ===== src/Kube.antt =====
-- What the controllers share of the Kubernetes client (`kube`, outside the repository): objects,
-- errors, the result of a reconcile, and actions that call the API server. The server is a
-- parameter: a call is recorded, and its answer is a function of the calls made before it.
use picoshift.Prelude.{ℕ, ◌≡◌, refl, sym, ap, ◌∙◌, String, Bool, Option, List, ◌∷◌, eqb}
use picoshift.Prelude.Maps.{Map}
use picoshift.Json.Interface.{Serde}

-- `DynamicObject` with the metadata that the program reads; `value` is its `data`.
pub record DynamicObject (J : Serde) : Type 0 where
  pub name_any : String
  pub namespace : Option String
  pub uid : Option String
  pub generation : Option ℕ
  pub labels : Option (Map String)
  pub value : J.Value

-- `kube::Error`: an answer of the server with its code, or anything else.
pub data KubeError : Type 0 where
  api : ℕ → KubeError
  other : String → KubeError

pub data Result {ℓ} (A : Type ℓ) : Type ℓ where
  ok : A → Result A
  err : KubeError → Result A

-- `kube::runtime::controller::Action`; a requeue names its delay in seconds.
pub data Action : Type 0 where
  await_change : Action
  requeue : ℕ → Action

-- An action over the calls made so far, the latest first.
abbrev pub Exec : Type 0 → Type 0 → Type 0
Exec Call A = List Call → Result A × List Call

module _ {Call : Type 0} where
  abbrev pub pure : {A : Type 0} → A → Exec Call A
  pure a log = (ok a, log)

  abbrev pub fail : {A : Type 0} → KubeError → Exec Call A
  fail e log = (err e, log)

  -- One call, with the answer that the server gives after the calls in the log.
  abbrev pub send : {A : Type 0} → Call → (List Call → Result A) → Exec Call A
  send c answer log = (answer log, c ∷ log)

module _ {Call A B : Type 0} where
  abbrev pub continue : Result A → (A → Exec Call B) → Exec Call B
  continue (ok a) f log = f a log
  continue (err e) f log = (err e, log)

  infixl 5 ◌>>=◌ ◌>>◌
  -- The `?` operator after an awaited call.
  abbrev pub ◌>>=◌ : Exec Call A → (A → Exec Call B) → Exec Call B
  ◌>>=◌ m f log = continue (m log).0 f (m log).1

  abbrev pub ◌>>◌ : Exec Call A → Exec Call B → Exec Call B
  m >> k = m >>= λ _. k

  -- A call whose answer the program matches on, errors included.
  abbrev pub attempt : Exec Call A → (Result A → Exec Call B) → Exec Call B
  attempt m f log = f (m log).0 (m log).1

-- `Err(kube::Error::Api(e)) if e.code == code`.
abbrev pub is_code : ℕ → KubeError → Bool
is_code code (api c) = eqb c code
is_code code (other _) = Bool.false

module _ {Call A B : Type 0} where
  continue-eq-ok :
      (r : Result A) (f : A → Exec Call B) (log : List Call) {b : B}
      → (continue r f log).0 ≡ ok b
      → (a : A) × (r ≡ ok a) × (continue r f log ≡ f a log)
  continue-eq-ok (ok a) f log h = (a, refl, refl)
  continue-eq-ok (err e) f log h = cc

  -- An action that succeeds has a first part that does.
  pub >>=-eq-ok :
      (m : Exec Call A) (f : A → Exec Call B) (log : List Call) {b : B}
      → ((m >>= f) log).0 ≡ ok b
      → (a : A) × ((m log).0 ≡ ok a) × ((m >>= f) log ≡ f a (m log).1)
  >>=-eq-ok m f log h = continue-eq-ok (m log).0 f (m log).1 h

  pub then-eq-ok :
      (m : Exec Call A) (k : Exec Call B) (log : List Call) {b : B}
      → ((m >> k) log).0 ≡ ok b
      → (a : A) × ((m log).0 ≡ ok a) × ((k (m log).1).0 ≡ ok b) × ((m >> k) log ≡ k (m log).1)
  then-eq-ok m k log h =
      let (a, first, e) = >>=-eq-ok m (λ _. k) log h in (a, first, sym (ap (λ r. r.0) e) ∙ h, e)
