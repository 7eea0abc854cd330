-- ===== src/OAuth/Http.antt =====
-- Requests and responses of the OAuth server, with the builders of simulator/src/oauth/helpers.rs.
use picoshift.Prelude.{ℕ, ◌≡◌, refl, ◌⊎◌, inl, inr, String, Bool, Option, none, some, List, [], ◌∷◌}
use picoshift.Prelude.Maps.{Map, lookup, insert}
use picoshift.Prelude.Options.{◌>>=◌, is_some}

-- A header's value is `none` where `to_str` fails on it. A body is bytes.
pub record Request : Type 0 where
  pub method : String
  pub path : String
  pub query : Option String
  pub headers : Map (Option String)

-- `headers().get(name).and_then(|h| h.to_str().ok())`
unfoldable pub header_text : Request → String → Option String
header_text req name = do h ← lookup name req.headers; h

-- `headers().contains_key(name)`
unfoldable pub has_header : Request → String → Bool
has_header req name = is_some (lookup name req.headers)

pub record Response : Type 0 where
  pub status : ℕ
  pub headers : Map String
  pub body : String

abbrev pub json_response : ℕ → String → Response
json_response status body = record {
  status = status;
  headers = ("content-type", "application/json") ∷ [];
  body = body;
}

abbrev pub text_response : ℕ → String → Response
text_response status body = record { status = status; headers = []; body = body }

abbrev pub html_response : ℕ → String → Response
html_response status body = record {
  status = status;
  headers = ("content-type", "text/html; charset=utf-8") ∷ [];
  body = body;
}

-- Collecting pairs into a `HashMap`: a later pair replaces an earlier one with its key.
unfoldable pub collect : Map String → List (String × String) → Map String
collect m [] = m
collect m ((k, v) ∷ pairs) = collect (insert k v m) pairs

-- A handler's early return, or the value to go on with.
pub data Reply {ℓ} (A : Type ℓ) : Type ℓ where
  reply : Response → Reply A
  go : A → Reply A

-- `match o { Some(a) => a, None => return r }`
abbrev pub or_reply {ℓ} : {A : Type ℓ} → Option A → Response → Reply A
or_reply none r = reply r
or_reply (some a) r = go a

abbrev pub and_go {ℓ κ} : {A : Type ℓ} {B : Type κ} → Reply A → (A → Reply B) → Reply B
and_go (reply r) f = reply r
and_go (go a) f = f a

pub Reply-cases {ℓ} :
    {A : Type ℓ} (m : Reply A) → ((r : Response) × (m ≡ reply r)) ⊎ ((a : A) × (m ≡ go a))
Reply-cases (reply r) = inl (r, refl)
Reply-cases (go a) = inr (a, refl)
