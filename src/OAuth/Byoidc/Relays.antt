-- ===== src/OAuth/Byoidc/Relays.antt =====
-- What a response of the provider looks like once it is passed on.
use picoshift.Prelude.{
  String, ◌≡◌, refl, false, ◌||◌, Bool, Option, none, some, List, [], ◌∷◌, ◌==◌, eq_iff, arith,
  if◌then◌else◌,
}
use picoshift.Prelude.Maps.{lookup}
use picoshift.Prelude.Options.{or_else}
use picoshift.OAuth.Byoidc.Endpoints.{copied, cookies, relayed_headers}

-- The headers other than cookies that are passed on.
pub data Kept : String → Type 0 where
  location : Kept "location"
  content_type : Kept "content-type"
  www_authenticate : Kept "www-authenticate"
  cache_control : Kept "cache-control"

lookup-cookies :
    (name : String) (headers : List (String × String))
    → ("set-cookie" == name) ≡ false
    → lookup name (cookies headers) ≡ none
unfolding cookies lookup
lookup-cookies name [] h = refl
lookup-cookies name ((n, v) ∷ headers) h = ground (
  arith,
  lookup-cookies name headers h,
  eq_iff n "set-cookie",
  eq_iff n name,
  eq_iff "set-cookie" name,
)

cookies-cookies : (headers : List (String × String)) → cookies (cookies headers) ≡ cookies headers
unfolding cookies
cookies-cookies [] = refl
cookies-cookies ((n, v) ∷ headers) = ground (arith, cookies-cookies headers)

lookup-copied :
    (name other : String) (headers rest : List (String × String))
    → lookup name (copied headers other rest) ≡ (
        if other == name
        then or_else (lookup other headers) (lookup name rest)
        else lookup name rest)
unfolding lookup copied
lookup-copied name other headers rest = ground arith

cookies-copied :
    (name : String) (headers rest : List (String × String))
    → (name == "set-cookie") ≡ false
    → cookies (copied headers name rest) ≡ cookies rest
unfolding cookies copied
cookies-copied name headers rest h = ground (arith, h)

or_else-none {ℓ} : {A : Type ℓ} (o : Option A) → or_else o none ≡ o
or_else-none none = refl
or_else-none (some a) = refl

relayed-Kept :
    (headers : List (String × String)) {name : String}
    → Kept name
    → lookup name (relayed_headers headers) ≡ lookup name headers
unfolding relayed_headers
relayed-Kept headers location = simp (lookup-copied, lookup-cookies, or_else-none)
relayed-Kept headers content_type = simp (lookup-copied, lookup-cookies, or_else-none)
relayed-Kept headers www_authenticate = simp (lookup-copied, lookup-cookies, or_else-none)
relayed-Kept headers cache_control = simp (lookup-copied, lookup-cookies, or_else-none)

abbrev pub is_passed_on : String → Bool
is_passed_on name =
    "location" == name
    || "content-type" == name
    || "www-authenticate" == name
    || "cache-control" == name
    || "set-cookie" == name

relayed-others :
    (headers : List (String × String)) (name : String)
    → is_passed_on name ≡ false
    → lookup name (relayed_headers headers) ≡ none
unfolding relayed_headers
relayed-others headers name h = ground (
  arith,
  lookup-copied name "location" headers (
      copied headers "content-type"
        (copied headers "www-authenticate" (copied headers "cache-control" (cookies headers)))),
  lookup-copied name "content-type" headers
      (copied headers "www-authenticate" (copied headers "cache-control" (cookies headers))),
  lookup-copied name "www-authenticate" headers (copied headers "cache-control" (cookies headers)),
  lookup-copied name "cache-control" headers (cookies headers),
  lookup-cookies name headers,
)

-- A response that is passed on has the first value of each of the four headers that are kept, all
-- cookies in their order, and no other header.
pub relayed_headers-Kept :
    (headers : List (String × String))
    → ((name : String) → Kept name → lookup name (relayed_headers headers) ≡ lookup name headers)
      × (cookies (relayed_headers headers) ≡ cookies headers)
      × ((name : String) → is_passed_on name ≡ false → lookup name (relayed_headers headers) ≡ none)
unfolding relayed_headers
relayed_headers-Kept headers = (
  λ name kept. relayed-Kept headers kept,
  simp (cookies-copied, cookies-cookies),
  relayed-others headers,
)
