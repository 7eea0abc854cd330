-- ===== src/OAuth/Byoidc/Provider/Keys.antt =====
-- Where the keys of the cache come from.
use picoshift.Prelude.{
  String, ◌≡◌, refl, ◌⊎◌, inl, inr, Option, none, some, List, [], ◌∷◌, In, ◌==◌, eq_iff, Bool-cases,
  Option-cases, arith,
}
use picoshift.Prelude.Maps.{Map, lookup, lookup-insert}
use picoshift.Prelude.Text.{is_empty}
use picoshift.Json.Interface.{Serde}
use picoshift.OAuth.State.{Externals, ExternalJwksCache}
use picoshift.OAuth.Byoidc.Provider.{
  Sent, Web, get_request, trim_end_matches, rewrite_to_internal, text_at, fetch_json,
  read_discovery, read_key, insert_read, add_keys, entries, read_keys, discovery_url, refresh_keys,
  refresh,
}

module _ {J : Serde} (X : Externals J) (W : Web X) where
  -- An entry of type `RSA` among the keys that a document lists has this `kid`, and its numbers
  -- make this key.
  pub record IsListed (keys : List J.Value) (kid : String) (dk : X.DecodingKey) : Type 0 where
    pub key : J.Value
    pub listed : In key keys
    pub named : text_at X W key "kid" ≡ kid
    pub rsa : text_at X W key "kty" ≡ "RSA"
    pub made : W.from_rsa_components (text_at X W key "n") (text_at X W key "e") ≡ some dk

  read_key-some :
      (key : J.Value) {dk : X.DecodingKey}
      → read_key X W key ≡ some dk
      → (text_at X W key "kty" ≡ "RSA")
        × (W.from_rsa_components (text_at X W key "n") (text_at X W key "e") ≡ some dk)
  unfolding read_key
  read_key-some key h = ground (arith, eq_iff (text_at X W key "kty") "RSA")

  IsListed-there :
      (k : J.Value) {keys : List J.Value} {kid : String} {dk : X.DecodingKey}
      → IsListed keys kid dk
      → IsListed (k ∷ keys) kid dk
  IsListed-there k l = record {
    key = l.key;
    listed = In.there l.listed;
    named = l.named;
    rsa = l.rsa;
    made = l.made;
  }

  insert_read-lookup :
      (k : J.Value) (keys : List J.Value) (m : Map X.DecodingKey) (kid : String)
      (dk : X.DecodingKey) (o : Option X.DecodingKey)
      → read_key X W k ≡ o
      → lookup kid (insert_read X W (text_at X W k "kid") o m) ≡ some dk
      → (lookup kid m ≡ some dk) ⊎ IsListed (k ∷ keys) kid dk
  insert_read-lookup k keys m kid dk none read h = inl h
  insert_read-lookup k keys m kid dk (some d) read h =
      elim (Bool-cases (text_at X W k "kid" == kid)) [
        | inr other ↦ inl (ground (arith, other, lookup-insert (text_at X W k "kid") kid d m))
        | inl same ↦
            let e : d ≡ dk = ground (arith, same, lookup-insert (text_at X W k "kid") kid d m) in
            let (rsa, made) = read_key-some k (rw (← e) read) in
            inr (record {
              key = k;
              listed = In.here;
              named = (eq_iff (text_at X W k "kid") kid).0 same;
              rsa = rsa;
              made = made;
            })
      ]

  add_keys-lookup :
      (m : Map X.DecodingKey) (keys : List J.Value) (kid : String) (dk : X.DecodingKey)
      → lookup kid (add_keys X W m keys) ≡ some dk
      → (lookup kid m ≡ some dk) ⊎ IsListed keys kid dk
  unfolding add_keys
  add_keys-lookup m [] kid dk h = inl h
  add_keys-lookup m (k ∷ keys) kid dk h =
      elim (add_keys-lookup (insert_read X W (text_at X W k "kid") (read_key X W k) m) keys kid dk
        h) [
          | inr later ↦ inr (IsListed-there k later)
          | inl before ↦ insert_read-lookup k keys m kid dk (read_key X W k) refl before
        ]

  -- The two documents of a refresh that replaces the keys, and the entry that a key comes from.
  pub record IsProvided (log : List Sent) (issuer_url kid : String) (dk : X.DecodingKey)
      : Type 0 where
    pub doc : J.Value
    pub jwks : J.Value
    pub discovered :
        fetch_json X W log (discovery_url (trim_end_matches b'/' issuer_url)) ≡ some doc
    pub fetched :
        fetch_json X W
          (get_request (discovery_url (trim_end_matches b'/' issuer_url)) ∷ log)
          (rewrite_to_internal X W (text_at X W doc "jwks_uri") (trim_end_matches b'/' issuer_url))
        ≡ some jwks
    pub entry : IsListed (entries X W jwks) kid dk

  -- A key that the cache has after a refresh it had before under the same `kid`, or the refresh has
  -- read both documents, and the key is made from an entry of type `RSA` with that `kid`.
  pub refresh-IsProvided :
      (cache : ExternalJwksCache X) (log : List Sent) (issuer_url kid : String) (dk : X.DecodingKey)
      → lookup kid (refresh X W cache log issuer_url).0.keys ≡ some dk
      → (lookup kid cache.keys ≡ some dk) ⊎ IsProvided log issuer_url kid dk
  unfolding refresh refresh_keys read_keys read_discovery lookup
  refresh-IsProvided cache log issuer_url kid dk h =
      let issuer = trim_end_matches b'/' issuer_url in
      let url = discovery_url issuer in
      elim (Option-cases (fetch_json X W log url)) [
        | inl failed ↦ inl (rw (failed, refresh) at h)
        | inr (doc, discovered) ↦ elim (Bool-cases (is_empty (text_at X W doc "jwks_uri"))) [
          | inl unnamed ↦ inl (rw (discovered, refresh, refresh_keys, read_discovery, unnamed) at h)
          | inr named ↦
              elim (Option-cases (
                fetch_json X W (get_request url ∷ log)
                  (rewrite_to_internal X W (text_at X W doc "jwks_uri") issuer))) [
                    | inl failed ↦
                        inl (
                          rw (discovered, refresh, refresh_keys, read_discovery, named, failed) at
                            h)
                    | inr (jwks, fetched) ↦
                        let found : lookup kid (add_keys X W [] (entries X W jwks)) ≡ some dk =
                          rw
                            (
                              discovered, refresh, refresh_keys, read_discovery, named, fetched,
                              read_keys,
                            )
                            at h in
                        elim (add_keys-lookup [] (entries X W jwks) kid dk found) [
                          | inl absent ↦ absurd (ground (arith, absent))
                          | inr listed ↦ inr (record {
                            doc = doc;
                            jwks = jwks;
                            discovered = discovered;
                            fetched = fetched;
                            entry = listed;
                          })
                        ]
                  ]
        ]
      ]
