-- ===== src/OAuth/Byoidc/Provider/Attempts.antt =====
-- The loop that loads the keys at the start ends, with keys or after its last round.
use picoshift.Prelude.{
  ℕ, zero, suc, ◌+◌, ◌*◌, ◌≤◌, ◌<◌, String, ◌≡◌, refl, ◌⊎◌, inl, inr, true, false, List, length,
  is_nil, Bool-cases, arith,
}
use picoshift.Json.Interface.{Serde}
use picoshift.OAuth.State.{Externals, ExternalJwksCache}
use picoshift.OAuth.Byoidc.Provider.{
  Sent, Web, refresh_keys, refresh, attempts, max_attempts, empty_cache, new_cache,
}

module _ {J : Serde} (X : Externals J) (W : Web X) where
  -- The cache and the requests after so many refreshes.
  abbrev pub rounds : ℕ → ExternalJwksCache X × List Sent → String → ExternalJwksCache X × List Sent
  rounds zero s issuer_url = s
  rounds (suc k) s issuer_url = rounds k (refresh X W s.0 s.1 issuer_url) issuer_url

  -- The loop has stopped after so many refreshes: none but the last has brought keys, and the last
  -- has, unless it is the round numbered `n`.
  pub record IsStopped (n : ℕ) (s after : ExternalJwksCache X × List Sent) (issuer_url : String)
      : Type 0 where
    pub count : ℕ
    pub bounded : count ≤ n
    pub reached : after ≡ rounds count s issuer_url
    pub ended : (count ≡ n) ⊎ (is_nil after.0.keys ≡ false)
    pub before : (j : ℕ) → j < count → 0 < j → is_nil (rounds j s issuer_url).0.keys ≡ true

  before-suc :
      (s : ExternalJwksCache X × List Sent) (issuer_url : String) (k : ℕ)
      → is_nil (refresh X W s.0 s.1 issuer_url).0.keys ≡ true
      → ((j : ℕ)
          → j < k
          → 0 < j
          → is_nil (rounds j (refresh X W s.0 s.1 issuer_url) issuer_url).0.keys ≡ true)
      → (j : ℕ) → j < suc k
      → 0 < j
      → is_nil (rounds j s issuer_url).0.keys ≡ true
  before-suc s issuer_url k first h zero lt pos = absurd (omega (arith, pos))
  before-suc s issuer_url k first h (suc zero) lt pos = first
  before-suc s issuer_url k first h (suc (suc j)) lt pos = h (suc j) (omega arith) (omega arith)

  attempts-IsStopped :
      (n : ℕ) (s : ExternalJwksCache X × List Sent) (issuer_url : String)
      → IsStopped n s (attempts X W n s issuer_url) issuer_url
  unfolding attempts
  attempts-IsStopped zero (cache, log) issuer_url = record {
    count = 0;
    bounded = omega arith;
    reached = refl;
    ended = inl refl;
    before = λ j lt. absurd (omega (arith, lt));
  }
  attempts-IsStopped (suc n) (cache, log) issuer_url =
      let next = refresh X W cache log issuer_url in
      elim (Bool-cases (is_nil next.0.keys)) [
        | inl none_yet ↦
            let rest = attempts-IsStopped n next issuer_url in
            rw (attempts, none_yet)
              (record {
                count = suc rest.count;
                bounded = omega (arith, rest.bounded);
                reached = rest.reached;
                ended = elim rest.ended [ inl e ↦ inl (omega (arith, e)) | inr e ↦ inr e ];
                before = before-suc (cache, log) issuer_url rest.count none_yet rest.before;
              })
        | inr some_keys ↦
            rw (attempts, some_keys)
              (record {
                count = 1;
                bounded = omega arith;
                reached = refl;
                ended = inr some_keys;
                before = λ j lt pos. absurd (omega (arith, lt, pos));
              })
      ]

  -- The loading of the keys ends after at most five refreshes, before the fifth only with keys: it
  -- stops at the first refresh after which the cache has any.
  pub new_cache-IsStopped :
      (issuer_url : String) (log : List Sent)
      → IsStopped max_attempts (empty_cache X W, log) (new_cache X W issuer_url log) issuer_url
  unfolding new_cache
  new_cache-IsStopped issuer_url log =
      attempts-IsStopped max_attempts (empty_cache X W, log) issuer_url

  refresh_keys-length :
      (cache : ExternalJwksCache X) (log : List Sent) (issuer : String)
      → length (refresh_keys X W cache log issuer).1 ≤ length log + 1
  unfolding refresh_keys
  refresh_keys-length cache log issuer = ground arith

  refresh-length :
      (cache : ExternalJwksCache X) (log : List Sent) (issuer_url : String)
      → length (refresh X W cache log issuer_url).1 ≤ length log + 2
  unfolding refresh
  refresh-length cache log issuer_url = grind (arith, refresh_keys-length)

  attempts-length :
      (n : ℕ) (s : ExternalJwksCache X × List Sent) (issuer_url : String)
      → length (attempts X W n s issuer_url).1 ≤ length s.1 + 2 * n
  unfolding attempts
  attempts-length zero (cache, log) issuer_url = omega arith
  attempts-length (suc n) (cache, log) issuer_url =
      let next = refresh X W cache log issuer_url in
      ground (arith, refresh-length cache log issuer_url, attempts-length n next issuer_url)

  -- Loading the keys at the start sends at most ten requests.
  new_cache-length :
      (issuer_url : String) (log : List Sent)
      → length (new_cache X W issuer_url log).1 ≤ length log + 10
  unfolding new_cache
  new_cache-length issuer_url log =
      omega (arith, attempts-length max_attempts (empty_cache X W, log) issuer_url)
