-- ===== src/Proxy/Tunnel/Head.antt =====
-- What the loop over the upstream's answer reads.
use picoshift.Prelude.{
  ℕ, Bool, false, none, ◌≡◌, refl, ◌⊎◌, inl, inr, true, some, List, [], ◌∷◌, ◌++◌, append_assoc,
  Bool-cases, arith, sym, ◌∙◌,
}
use picoshift.Proxy.Tunnel.{Chunk, has_blank_line, read_head}

-- The bytes of the chunks before the first that failed or was empty.
unfoldable pub received : List Chunk → List ℕ
received [] = []
received (Chunk.failed ∷ chunks) = []
received (Chunk.bytes [] ∷ chunks) = []
received (Chunk.bytes (b ∷ bs) ∷ chunks) = b ∷ bs ++ received chunks

-- No read fails before the end of the stream.
abbrev pub is_whole : List Chunk → Bool
is_whole [] = true
is_whole (Chunk.failed ∷ chunks) = false
is_whole (Chunk.bytes [] ∷ chunks) = true
is_whole (Chunk.bytes (b ∷ bs) ∷ chunks) = is_whole chunks

-- The bytes read so far, and those that the stream still has.
pub record IsHead (buf : List ℕ) (chunks : List Chunk) (head : List ℕ) : Type 0 where
  pub rest : List ℕ
  pub split : buf ++ received chunks ≡ head ++ rest
  pub complete : (has_blank_line head ≡ true) ⊎ (rest ≡ []) × (is_whole chunks ≡ true)

-- What the proxy takes for the head of the answer is a first part of the stream that has a blank
-- line, or all of the stream.
pub read_head-IsHead :
    (buf : List ℕ) (chunks : List Chunk) (head : List ℕ)
    → read_head buf chunks ≡ some head
    → IsHead buf chunks head
unfolding read_head received
read_head-IsHead buf [] head h = record {
  rest = [];
  split = ground (arith, h);
  complete = inr (refl, refl);
}
read_head-IsHead buf (Chunk.failed ∷ chunks) head h = cc
read_head-IsHead buf (Chunk.bytes [] ∷ chunks) head h = record {
  rest = [];
  split = ground (arith, h);
  complete = inr (refl, refl);
}
read_head-IsHead buf (Chunk.bytes (b ∷ bs) ∷ chunks) head h =
    let grown = buf ++ b ∷ bs in
    elim (Bool-cases (has_blank_line grown)) [
      | inl blank ↦
          let e : grown ≡ head = ground (arith, rw (read_head, blank) at h) in
          record {
            rest = received chunks;
            split = rw (← e) (sym (append_assoc buf (b ∷ bs) (received chunks)));
            complete = inl (rw (← e) blank);
          }
      | inr open_yet ↦
          let later = read_head-IsHead grown chunks head (rw (read_head, open_yet) at h) in
          record {
            rest = later.rest;
            split = sym (append_assoc buf (b ∷ bs) (received chunks)) ∙ later.split;
            complete = later.complete;
          }
    ]

-- The proxy gives up only where a read fails.
pub read_head-none :
    (buf : List ℕ) (chunks : List Chunk) → read_head buf chunks ≡ none → is_whole chunks ≡ false
unfolding read_head
read_head-none buf [] h = cc
read_head-none buf (Chunk.failed ∷ chunks) h = refl
read_head-none buf (Chunk.bytes [] ∷ chunks) h = cc
read_head-none buf (Chunk.bytes (b ∷ bs) ∷ chunks) h =
    elim (Bool-cases (has_blank_line (buf ++ b ∷ bs))) [
      | inl blank ↦ absurd (ground (arith, rw (read_head, blank) at h))
      | inr open_yet ↦ read_head-none (buf ++ b ∷ bs) chunks (rw (read_head, open_yet) at h)
    ]
