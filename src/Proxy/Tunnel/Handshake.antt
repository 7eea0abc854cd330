-- ===== src/Proxy/Tunnel/Handshake.antt =====
-- What the client gets for an upgrade, by the bytes that the upstream sends.
use picoshift.Prelude.{
  ℕ, String, ◌≡◌, refl, ap, ◌⊎◌, inl, inr, Bool, true, false, ◌&&◌, Option, some, List, [], ◌∷◌,
  first, drop, filter_map, leb, ltb, Bool-cases, Option-cases, if◌then◌else◌,
}
use picoshift.Prelude.Options.{◌>>=◌, unwrap_or}
use picoshift.Prelude.Text.{contains}
use picoshift.Prelude.Text.Lines.{lines}
use picoshift.Prelude.Text.Split.{split_once}
use picoshift.Prelude.Text.Trim.{trim, is_nil as is_empty}
use picoshift.Proxy.Tunnel.{
  Chunk, Upgrade, read_head, header_pairs, status_of, all_headers, answer_head, handshake,
}
use picoshift.Proxy.Tunnel.Head.{IsHead, is_whole, read_head-IsHead, read_head-none}

abbrev before_empty : List String → List String
before_empty [] = []
before_empty (l ∷ ls) = let rest = before_empty ls in if is_empty l then [] else l ∷ rest

abbrev pair : String → Option (String × String)
pair line = split_once b':' line >>= λ kv. some (trim kv.0, trim kv.1)

-- The headers of an answer: the lines with a colon between the first line and the empty one.
abbrev pub headers_of : String → List (String × String)
headers_of text = filter_map pair (before_empty (drop 1 (lines text)))

abbrev pub first_line : String → String
first_line text = unwrap_or (first (lines text)) ""

header_pairs_lem : (ls : List String) → header_pairs ls ≡ filter_map pair (before_empty ls)
unfolding header_pairs
header_pairs_lem [] = refl
header_pairs_lem (l ∷ ls) = elim (Bool-cases (is_empty l)) [
  | inl e ↦ rw (header_pairs, e) refl
  | inr e ↦ elim (Option-cases (split_once b':' l)) [
    | inl s ↦ rw (header_pairs, e, s) (header_pairs_lem ls)
    | inr ((k, v), s) ↦
        rw (header_pairs, e, s) (ap (λ r. (trim k, trim v) ∷ r) (header_pairs_lem ls))
  ]
]

abbrev is_status : ℕ → Bool
is_status n = leb 100 n && ltb n 1000

module _ (from_utf8_lossy : List ℕ → String) (is_header : String × String → Bool) where
  abbrev fit : List (String × String) → Bool
  fit hs = all_headers from_utf8_lossy is_header hs

  -- What is made of the text of an answer: one with 101 in its first line switches, another is passed
  -- on with its status, and one that no response can carry panics.
  abbrev pub IsAnswered : String → Upgrade → Type 0
  IsAnswered text (Upgrade.refused status message) = ⊥
  IsAnswered text (Upgrade.switched headers) =
      (contains (first_line text) "101" ≡ true) × (headers ≡ headers_of text) × (fit headers ≡ true)
  IsAnswered text (Upgrade.passed_on status headers) =
      (contains (first_line text) "101" ≡ false)
      × (status ≡ status_of (first_line text))
      × (is_status status ≡ true)
      × (headers ≡ headers_of text)
      × (fit headers ≡ true)
  IsAnswered text Upgrade.panics =
      (fit (headers_of text) ≡ false)
      ⊎ (contains (first_line text) "101" ≡ false)
        × (is_status (status_of (first_line text)) ≡ false)

  answer_head-IsAnswered :
      (text : String) → IsAnswered text (answer_head from_utf8_lossy is_header text)
  unfolding answer_head
  answer_head-IsAnswered text =
      let hs = headers_of text in
      let same = header_pairs_lem (drop 1 (lines text)) in
      elim (Bool-cases (fit hs)) [
        | inr unfit ↦ rw (answer_head, same, unfit) (inl unfit)
        | inl fits ↦ elim (Bool-cases (contains (first_line text) "101")) [
          | inl switches ↦ rw (answer_head, same, fits, switches) (switches, refl, fits)
          | inr stays ↦ elim (Bool-cases (is_status (status_of (first_line text)))) [
            | inl status ↦
                rw (answer_head, same, fits, stays, status) (stays, refl, status, refl, fits)
            | inr status ↦ rw (answer_head, same, fits, stays, status) (inr (stays, status))
          ]
        ]
      ]

  -- A refusal says which of the two failed; any other result is that of a first part of the bytes.
  abbrev pub IsShaken : Bool → List Chunk → Upgrade → Type 0
  IsShaken false chunks u = u ≡ Upgrade.refused 502 "upstream write failed\n"
  IsShaken true chunks u =
      (u ≡ Upgrade.refused 502 "upstream read failed\n") × (is_whole chunks ≡ false)
      ⊎ ((head : List ℕ) × IsHead [] chunks head × IsAnswered (from_utf8_lossy head) u)

  pub handshake-IsShaken :
      (written : Bool) (chunks : List Chunk)
      → IsShaken written chunks (handshake from_utf8_lossy is_header written chunks)
  unfolding handshake
  handshake-IsShaken false chunks = elim (Option-cases (read_head [] chunks)) [
    | inl e ↦ rw (handshake, e) refl
    | inr (head, e) ↦ rw (handshake, e) refl
  ]
  handshake-IsShaken true chunks = elim (Option-cases (read_head [] chunks)) [
    | inl e ↦ rw (handshake, e) (inl (refl, read_head-none [] chunks e))
    | inr (head, e) ↦
        rw (handshake, e)
          (inr (
            head,
            read_head-IsHead [] chunks head e,
            answer_head-IsAnswered (from_utf8_lossy head),
          ))
  ]
