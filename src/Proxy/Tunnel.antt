-- ===== src/Proxy/Tunnel.antt =====
-- The upgrade of a connection, simulator/src/proxy.rs: what `ws_handshake_and_tunnel` makes of the
-- upstream's answer. The reading of bytes as a text, `from_utf8_lossy`, and the test whether a
-- header may stand in a response are parameters.
pub mod Head
pub mod Handshake
use picoshift.Prelude.{
  ℕ, ◌+◌, ◌-◌, ◌*◌, String, Char, Bool, true, false, not, ◌&&◌, ◌||◌, Option, none, some, List, [],
  ◌∷◌, ◌++◌, code, first, drop, map, filter_map, filter, eqb, leb, ltb, if◌then◌else◌,
}
use picoshift.Prelude.Options.{◌>>=◌, unwrap_or}
use picoshift.Prelude.Text.{contains}
use picoshift.Prelude.Text.Lines.{lines}
use picoshift.Prelude.Text.Split.{split_once}
use picoshift.Prelude.Text.Trim.{trim, is_nil as is_empty, is_whitespace}

-- What one `fill_buf` gives; an empty buffer is the end of the stream, which also ends the list.
pub data Chunk : Type 0 where
  bytes : List ℕ → Chunk
  failed : Chunk

-- `windows(4).any(|w| w == b"\r\n\r\n")`
unfoldable pub has_blank_line : List ℕ → Bool
has_blank_line (a ∷ b ∷ c ∷ d ∷ rest) =
    (eqb a 13 && eqb b 10 && eqb c 13 && eqb d 10) || has_blank_line (b ∷ c ∷ d ∷ rest)
has_blank_line (a ∷ b ∷ c ∷ []) = false
has_blank_line (a ∷ b ∷ []) = false
has_blank_line (a ∷ []) = false
has_blank_line [] = false

-- The loop that reads the head, `none` where a read fails.
unfoldable pub read_head : List ℕ → List Chunk → Option (List ℕ)
read_head resp_buf [] = some resp_buf
read_head resp_buf (Chunk.failed ∷ chunks) = none
read_head resp_buf (Chunk.bytes [] ∷ chunks) = some resp_buf
read_head resp_buf (Chunk.bytes (b ∷ bs) ∷ chunks) =
    let grown = resp_buf ++ b ∷ bs in
    let rest = read_head grown chunks in if has_blank_line grown then some grown else rest

-- `split_whitespace`, with the word that is being read.
abbrev word_then : String → List String → List String
word_then String.[] ws = ws
word_then (String.◌∷◌ c s) ws = String.◌∷◌ c s ∷ ws

-- The first word is empty where the text begins with a blank.
unfoldable pub words : String → String × List String
words String.[] = ("", [])
words (String.◌∷◌ c s) =
    let (word, ws) = words s in
    if is_whitespace (code c) then ("", word_then word ws) else (String.◌∷◌ c word, ws)

unfoldable pub split_whitespace : String → List String
split_whitespace s = let (word, ws) = words s in word_then word ws

unfoldable pub parse_digits : ℕ → String → Option ℕ
parse_digits n String.[] = some n
parse_digits n (String.◌∷◌ c s) =
    let rest = parse_digits (n * 10 + (code c - 48)) s in
    if leb 48 (code c) && leb (code c) 57 then rest else none

abbrev in_u16 : Option ℕ → Option ℕ
in_u16 none = none
in_u16 (some n) = if leb n 65535 then some n else none

-- `parse::<u16>`, which takes a plus sign before the digits.
unfoldable pub parse_u16 : String → Option ℕ
parse_u16 String.[] = none
parse_u16 (String.◌∷◌ c String.[]) = in_u16 (parse_digits 0 (String.◌∷◌ c ""))
parse_u16 (String.◌∷◌ c (String.◌∷◌ d s)) =
    in_u16
      (parse_digits 0 (if eqb (code c) 43 then String.◌∷◌ d s else String.◌∷◌ c (String.◌∷◌ d s)))

-- The lines of the headers: up to the first empty one; a line without a colon is passed over.
unfoldable pub header_pairs : List String → List (String × String)
header_pairs [] = []
header_pairs (line ∷ ls) =
    let rest = header_pairs ls in
    if is_empty line
    then []
    else elim (split_once b':' line) [ none ↦ rest | some (k, v) ↦ (trim k, trim v) ∷ rest ]

unfoldable pub status_of : String → ℕ
status_of first_line = unwrap_or (first (drop 1 (split_whitespace first_line)) >>= parse_u16) 502

-- The answer to the client, and whether the connection becomes a tunnel; `refused` is an answer of
-- the proxy itself, and `panics` the `unwrap` on a response that cannot be built.
pub data Upgrade : Type 0 where
  refused : ℕ → String → Upgrade
  passed_on : ℕ → List (String × String) → Upgrade
  switched : List (String × String) → Upgrade
  panics : Upgrade

module _ (from_utf8_lossy : List ℕ → String) (is_header : String × String → Bool) where
  abbrev pub all_headers : List (String × String) → Bool
  all_headers [] = true
  all_headers (h ∷ hs) = is_header h && all_headers hs

  unfoldable pub answer_head : String → Upgrade
  answer_head resp_str =
      let first_line = unwrap_or (first (lines resp_str)) "" in
      let headers = header_pairs (drop 1 (lines resp_str)) in
      let status_code = status_of first_line in
      if not (all_headers headers)
      then Upgrade.panics
      else if contains first_line "101"
      then Upgrade.switched headers
      else if leb 100 status_code && ltb status_code 1000
      then Upgrade.passed_on status_code headers
      else Upgrade.panics

  -- The request was written, or not; then the stream is read.
  unfoldable pub handshake : Bool → List Chunk → Upgrade
  handshake written chunks = elim (read_head [] chunks) [
    | none ↦
        if written
        then Upgrade.refused 502 "upstream read failed\n"
        else Upgrade.refused 502 "upstream write failed\n"
    | some head ↦
        if written
        then answer_head (from_utf8_lossy head)
        else Upgrade.refused 502 "upstream write failed\n"
  ]
