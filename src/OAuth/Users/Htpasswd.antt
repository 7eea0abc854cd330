-- ===== src/OAuth/Users/Htpasswd.antt =====
-- Reading back the lines that hold the users of a store.
use Prim.Native.String
use text.Mathlib.TextLemmas.{cons-append}
use picoshift.Prelude.{
  String, ◌≡◌, ◌≢◌, refl, ap, true, none, some, List, [], ◌∷◌, map, All, code, arith, filter,
  filter_map,
}
use picoshift.Prelude.Text.Lines.{unlines, IsOneLine, lines-unlines}
use picoshift.Prelude.Text.Trim.{IsTrimmed, trim_of_IsTrimmed, trim-ne-empty}
use picoshift.Prelude.Text.Split.{Lacks, split_once-append}
use picoshift.OAuth.Users.{UserEntry, is_entry_line, entry_of_line, from_htpasswd}

-- A line of the file.
abbrev pub line_of : UserEntry → String
line_of u = String.◌++◌ u.username (String.◌∷◌ ":" u.password)

abbrev IsName : String → Type 0
IsName String.[] = ⊥
IsName (String.◌∷◌ c s) = (code c ≢ b'#')

-- An entry that a line can carry: a name that is not empty, has no colon and does not begin with
-- `#`, no blanks at the ends of the two, no line breaks, and nothing but the two.
pub record IsPlain (u : UserEntry) : Type 0 where
  pub named : IsName u.username
  pub no_colon : Lacks b':' u.username
  pub name_trimmed : IsTrimmed u.username
  pub pass_trimmed : IsTrimmed u.password
  pub one_line : IsOneLine (line_of u)
  pub no_email : u.email ≡ none
  pub no_groups : u.groups ≡ none

entry_of_line_of : (u : UserEntry) → IsPlain u → entry_of_line (line_of u) ≡ some u
unfolding entry_of_line
entry_of_line_of u p =
    rw
      (
        split_once-append ":" u.username u.password p.no_colon,
        trim_of_IsTrimmed u.username p.name_trimmed,
        trim_of_IsTrimmed u.password p.pass_trimmed,
      )
      (ground (arith, p.no_email, p.no_groups))

is_entry_line-append :
    (name rest : String)
    → IsName name
    → IsTrimmed name
    → is_entry_line (String.◌++◌ name rest) ≡ true
unfolding is_entry_line
is_entry_line-append String.[] rest h t = absurd h
is_entry_line-append (String.◌∷◌ c s) rest h t =
    rw (cons-append, trim-ne-empty c (String.◌++◌ s rest) t.0) (ground arith)

filter_of_All :
    (us : List UserEntry) → All IsPlain us → filter is_entry_line (map line_of us) ≡ map line_of us
filter_of_All [] h = refl
filter_of_All (u ∷ us) h =
    rw (is_entry_line-append u.username _ h.0.named h.0.name_trimmed)
      (ap (λ r. line_of u ∷ r) (filter_of_All us h.1))

filter_map_of_All :
    (us : List UserEntry) → All IsPlain us → filter_map entry_of_line (map line_of us) ≡ us
filter_map_of_All [] h = refl
filter_map_of_All (u ∷ us) h =
    rw (entry_of_line_of u h.0) (ap (λ r. u ∷ r) (filter_map_of_All us h.1))

All-IsOneLine : (us : List UserEntry) → All IsPlain us → All IsOneLine (map line_of us)
All-IsOneLine [] h = tt
All-IsOneLine (u ∷ us) h = (h.0.one_line, All-IsOneLine us h.1)

-- A file with one line `name:password` for each of the entries, whose names are not empty, hold no
-- colon and do not begin with `#`, and whose names and passwords have no blanks at their ends and
-- no line breaks, is read back as those entries, in order.
pub from_htpasswd-unlines :
    (us : List UserEntry)
    → All IsPlain us
    → from_htpasswd (unlines (map line_of us)) ≡ record { users = us }
unfolding from_htpasswd
from_htpasswd-unlines us h =
    rw (lines-unlines (map line_of us) (All-IsOneLine us h), filter_of_All us h)
      (ap (λ r. record { users = r }) (filter_map_of_All us h))
