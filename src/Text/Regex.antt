-- ===== src/Text/Regex.antt =====
-- The patterns of Python's `re` that the code writes: a backtracking matcher with ordered choice,
-- greedy repetition, anchors, word boundaries and groups.
use Prim.Native.Char.{Char, code}
use resenhazord.Prelude.{
  ℕ, zero, suc, ◌+◌, ◌-◌, String, Bool, true, false, ◌&&◌, ◌||◌, Option, none, some, List, [], ◌∷◌,
  ltb, leb, if◌then◌else◌, ◌==◌, string_eq, nat_eq, pair_eq,
}
use resenhazord.Text.{Unicode, is_space}

pub data Regex : Type 0 where
  epsilon start_anchor end_anchor word_boundary : Regex
  one : (Char → Bool) → Regex
  -- `(?=…)` of one character
  ahead_is : (Char → Bool) → Regex
  seq alt : Regex → Regex → Regex
  star : Regex → Regex
  group : Regex → Regex

-- Where the matcher stands: the text behind it, reversed, the text ahead, and the groups so far,
-- the last first.
pub record Position : Type 0 where
  pub behind : String
  pub ahead : String
  pub groups : List String

-- What follows in the pattern; it gives the end of the match.
abbrev Continue : Type 0
Continue = Position → Option Position

abbrev or_else : Option Position → Option Position → Option Position
or_else (some p) other = some p
or_else none other = other

abbrev text_length : String → ℕ
text_length String.[] = 0
text_length (String.◌∷◌ c s) = suc (text_length s)

-- The last `n` characters behind, in reading order.
abbrev last_behind : ℕ → String → String → String
last_behind zero s out = out
last_behind (suc n) String.[] out = out
last_behind (suc n) (String.◌∷◌ c s) out = last_behind n s (String.◌∷◌ c out)

abbrev is_word_at : Unicode → String → Bool
is_word_at u String.[] = false
is_word_at u (String.◌∷◌ c s) = u.is_word c

-- Greedy repetition. A round that consumes nothing ends it, so as many rounds as characters are
-- ahead are enough.
star_loop : (Position → Continue → Option Position) → ℕ → Position → Continue → Option Position
star_loop body zero p k = k p
star_loop body (suc n) p k =
    elim (body p (λ q.
      if ltb (text_length q.ahead) (text_length p.ahead) then star_loop body n q k else none)) [
        | some q ↦ some q
        | none ↦ k p
      ]

one_at : (Char → Bool) → Position → String → Continue → Option Position
one_at test p String.[] k = none
one_at test p (String.◌∷◌ c s) k =
    if test c
    then k (record { behind = String.◌∷◌ c p.behind; ahead = s; groups = p.groups })
    else none

abbrev is_next : (Char → Bool) → String → Bool
is_next test String.[] = false
is_next test (String.◌∷◌ c s) = test c

-- Without re.MULTILINE `$` also stands before a newline that ends the text.
at_end : String → Bool
at_end String.[] = true
at_end (String.◌∷◌ c s) = code c == 10 && s == ""

unfoldable pub match : Unicode → Regex → Position → Continue → Option Position
unfolding star_loop one_at at_end
match u epsilon p k = k p
match u start_anchor p k = if p.behind == "" then k p else none
match u end_anchor p k = if at_end p.ahead then k p else none
match u word_boundary p k = elim (is_word_at u p.behind) [
  | true ↦ if is_word_at u p.ahead then none else k p
  | false ↦ if is_word_at u p.ahead then k p else none
]
match u (one test) p k = one_at test p p.ahead k
match u (ahead_is test) p k = if is_next test p.ahead then k p else none
match u (seq r s) p k = match u r p (λ q. match u s q k)
match u (alt r s) p k = elim (match u r p k) [ some q ↦ some q | none ↦ match u s p k ]
match u (star r) p k = star_loop (match u r) (text_length p.ahead) p k
match u (group r) p k = match u r p (λ q. k (record q {
  groups = last_behind (text_length q.behind - text_length p.behind) q.behind "" ∷ q.groups;
}))

-- A match: the text before it, and the position where it ends.
pub record Match : Type 0 where
  pub before : String
  pub end : Position

abbrev at_offset : String → String → Position
at_offset back text = record { behind = back; ahead = text; groups = [] }

abbrev match_here : Unicode → Regex → String → String → Option Match
match_here u r back text = elim (match u r (at_offset back text) (λ p. some p)) [
  | none ↦ none
  | some p ↦ some (record { before = last_behind (text_length back) back ""; end = p })
]

search_from : Unicode → Regex → String → String → Option Match
search_from u r back String.[] = match_here u r back ""
search_from u r back (String.◌∷◌ c s) =
    let later = search_from u r (String.◌∷◌ c back) s in
    elim (match_here u r back (String.◌∷◌ c s)) [ some m ↦ some m | none ↦ later ]

-- re.search: the first place from the left
unfoldable pub search : Unicode → Regex → String → Option Match
unfolding match search_from
search u r text = search_from u r "" text

-- re.prefixmatch and re.fullmatch
unfoldable pub prefixmatch : Unicode → Regex → String → Option Match
unfolding match
prefixmatch u r text = match_here u r "" text

unfoldable pub fullmatch : Unicode → Regex → String → Option Match
unfolding match
fullmatch u r text =
    elim (match u r (at_offset "" text) (λ p. if p.ahead == "" then some p else none)) [
      | none ↦ none
      | some p ↦ some (record { before = ""; end = p })
    ]

abbrev last_of : String → List String → String
last_of d [] = d
last_of d (x ∷ xs) = last_of x xs

-- The groups, the first one first.
in_order_from : List String → List String → List String
in_order_from done [] = done
in_order_from done (x ∷ xs) = in_order_from (x ∷ done) xs

abbrev in_order : List String → List String
in_order groups = in_order_from [] groups

-- match.group(1): the groups of these patterns close in order
abbrev pub first_group : Match → String
first_group m = last_of "" m.end.groups

-- Pieces of patterns: a literal, `r+`, `r?`, `\s`, `\d` and `\w`.
unfoldable pub literal : String → Regex
literal String.[] = epsilon
literal (String.◌∷◌ c s) = seq (one (λ d. code d == code c)) (literal s)

abbrev pub plus : Regex → Regex
plus r = seq r (star r)

abbrev pub maybe : Regex → Regex
maybe r = alt r epsilon

abbrev pub space : Regex
space = one is_space

abbrev pub digit : Unicode → Regex
digit u = one (λ c. elim (u.decimal c) [ none ↦ false | some _ ↦ true ])

abbrev pub word_char : Unicode → Regex
word_char u = one u.is_word

-- re.IGNORECASE against an ASCII character of a pattern, with the two letters beyond ASCII that fold
-- to each of `i`, `k` and `s`.
abbrev pub folded : ℕ → ℕ
folded n =
    if leb 65 n && leb n 90
    then n + 32
    else if n == 0x130 || n == 0x131
    then 105
    else if n == 0x212a
    then 107
    else if n == 0x17f
    then 115
    else n

unfoldable pub literal_ci : String → Regex
literal_ci String.[] = epsilon
literal_ci (String.◌∷◌ c s) = seq (one (λ d. folded (code d) == folded (code c))) (literal_ci s)

-- r.sub('', text): what a match covers is left out. A match of nothing leaves the text as it is.
sub_from : Unicode → Regex → ℕ → String → String → String
sub_from u r skip back String.[] = ""
sub_from u r (suc skip) back (String.◌∷◌ c s) = sub_from u r skip (String.◌∷◌ c back) s
sub_from u r zero back (String.◌∷◌ c s) = elim (match_here u r back (String.◌∷◌ c s)) [
  | none ↦ String.◌∷◌ c (sub_from u r 0 (String.◌∷◌ c back) s)
  | some m ↦
      let covered = text_length s - text_length m.end.ahead in
      if text_length m.end.ahead == suc (text_length s)
      then String.◌∷◌ c (sub_from u r 0 (String.◌∷◌ c back) s)
      else sub_from u r covered (String.◌∷◌ c back) s
]

unfoldable pub erase : Unicode → Regex → String → String
unfolding match sub_from
erase u r text = sub_from u r 0 "" text

-- r.findall(text): the groups of each match, in order, for a pattern that matches no empty text.
find_from : Unicode → Regex → ℕ → String → String → List (List String)
find_from u r skip back String.[] = []
find_from u r (suc skip) back (String.◌∷◌ c s) = find_from u r skip (String.◌∷◌ c back) s
find_from u r zero back (String.◌∷◌ c s) =
    let later = find_from u r 0 (String.◌∷◌ c back) s in
    elim (match_here u r back (String.◌∷◌ c s)) [
      | none ↦ later
      | some m ↦
          in_order m.end.groups
          ∷ find_from u r (text_length s - text_length m.end.ahead) (String.◌∷◌ c back) s
    ]

unfoldable pub findall : Unicode → Regex → String → List (List String)
unfolding match find_from in_order_from
findall u r text = find_from u r 0 "" text
