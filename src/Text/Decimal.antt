-- ===== src/Text/Decimal.antt =====
-- Numbers written in decimal, as by `str` and in f-strings, and read as by `int`.
use resenhazord.Prelude.{
  ℕ, zero, suc, ◌+◌, ◌*◌, ◌/◌, ◌%◌, String, ◌≡◌, refl, Bool, true, false, ◌&&◌, Option, none, some,
  List, [], ◌∷◌, if◌then◌else◌, ◌==◌, get_or, string_eq, nat_eq, pair_eq,
}
use Prim.Native.Char.{code}
use resenhazord.Text.{Unicode, concat, strip}

abbrev pub digit_texts : List String
digit_texts = "0" ∷ "1" ∷ "2" ∷ "3" ∷ "4" ∷ "5" ∷ "6" ∷ "7" ∷ "8" ∷ "9" ∷ []

-- The digits of n before what is written already; each round takes one, so n rounds are enough.
unfoldable pub digits_before : ℕ → ℕ → String → String
digits_before zero n written = written
digits_before (suc fuel) n written =
    let rest = digits_before fuel (n / 10) (concat (get_or digit_texts (n % 10) "") written) in
    if n == 0 then written else rest

unfoldable pub decimal_text : ℕ → String
unfolding digits_before
decimal_text n = if n == 0 then "0" else digits_before n n ""

decimal_run : decimal_text 1205 ≡ "1205"
unfolding decimal_text
decimal_run = refl

pub data Sign : Type 0 where
  plus minus : Sign

-- The digits of `int`: `started` is whether the last character was a digit, after which one
-- underscore may stand.
unfoldable pub read_digits : Unicode → Bool → ℕ → String → Option ℕ
read_digits u started n String.[] = if started then some n else none
read_digits u started n (String.◌∷◌ c s) =
    let skip = read_digits u false n s in
    elim (u.decimal c) [
      | some d ↦ read_digits u true (n * 10 + d) s
      | none ↦ if started && code c == b'_' then skip else none
    ]

-- The sign in front, and the text after it.
unfoldable pub read_sign : String → Sign × String
read_sign String.[] = (plus, "")
read_sign (String.◌∷◌ c s) =
    if code c == b'-'
    then (minus, s)
    else if code c == b'+'
    then (plus, s)
    else (plus, String.◌∷◌ c s)

-- int(text): none is the ValueError
unfoldable pub read_int : Unicode → String → Option (Sign × ℕ)
unfolding read_digits read_sign strip
read_int u text =
    let (sign, digits) = read_sign (strip text) in
    elim (read_digits u false 0 digits) [ none ↦ none | some n ↦ some (sign, n) ]
