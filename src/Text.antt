-- ===== src/Text.antt =====
-- The parts of Python's `str` that the code uses, on native texts. `str.isspace` is written out. What
-- rests on the Unicode tables of the interpreter is the record `Unicode`, a parameter.
pub mod Regex
pub mod Examples
pub mod Split
pub mod Decimal
use Prim.Native.Char.{Char, code}
use Prim.Native.String
use text.Mathlib.Text.{starts_with}
use resenhazord.Prelude.{
  ℕ, String, Bool, true, false, ◌&&◌, ◌||◌, Option, leb, if◌then◌else◌, ◌==◌, string_eq, nat_eq,
  pair_eq,
}

pub record Unicode : Type 0 where
  -- str.lower and str.upper
  pub lower : String → String
  pub upper : String → String
  -- what `\w` matches, and what `\d` matches with its value
  pub is_word : Char → Bool
  pub decimal : Char → Option ℕ
  -- what str.isdigit accepts: more than the decimal digits
  pub is_digit : Char → Bool
  -- unicodedata.normalize('NFKD', s) and unicodedata.combining
  pub nfkd : String → String
  pub is_combining : Char → Bool

abbrev pub between : ℕ → ℕ → ℕ → Bool
between lo hi n = leb lo n && leb n hi

-- The code points of `str.isspace`, which `strip`, `split` and `\s` share.
abbrev pub is_space : Char → Bool
is_space c =
    let n = code c in
    between 9 13 n
    || between 28 32 n
    || n == 0x85
    || n == 0xa0
    || n == 0x1680
    || between 0x2000 0x200a n
    || between 0x2028 0x2029 n
    || n == 0x202f
    || n == 0x205f
    || n == 0x3000

unfoldable pub lstrip : String → String
lstrip String.[] = ""
lstrip (String.◌∷◌ c s) = let rest = lstrip s in if is_space c then rest else String.◌∷◌ c s

-- Spaces at the end go with the text before them.
unfoldable pub rstrip : String → String
rstrip String.[] = ""
rstrip (String.◌∷◌ c s) =
    let rest = rstrip s in if is_space c && rest == "" then "" else String.◌∷◌ c rest

unfoldable pub strip : String → String
unfolding lstrip rstrip
strip s = rstrip (lstrip s)

-- text[len(prefix):], for a text that begins with the prefix
unfoldable pub drop_prefix : String → String → String
drop_prefix String.[] s = s
drop_prefix (String.◌∷◌ c p) String.[] = ""
drop_prefix (String.◌∷◌ c p) (String.◌∷◌ d s) = drop_prefix p s

-- s + t
abbrev pub concat : String → String → String
concat s t = String.◌++◌ s t

-- ' '.join(text.split()), for a text without spaces in front: `gap` is whether a space stands before.
unfoldable pub squeeze : Bool → String → String
squeeze gap String.[] = ""
squeeze gap (String.◌∷◌ c s) =
    let word = String.◌∷◌ c (squeeze false s) in
    let later = squeeze true s in
    if is_space c then later else if gap then concat " " word else word

-- the characters that pass a test
unfoldable pub keep : (Char → Bool) → String → String
keep test String.[] = ""
keep test (String.◌∷◌ c s) = let rest = keep test s in if test c then String.◌∷◌ c rest else rest
