-- ===== src/Text/Split.antt =====
-- `str.split`, `str.join` and `sorted` on texts.
use Prim.Native.Char.{code}
use resenhazord.Prelude.{
  String, Bool, true, false, ◌&&◌, List, [], ◌∷◌, ltb, if◌then◌else◌, ◌==◌, string_eq, nat_eq,
  pair_eq,
}
use resenhazord.Text.{is_space, concat}

-- The word in front, empty where a space stands there, and the words after it.
abbrev pub add_word : String → List String → List String
add_word word words = if word == "" then words else word ∷ words

unfoldable pub split_word : String → String × List String
split_word String.[] = ("", [])
split_word (String.◌∷◌ c s) =
    let (word, words) = split_word s in
    if is_space c then ("", add_word word words) else (String.◌∷◌ c word, words)

-- text.split()
unfoldable pub split : String → List String
unfolding split_word
split s = let (word, words) = split_word s in add_word word words

-- ', '.join(words), with the separator as an argument
unfoldable pub join : String → List String → String
join separator [] = ""
join separator (x ∷ []) = x
join separator (x ∷ y ∷ xs) = concat x (concat separator (join separator (y ∷ xs)))

-- s <= t, by code points
unfoldable pub text_leb : String → String → Bool
text_leb String.[] t = true
text_leb (String.◌∷◌ c s) String.[] = false
text_leb (String.◌∷◌ c s) (String.◌∷◌ d t) =
    let rest = text_leb s t in if ltb (code c) (code d) then true else code c == code d && rest

unfoldable pub insert_sorted : String → List String → List String
insert_sorted x [] = x ∷ []
insert_sorted x (y ∷ ys) =
    let rest = insert_sorted x ys in if text_leb x y then x ∷ y ∷ ys else y ∷ rest

-- sorted(words)
unfoldable pub sorted : List String → List String
unfolding insert_sorted text_leb
sorted [] = []
sorted (x ∷ xs) = insert_sorted x (sorted xs)
