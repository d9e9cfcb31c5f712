-- ===== src/Parser/Words.antt =====
-- What becomes of the words after the name of a command without options.
use resenhazord.Prelude.{
  ℕ, suc, ◌+◌, String, ◌≡◌, refl, sym, ap, subst, inl, inr, true, false, none, List, [], ◌∷◌, arith,
  Bool-cases, Option-cases, ◌==◌, eq_of_beq, beq_self, beq_ne, length, length-append, one_if,
  count_if, count_if-append, string_eq, nat_eq, pair_eq,
}
use resenhazord.Text.{Unicode, concat}
use resenhazord.Text.Regex.{Regex, erase}
use resenhazord.Text.Split.{split, join}
use resenhazord.Command.{some_text, CommandConfig}
use resenhazord.Distinct.{AllDistinct, contains-append}
use resenhazord.Command.Run.{contains}
use resenhazord.Parser.Build.{sorted_names}
use resenhazord.Parser.{
  Gathered, nothing_gathered, is_token, flag_among, flag_or_rest, option_of, option_among,
  any_value, positional, consume, name_among, leading_comma, parse,
}
use resenhazord.Parser.Tokens.{IsSound, some_text-some, flag_among-some, consume-IsSound}
use resenhazord.Parser.Spelt.{some_text-keeps, flag_among-Found, IsUnspelt, flag_among-spells}

-- How often a word stands in a list.
abbrev pub times : String → List String → ℕ
times word words = count_if (λ w. w == word) words

-- The words after the name of the command.
module _ (u : Unicode) (compile : String → Regex) (config : CommandConfig) where
  abbrev pub words_of : String → List String
  words_of text =
      split (name_among u compile config (sorted_names config) (erase u leading_comma text)).1

module _ (u : Unicode) (compile : String → Regex) (config : CommandConfig)
    (plain : config.options ≡ []) (spelt : contains "" config.flags ≡ false) where
  -- Each word by itself.
  unfoldable each : Gathered → List String → Gathered
  each g [] = g
  each g (token ∷ tokens) = each (flag_or_rest u compile config g token) tokens

  option_of-none : (g : Gathered) (token : String) → option_of u compile config g token ≡ none
  unfolding option_among
  option_of-none g token =
      subst (λ o. option_among u compile config o token g.options ≡ none) (sym plain) refl

  positional-none :
      (g : Gathered) (token : String) → positional u compile config token g.options ≡ none
  unfolding positional any_value
  positional-none g token =
      let none' : any_value u compile config config.options token ≡ none =
        subst (λ o. any_value u compile config o token ≡ none) (sym plain) refl in
      rw (none', positional) refl

  consume-each :
      (tokens : List String) (g : Gathered) → consume u compile config g tokens ≡ each g tokens
  unfolding consume each
  consume-each [] g = refl
  consume-each (token ∷ []) g = rw (option_of-none g token, consume) refl
  consume-each (token ∷ next ∷ tokens) g =
      rw
        (
          option_of-none g (concat token (concat " " next)),
          option_of-none g token,
          positional-none g next,
          consume,
        )
        (consume-each (next ∷ tokens) (flag_or_rest u compile config g token))

  one-length :
      (g : Gathered) (token : String)
      → length (flag_or_rest u compile config g token).flags
          + length (flag_or_rest u compile config g token).rest
        ≡ suc (length g.flags + length g.rest)
  unfolding flag_or_rest
  one-length g token =
      elim (Option-cases (some_text (flag_among u compile config config.flags token g.flags))) [
        | inl e ↦ rw (e, flag_or_rest) (omega (arith, length-append g.rest (token ∷ [])))
        | inr (flag, e) ↦ rw (e, flag_or_rest) (omega (arith, length-append g.flags (flag ∷ [])))
      ]

  -- No word is lost.
  each-length :
      (tokens : List String) (g : Gathered)
      → length (each g tokens).flags + length (each g tokens).rest
        ≡ length g.flags + length g.rest + length tokens
  unfolding each
  each-length [] g = omega arith
  each-length (token ∷ tokens) g =
      omega (arith, each-length tokens (flag_or_rest u compile config g token), one-length g token)

  one-times :
      (g : Gathered) (token word : String)
      → IsUnspelt u compile config word
      → times word (flag_or_rest u compile config g token).rest
        ≡ times word g.rest + one_if (token == word)
  unfolding flag_or_rest count_if
  one-times g token word h =
      elim (Option-cases (some_text (flag_among u compile config config.flags token g.flags))) [
        | inl e ↦ rw (e, flag_or_rest) (count_if-append (λ w. w == word) g.rest token)
        | inr (flag, e) ↦ elim (Bool-cases (token == word)) [
          | inr other ↦ rw (e, other, flag_or_rest) (omega arith)
          | inl same ↦
              let found = some_text-some u compile config _ flag e in
              let among = flag_among-some u compile config config.flags token g.flags flag found in
              let spells =
                flag_among-spells u compile config config.flags token g.flags flag found in
              let moved = ap (λ t. is_token u compile config flag t) (eq_of_beq token word same) in
              cc (spells, h flag among.0, moved)
        ]
      ]

  -- A word that spells no flag stays as often as it stands in the text.
  each-times :
      (tokens : List String) (g : Gathered) (word : String)
      → IsUnspelt u compile config word
      → times word (each g tokens).rest ≡ times word g.rest + times word tokens
  unfolding each count_if
  each-times [] g word h = omega arith
  each-times (token ∷ tokens) g word h = omega (
    arith,
    each-times tokens (flag_or_rest u compile config g token) word h,
    one-times g token word h,
  )

  -- Flags that are gathered stay gathered.
  one-keeps :
      (g : Gathered) (token flag : String)
      → contains flag g.flags ≡ true
      → contains flag (flag_or_rest u compile config g token).flags ≡ true
  unfolding flag_or_rest
  one-keeps g token flag h =
      elim (Option-cases (some_text (flag_among u compile config config.flags token g.flags))) [
        | inl e ↦ rw (e, flag_or_rest) h
        | inr (f, e) ↦ rw (e, flag_or_rest) (ground (arith, h, contains-append flag g.flags f))
      ]

  each-keeps :
      (tokens : List String) (g : Gathered) (flag : String)
      → contains flag g.flags ≡ true
      → contains flag (each g tokens).flags ≡ true
  unfolding each
  each-keeps [] g flag h = h
  each-keeps (token ∷ tokens) g flag h =
      each-keeps tokens (flag_or_rest u compile config g token) flag (one-keeps g token flag h)

  abbrev Gathers : String → Gathered → Type 0
  Gathers token g =
      (f : String) × (contains f g.flags ≡ true) × (is_token u compile config f token ≡ true)

  one-Gathers :
      (g : Gathered) (token flag : String)
      → contains flag config.flags ≡ true
      → is_token u compile config flag token ≡ true
      → Gathers token (flag_or_rest u compile config g token)
  unfolding flag_or_rest
  one-Gathers g token flag h e = elim (Bool-cases (contains flag g.flags)) [
    | inl old ↦ (flag, one-keeps g token flag old, e)
    | inr new ↦
        let (f, found, member, spells) =
          flag_among-Found u compile config config.flags token g.flags flag h e new in
        let full : (f == "") ≡ false =
          beq_ne f "" (λ p. cc (member, spelt, ap (λ s. contains s config.flags) p)) in
        let result = some_text-keeps _ f found full in
        (
          f,
          rw (result, flag_or_rest) (ground (arith, contains-append f g.flags f, beq_self f)),
          spells,
        )
  ]

  -- A word that spells a flag has a flag gathered that it spells.
  each-Gathers :
      (tokens : List String) (g : Gathered) (token flag : String)
      → contains token tokens ≡ true
      → contains flag config.flags ≡ true
      → is_token u compile config flag token ≡ true
      → Gathers token (each g tokens)
  unfolding each contains
  each-Gathers [] g token flag m h e = cc
  each-Gathers (x ∷ tokens) g token flag m h e =
      let g' = flag_or_rest u compile config g x in
      elim (Bool-cases (x == token)) [
        | inl same ↦
            let p : token ≡ x = sym (eq_of_beq x token same) in
            let (f, member, spells) =
              one-Gathers g x flag h (subst (λ t. is_token u compile config flag t ≡ true) p e) in
            (
              f,
              each-keeps tokens g' f member,
              subst (λ t. is_token u compile config f t ≡ true) (sym p) spells,
            )
        | inr other ↦ each-Gathers tokens g' token flag (rw other at m) h e
      ]

  -- What `parse` returns for any text of a command without options and with no empty flag. The flags
  -- are declared ones, none of them twice. There are as many words after the name of the command as
  -- flags and words of the rest together. A word that spells no flag stands in the rest as often as in
  -- the text, and a word that spells a flag has one gathered that it spells.
  pub parse-words :
      (text : String)
      → let p = parse u compile config text in
        AllDistinct p.flags
        × ((flag : String) → contains flag p.flags ≡ true → contains flag config.flags ≡ true)
        × ((words : List String) × (p.rest ≡ join " " words)
            × (length p.flags + length words ≡ length (words_of u compile config text))
            × ((word : String)
                → ((flag : String)
                    → contains flag config.flags ≡ true
                    → is_token u compile config flag word ≡ false)
                → times word words ≡ times word (words_of u compile config text)))
        × ((word flag : String)
            → contains word (words_of u compile config text) ≡ true
            → contains flag config.flags ≡ true
            → is_token u compile config flag word ≡ true
            → (f : String) × (contains f p.flags ≡ true)
              × (is_token u compile config f word ≡ true))
  unfolding parse contains count_if
  parse-words text =
      let start : IsSound u compile config nothing_gathered = record {
        distinct = omega arith;
        declared = λ flag h. cc;
      } in
      let tokens = words_of u compile config text in
      let sound = consume-IsSound u compile config tokens nothing_gathered start in
      let sound' : IsSound u compile config (each nothing_gathered tokens) =
        rw (consume-each tokens nothing_gathered) at sound in
      rw (consume-each tokens nothing_gathered) (
        sound'.distinct,
        sound'.declared,
        (
          (each nothing_gathered tokens).rest,
          refl,
          omega (arith, each-length tokens nothing_gathered),
          λ word h. omega (arith, each-times tokens nothing_gathered word h),
        ),
        λ word flag m h e. each-Gathers tokens nothing_gathered word flag m h e,
      )
