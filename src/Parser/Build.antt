-- ===== src/Parser/Build.antt =====
-- bot/domain/parsers/command_parser_regex.py: the pattern of a command. `re.compile` on the patterns
-- that a command writes itself is the parameter `compile`, under re.IGNORECASE; none of these patterns
-- has a choice at its top, so what stands before and after it is a sequence.
use Prim.Native.Char.{Char, code}
use resenhazord.Prelude.{
  ℕ, suc, String, Bool, true, false, not, ◌&&◌, none, some, List, [], ◌∷◌, ◌++◌, ltb, leb,
  if◌then◌else◌, ◌==◌, string_eq, nat_eq, pair_eq,
}
use resenhazord.Text.{is_space}
use resenhazord.Text.Regex.{
  Regex, epsilon, start_anchor, end_anchor, one, seq, alt, star, plus, maybe, space, literal,
  folded,
}
use resenhazord.Command.{some_text, no_args, required, optional, OptionDef, CommandConfig}

abbrev pub text_length : String → ℕ
text_length String.[] = 0
text_length (String.◌∷◌ c s) = suc (text_length s)

-- sorted(texts, key=len, reverse=True): longer ones first, and equals in their order.
unfoldable pub insert_longest : String → List String → List String
insert_longest x [] = x ∷ []
insert_longest x (y ∷ ys) =
    let rest = insert_longest x ys in
    if leb (text_length y) (text_length x) then x ∷ y ∷ ys else y ∷ rest

unfoldable pub longest_first : List String → List String
unfolding insert_longest
longest_first [] = []
longest_first (x ∷ xs) = insert_longest x (longest_first xs)

unfoldable pub sorted_names : CommandConfig → List String
unfolding longest_first
sorted_names config = longest_first (config.name ∷ config.aliases)

-- `.`
abbrev pub any_character : Regex
any_character = one (λ c. not (code c == 10))

-- A character of an escaped text: one beyond ASCII stands for any.
abbrev pub escaped : Char → Regex
escaped c =
    if ltb 127 (code c) then any_character else one (λ d. folded (code d) == folded (code c))

-- escape
unfoldable pub escape : String → Regex
escape String.[] = epsilon
escape (String.◌∷◌ c s) = seq (escaped c) (escape s)

-- A space of ASCII: one beyond was escaped before INTERNAL_WHITESPACE is looked for.
abbrev pub is_gap : Char → Bool
is_gap c = is_space c && leb (code c) 127

-- name_pattern: a run of spaces becomes `\s*`. `gap` is whether the run has begun.
unfoldable pub name_from : Bool → String → Regex
name_from gap String.[] = epsilon
name_from gap (String.◌∷◌ c s) =
    let within = name_from true s in
    let after = name_from false s in
    if is_gap c then (if gap then within else seq (star space) within) else seq (escaped c) after

unfoldable pub name_pattern : String → Regex
unfolding name_from
name_pattern name = name_from false name

-- '|'.join, of patterns of which there is at least one
unfoldable pub alternation : List Regex → Regex
alternation [] = epsilon
alternation (r ∷ []) = r
alternation (r ∷ s ∷ rest) = alt r (alternation (s ∷ rest))

unfoldable pub name_patterns : List String → List Regex
unfolding name_pattern
name_patterns [] = []
name_patterns (name ∷ names) = name_pattern name ∷ name_patterns names

unfoldable pub name_alternation : CommandConfig → Regex
unfolding name_patterns alternation sorted_names
name_alternation config = alternation (name_patterns (sorted_names config))

unfoldable pub escape_all : List String → List Regex
unfolding escape
escape_all [] = []
escape_all (x ∷ xs) = escape x ∷ escape_all xs

-- `pattern.removeprefix('^').removesuffix('$')`
abbrev pub without_start : String → String
without_start String.[] = ""
without_start (String.◌∷◌ c s) = if code c == b'^' then s else String.◌∷◌ c s

unfoldable pub without_end : String → String
without_end String.[] = ""
without_end (String.◌∷◌ c s) =
    let rest = without_end s in if code c == b'$' && s == "" then "" else String.◌∷◌ c rest

unfoldable pub strip_anchors : String → String
unfolding without_end
strip_anchors pattern_text = without_end (without_start pattern_text)

module _ (compile : String → Regex) where
  -- What an option adds to the alternatives.
  unfoldable pub option_patterns : OptionDef → List Regex
  unfolding alternation escape_all longest_first
  option_patterns opt = elim opt.values [
    | value ∷ values ↦ alternation (escape_all (longest_first (value ∷ values))) ∷ []
    | [] ↦ elim (some_text opt.pattern_text) [ none ↦ [] | some text ↦ compile text ∷ [] ]
  ]

  unfoldable pub options_patterns : List OptionDef → List Regex
  unfolding option_patterns
  options_patterns [] = []
  options_patterns (opt ∷ options) = option_patterns opt ++ options_patterns options

  -- `(?:\s+(?:…))*` over _token_alternation, where it has any
  abbrev pub tokens_segment : List Regex → Regex
  tokens_segment [] = epsilon
  tokens_segment (r ∷ rest) = star (seq (plus space) (alternation (r ∷ rest)))

  -- _args_segment
  unfoldable pub args_segment : CommandConfig → Regex
  unfolding strip_anchors
  args_segment config = elim config.args [
    | no_args ↦ seq (star space) end_anchor
    | required ↦ elim (some_text config.args_pattern) [
      | some text ↦
          seq (star space) (seq (compile (strip_anchors text)) (seq (star space) end_anchor))
      | none ↦ seq (plus space) (plus any_character)
    ]
    | optional ↦ elim (some_text config.args_pattern) [
      | some text ↦
          seq (star space) (seq (compile (strip_anchors text)) (seq (star space) end_anchor))
      | none ↦ seq (maybe (seq (plus space) (star any_character))) end_anchor
    ]
  ]

  -- build
  unfoldable pub build : CommandConfig → Regex
  unfolding name_alternation options_patterns escape_all args_segment
  build config = seq start_anchor (
      seq (star space) (
        seq (literal ",") (
          seq (star space) (
            seq (name_alternation config) (
              seq (tokens_segment (options_patterns config.options ++ escape_all config.flags))
                (args_segment config))))))
