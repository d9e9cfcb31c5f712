-- ===== src/Parser.antt =====
-- bot/domain/parsers/command_parser.py: the words of a command, by the configuration of the command.
pub mod Build
pub mod Tokens
pub mod Spelt
pub mod Words
use resenhazord.Prelude.{
  String, Bool, true, false, ◌||◌, Option, none, some, List, [], ◌∷◌, ◌++◌, if◌then◌else◌, ◌==◌,
  string_eq, nat_eq, pair_eq,
}
use resenhazord.Prelude.Dict
use resenhazord.Prelude.Dict.{Dict}
use resenhazord.Text.{Unicode, strip, concat}
use resenhazord.Text.Split.{split, join}
use resenhazord.Text.Regex.{
  Regex, start_anchor, seq, star, space, literal, search, prefixmatch, fullmatch, erase,
}
use resenhazord.Command.{some_text, OptionDef, CommandConfig}
use resenhazord.Command.Run.{ParsedCommand, contains}
use resenhazord.Parser.Build.{sorted_names, name_pattern, escape, build}

-- LEADING_COMMA
abbrev pub leading_comma : Regex
leading_comma = seq start_anchor (seq (star space) (seq (literal ",") (star space)))

-- What the loop of `parse` has gathered.
pub record Gathered : Type 0 where
  pub options : Dict String String
  pub flags : List String
  pub rest : List String

abbrev pub nothing_gathered : Gathered
nothing_gathered = record { options = []; flags = []; rest = [] }

abbrev pub has_option : Dict String String → String → Bool
has_option options name = elim (Dict.get options name) [ none ↦ false | some v ↦ true ]

abbrev pub with_option : Gathered → String → String → Gathered
with_option g name value = record g { options = Dict.put g.options name value }

module _ (u : Unicode) (compile : String → Regex) (config : CommandConfig) where
  -- matches
  unfoldable pub matches : String → Bool
  unfolding build search
  matches text = elim (search u (build compile config) text) [ none ↦ false | some m ↦ true ]

  -- _consume_command_name, over the names that are left
  unfoldable pub name_among : List String → String → String × String
  unfolding prefixmatch name_pattern
  name_among [] text = ("", text)
  name_among (name ∷ names) text =
      let later = name_among names text in
      elim (prefixmatch u (name_pattern name) text) [
        | none ↦ later
        | some m ↦ (name, strip m.end.ahead)
      ]

  unfoldable pub is_token : String → String → Bool
  unfolding fullmatch escape
  is_token value token = elim (fullmatch u (escape value) token) [ none ↦ false | some m ↦ true ]

  -- The first of the values that the token spells.
  unfoldable pub value_among : List String → String → Option String
  unfolding is_token
  value_among [] token = none
  value_among (value ∷ values) token =
      let later = value_among values token in if is_token value token then some value else later

  abbrev pub pattern_matches : Option String → String → Bool
  pattern_matches none token = false
  pattern_matches (some text) token = elim (fullmatch u (compile text) token) [
    | none ↦ false
    | some m ↦ true
  ]

  -- _match_option_value
  unfoldable pub match_option_value : OptionDef → String → Option String
  unfolding value_among
  match_option_value opt token = elim (value_among opt.values token) [
    | some value ↦ some value
    | none ↦ if pattern_matches (some_text opt.pattern_text) token then some token else none
  ]

  -- _try_match_option, over the options that are left
  unfoldable pub option_among :
      List OptionDef → String → Dict String String → Option (String × String)
  unfolding match_option_value
  option_among [] token matched = none
  option_among (opt ∷ options) token matched =
      let later = option_among options token matched in
      if has_option matched opt.name then later else elim (match_option_value opt token) [
        | some value ↦ some (opt.name, value)
        | none ↦ later
      ]

  -- _try_match_option_as_value
  unfoldable pub any_value : List OptionDef → String → Option String
  unfolding value_among
  any_value [] token = none
  any_value (opt ∷ options) token = elim (value_among opt.values token) [
    | some value ↦ some value
    | none ↦ any_value options token
  ]

  -- _try_positional_option, of the token that follows
  unfoldable pub positional : String → Dict String String → Option String
  unfolding any_value
  positional token matched = elim (any_value config.options token) [
    | none ↦ none
    | some value ↦ if has_option matched value || value == "" then none else some value
  ]

  -- _try_match_flag, over the flags that are left; an empty flag is no flag
  unfoldable pub flag_among : List String → String → List String → Option String
  unfolding is_token contains
  flag_among [] token matched = none
  flag_among (flag ∷ flags) token matched =
      let later = flag_among flags token matched in
      if contains flag matched then later else if is_token flag token then some flag else later

  -- The end of `_consume_token`: a token by itself.
  unfoldable pub flag_or_rest : Gathered → String → Gathered
  unfolding flag_among
  flag_or_rest g token = elim (some_text (flag_among config.flags token g.flags)) [
    | some flag ↦ record g { flags = g.flags ++ flag ∷ [] }
    | none ↦ record g { rest = g.rest ++ token ∷ [] }
  ]

  abbrev pub option_of : Gathered → String → Option (String × String)
  option_of g token = option_among config.options token g.options

  -- The loop of `parse`, a call of `_consume_token` in each round.
  unfoldable pub consume : Gathered → List String → Gathered
  unfolding option_among positional flag_or_rest
  consume g [] = g
  consume g (token ∷ []) = elim (option_of g token) [
    | some (name, value) ↦ with_option g name value
    | none ↦ flag_or_rest g token
  ]
  consume g (token ∷ next ∷ tokens) = elim (option_of g (concat token (concat " " next))) [
    | some (name, value) ↦ consume (with_option g name value) tokens
    | none ↦ elim (option_of g token) [
      | some (name, value) ↦ consume (with_option g name value) (next ∷ tokens)
      | none ↦ elim (positional next g.options) [
        | some value ↦ consume (with_option g token value) tokens
        | none ↦ consume (flag_or_rest g token) (next ∷ tokens)
      ]
    ]
  ]

  -- parse
  unfoldable pub parse : String → ParsedCommand
  unfolding name_among sorted_names consume erase
  parse text =
      let (command_name, remaining) =
        name_among (sorted_names config) (erase u leading_comma text) in
      let g = consume nothing_gathered (split remaining) in
      record {
        command_name = command_name;
        flags = g.flags;
        options = g.options;
        rest = join " " g.rest;
      }
