-- ===== src/Tests/Parser.antt =====
-- The parser of commands at concrete inputs.
use resenhazord.Prelude.{
  ◌+◌, String, ◌≡◌, refl, true, false, none, some, List, [], ◌∷◌, length, string_eq, nat_eq,
  pair_eq,
}
use resenhazord.Prelude.Dict
use resenhazord.Text.{strip}
use resenhazord.Text.Split.{split, join}
use resenhazord.Text.Examples.{ascii}
use resenhazord.Text.Regex.{Regex, literal, prefixmatch, search, digit}
use resenhazord.Command.{CommandConfig, default_config, optional}
use resenhazord.Distinct.{AllDistinct}
use resenhazord.Command.Run.{contains}
use resenhazord.Parser.Build.{sorted_names, name_pattern, build}
use resenhazord.Parser.{is_token, parse, matches, name_among}
use resenhazord.Parser.Words.{times, words_of, parse-words}

-- ",ball now 3 dm por favor": a command with a name, an alias, two flags and two options
abbrev pub ball : CommandConfig
ball = record (default_config "ball") {
  aliases = "ball now" ∷ [];
  flags = "dm" ∷ "show" ∷ [];
  options =
      record {
        name = "lang";
        values = "pt" ∷ "en us" ∷ [];
        pattern_text = none;
        description = none;
      }
      ∷ record { name = "size"; values = []; pattern_text = some "\\d"; description = none }
      ∷ [];
  args = optional;
}

abbrev pub digits : String → Regex
digits text = digit ascii

parse_run : parse ascii digits ball " , ball now 3 dm en us oi dm 4" ≡ record {
  command_name = "ball now";
  flags = "dm" ∷ [];
  options = ("size", "3") ∷ ("lang", "en us") ∷ [];
  rest = "oi dm 4";
}
unfolding parse sorted_names name_among prefixmatch name_pattern split join contains strip literal
    Dict.get Dict.put
parse_run = refl

ball_matches : matches ascii digits ball " , ball now 3 dm en us oi" ≡ true
unfolding matches build search literal
ball_matches = refl

-- The same without its options.
abbrev plain : CommandConfig
plain = record ball { options = [] }

plain_run :
    parse ascii digits plain ",ball dm 4 DM"
    ≡ record { command_name = "ball"; flags = "dm" ∷ []; options = []; rest = "4 DM" }
unfolding parse sorted_names name_among prefixmatch name_pattern split join contains strip literal
plain_run = refl

parse-words_example :
    let p = parse ascii digits plain ",ball dm 4" in
    AllDistinct p.flags
    × ((flag : String) → contains flag p.flags ≡ true → contains flag plain.flags ≡ true)
    × ((words : List String) × (p.rest ≡ join " " words)
        × (length p.flags + length words ≡ length (words_of ascii digits plain ",ball dm 4"))
        × ((word : String)
            → ((flag : String)
                → contains flag plain.flags ≡ true
                → is_token ascii digits plain flag word ≡ false)
            → times word words ≡ times word (words_of ascii digits plain ",ball dm 4")))
    × ((word flag : String)
        → contains word (words_of ascii digits plain ",ball dm 4") ≡ true
        → contains flag plain.flags ≡ true
        → is_token ascii digits plain flag word ≡ true
        → (f : String) × (contains f p.flags ≡ true) × (is_token ascii digits plain f word ≡ true))
unfolding contains
parse-words_example = parse-words ascii digits plain refl refl ",ball dm 4"
