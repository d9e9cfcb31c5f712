-- ===== src/Tests/Mapper.antt =====
-- The mapper at concrete inputs.
use resenhazord.Prelude.{
  ℕ, ◌+◌, String, ◌≡◌, refl, true, false, Option, none, some, [], ◌∷◌, string_eq, nat_eq, pair_eq,
}
use resenhazord.Prelude.Dict
use resenhazord.Prelude.Dict.{Dict}
use resenhazord.Text.Examples.{ascii}
use resenhazord.Text.Split.{split, split_word, join}
use resenhazord.Command.Run.{contains}
use resenhazord.Registry.{index_by_name}
use resenhazord.Command.{default_data}
use resenhazord.Agent.Translator.{
  Value, text_value, true_value, other_value, compose, compose_text, resolve_command_name, flags_of,
  options_from, option_parts, strip_of,
}
use resenhazord.Agent.Mapper.{Parts, map_request}
use resenhazord.Agent.Decisions.{IsSound, IfSome, map_request-IsSound}
use resenhazord.Tests.Commands.{both}

-- the arguments of every call: a name, a flag, and a low confidence
abbrev pub items : String → Option (Dict String Value)
items text = some (
    ("args", text_value "flamengo")
    ∷ ("dm", true_value)
    ∷ ("confidence", other_value "0.4" true)
    ∷ [])

abbrev parts : Parts ℕ
parts = record {
  unicode = ascii;
  registry = both;
  loads = items;
  is_sure = λ v. some false;
  refill_at = λ w d. (none, w);
  spend = λ w d tokens. w + tokens;
  prompt_version = some "v1";
  complete = λ w d examples. (
    some (record {
      content = "";
      provider = "groq";
      tool_call = some (record { name = "ping"; arguments = "{}" });
      tokens = 7;
    }),
    w,
  );
}

compose_run : compose ascii both items "ping" "{}" ≡ some ",ping dm flamengo"
unfolding compose compose_text resolve_command_name flags_of options_from option_parts strip_of
    split split_word join Dict.get Dict.put contains index_by_name
compose_run = refl

map_request-IsSound_example :
    IfSome IsSound (map_request parts 0 (default_data "ping" "1@g.us" "2@lid") []).0
map_request-IsSound_example = map_request-IsSound parts 0 (default_data "ping" "1@g.us" "2@lid") []
