-- ===== src/Agent/Translator.antt =====
-- bot/application/agent_response.py: a call of a tool, as the text of a command. `json.loads` is a
-- parameter, on texts that hold an object; none stands for the TypeError of `' '.join`.
use Prim.Native.Char.{Char, code}
use resenhazord.Prelude.{
  ℕ, String, Bool, false, not, ◌&&◌, ◌||◌, Option, none, some, List, [], ◌∷◌, ◌++◌, if◌then◌else◌,
  ◌==◌, get_elem?, string_eq, nat_eq, pair_eq,
}
use resenhazord.Prelude.Dict
use resenhazord.Prelude.Dict.{Dict}
use resenhazord.Text.{Unicode, is_space, concat}
use resenhazord.Text.Split.{split, join}
use resenhazord.Command.Run.{contains}
use resenhazord.Registry.{Registry, index_by_name}
use resenhazord.Agent.Graph.{lstrip_commas}

-- A value of the object: True and False, a text, or anything else with its `str` and its `bool`.
pub data Value : Type 0 where
  true_value false_value : Value
  text_value : String → Value
  other_value : String → Bool → Value

abbrev pub str_of : Value → String
str_of true_value = "True"
str_of false_value = "False"
str_of (text_value s) = s
str_of (other_value s truth) = s

-- s.lstrip(characters) and s.rstrip(characters)
unfoldable pub lstrip_of : (Char → Bool) → String → String
lstrip_of test String.[] = ""
lstrip_of test (String.◌∷◌ c s) =
    let rest = lstrip_of test s in if test c then rest else String.◌∷◌ c s

unfoldable pub rstrip_of : (Char → Bool) → String → String
rstrip_of test String.[] = ""
rstrip_of test (String.◌∷◌ c s) =
    let rest = rstrip_of test s in if test c && rest == "" then "" else String.◌∷◌ c rest

unfoldable pub strip_of : (Char → Bool) → String → String
unfolding lstrip_of rstrip_of
strip_of test s = rstrip_of test (lstrip_of test s)

abbrev pub is_dash : Char → Bool
is_dash c = code c == b'-'

abbrev pub is_quote : Char → Bool
is_quote c = code c == 39 || code c == 34

abbrev pub starts_word : Unicode → String → Bool
starts_word u String.[] = false
starts_word u (String.◌∷◌ c s) = u.is_word c

-- LONG_FLAG_PATTERN.sub: two dashes between a space and a word fall away. `gap` is whether a space
-- stands before.
unfoldable pub drop_long_flags : Unicode → Bool → String → String
drop_long_flags u gap String.[] = ""
drop_long_flags u gap (String.◌∷◌ c String.[]) = String.◌∷◌ c ""
drop_long_flags u gap (String.◌∷◌ c (String.◌∷◌ d s)) =
    let inside = drop_long_flags u false s in
    let rest = drop_long_flags u (is_space c) (String.◌∷◌ d s) in
    if gap && is_dash c && is_dash d && starts_word u s then inside else String.◌∷◌ c rest

abbrev pub starts_with_comma : String → Bool
starts_with_comma String.[] = false
starts_with_comma (String.◌∷◌ c s) = code c == b','

abbrev pub without_dash : String → String → String
without_dash text String.[] = text
without_dash text (String.◌∷◌ c s) = if is_dash c then concat "," s else text

-- LEADING_DASH_PATTERN.sub: commas and a dash at the start become one comma.
unfoldable pub drop_leading_dash : String → String
unfolding lstrip_commas
drop_leading_dash text =
    if starts_with_comma text then without_dash text (lstrip_commas text) else text

unfoldable pub normalize_flags : Unicode → String → String
unfolding drop_long_flags drop_leading_dash
normalize_flags u text = drop_leading_dash (drop_long_flags u false text)

-- _extract_flags
unfoldable pub flags_of : Dict String Value → List String
unfolding lstrip_of
flags_of [] = []
flags_of ((k, true_value) ∷ d) = lstrip_of is_dash k ∷ flags_of d
flags_of ((k, false_value) ∷ d) = flags_of d
flags_of ((k, text_value s) ∷ d) = flags_of d
flags_of ((k, other_value s truth) ∷ d) = flags_of d

abbrev pub no_option : List String
no_option = "args" ∷ "command" ∷ "confidence" ∷ []

abbrev pub is_option : String → Value → Bool
is_option k true_value = false
is_option k false_value = false
is_option k (text_value s) = not (contains k no_option)
is_option k (other_value s truth) = not (contains k no_option)

-- _extract_options, from the options of the items before
unfoldable pub options_from : Dict String Value → Dict String Value → Dict String Value
unfolding lstrip_of
options_from options [] = options
options_from options ((k, v) ∷ d) =
    options_from (if is_option k v then Dict.put options (lstrip_of is_dash k) v else options) d

abbrev pub option_part : String → Value → String
option_part name (text_value s) = concat name (concat " " s)
option_part name true_value = "True"
option_part name false_value = "False"
option_part name (other_value s truth) = s

unfoldable pub option_parts : Dict String Value → List String
option_parts [] = []
option_parts ((name, v) ∷ d) = option_part name v ∷ option_parts d

-- What `args` adds to the parts: none where it is true and no text.
abbrev pub args_parts : Option Value → Option (List String)
args_parts none = some []
args_parts (some true_value) = none
args_parts (some false_value) = some []
args_parts (some (text_value s)) = if s == "" then some [] else some (s ∷ [])
args_parts (some (other_value s truth)) = if truth then none else some []

-- _compose_command_text, of the object that was read
unfoldable pub compose_text : String → Dict String Value → Option String
unfolding flags_of options_from option_parts strip_of
compose_text name d = elim (args_parts (Dict.get d "args")) [
  | none ↦ none
  | some args ↦ some (
      strip_of is_quote (
        join " " (
          concat "," (lstrip_of is_dash name)
          ∷ (option_parts (options_from [] d) ++ (flags_of d ++ args)))))
]

abbrev pub tail_text : String → String
tail_text String.[] = ""
tail_text (String.◌∷◌ c s) = s

abbrev pub or_no_items : Option (Dict String Value) → Dict String Value
or_no_items none = []
or_no_items (some d) = d

module _ {W : Type 0} (u : Unicode) (r : Registry W) where
  abbrev pub registered_name : String → Option ℕ → String
  registered_name word none = word
  registered_name word (some i) = elim (get_elem? r.commands i) [
    | none ↦ word
    | some c ↦ concat "," c.config.name
  ]

  -- _resolve_command_name
  unfoldable pub resolve_command_name : String → String
  resolve_command_name text =
      if starts_with_comma text
      then elim (split text) [
        | [] ↦ text
        | word ∷ words ↦
            join " " (registered_name word (index_by_name u r (tail_text word)) ∷ words)
      ]
      else text

  -- compose, of the text of the arguments
  unfoldable pub compose : (String → Option (Dict String Value)) → String → String → Option String
  unfolding compose_text resolve_command_name
  compose loads name arguments =
      let d = if arguments == "" then [] else or_no_items (loads arguments) in
      elim (compose_text name d) [ none ↦ none | some text ↦ some (resolve_command_name text) ]
