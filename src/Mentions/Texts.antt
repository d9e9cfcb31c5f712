-- ===== src/Mentions/Texts.antt =====
-- bot/domain/commands/group_mentions.py: the names, numbers and answers of the mention lists.
use Prim.Native.Char.{Char}
use resenhazord.Prelude.{
  ℕ, ◌+◌, String, Bool, true, false, not, ◌&&◌, ◌||◌, Option, none, some, List, [], ◌∷◌, ltb,
  if◌then◌else◌, ◌==◌, string_eq, nat_eq, pair_eq,
}
use resenhazord.Text.{Unicode, concat, is_space, lstrip}
use resenhazord.Text.Decimal.{decimal_text}
use resenhazord.Text.Split.{join}
use resenhazord.Text.Regex.{Regex, one, seq, star, plus, space, literal, literal_ci, digit, search}
use resenhazord.Jid.{strip_jid}
use resenhazord.Command.{CommandConfig, CommandData, default_config, optional, group}
use resenhazord.Message.{BotMessage, reply_text, reply_text_with}
use resenhazord.Parser.Build.{text_length}
use resenhazord.CommandText.{int_of}
use resenhazord.Mentions.{Group, Outcome, refused, named, changed, renamed, listed, shown, members}

-- GroupMentionsCommand.config
abbrev pub group_config : CommandConfig
group_config = record (default_config "grupo") {
  aliases = "group" ∷ [];
  args = optional;
  args_label = some "subcomando";
  group_only = true;
  category = some group;
}

abbrev pub missing_name : String
missing_name = "Cadê o nome do grupo? 🤔"

-- RESERVED_KEYWORDS, MAX_GROUP_NAME_LEN and MENTION_PATTERN
abbrev pub reserved_keywords : List String
reserved_keywords = "add" ∷ "exit" ∷ "create" ∷ "delete" ∷ "rename" ∷ "list" ∷ []

abbrev pub max_group_name_len : ℕ
max_group_name_len = 15

abbrev pub mention_pattern : Unicode → Regex
mention_pattern u = seq (star space) (seq (literal "@") (seq (plus (digit u)) (star space)))

-- `\S+\s+\S+`
abbrev pub two_words : Regex
two_words = let word = plus (one (λ c. not (is_space c))) in seq word (seq (plus space) word)

abbrev pub is_found {ℓ} : {A : Type ℓ} → Option A → Bool
is_found none = false
is_found (some a) = true

-- any(re.search(kw, name, re.IGNORECASE) for kw in …)
unfoldable pub has_keyword : Unicode → List String → String → Bool
unfolding search literal_ci
has_keyword u [] name = false
has_keyword u (keyword ∷ keywords) name =
    is_found (search u (literal_ci keyword) name) || has_keyword u keywords name

-- _validate_group_name: what is wrong with it
unfoldable pub validate_group_name : Unicode → String → Option String
unfolding has_keyword search
validate_group_name u name =
    if ltb max_group_name_len (text_length name)
    then some "O nome do grupo é desse tamanho! ✋    🤚"
    else if has_keyword u reserved_keywords name
    then some "O nome do grupo não pode ser um comando!"
    else if is_found (search u space name)
    then some "O nome do grupo não pode ter espaço!"
    else none

-- text.partition(' '): what is before the space, and what is after it
unfoldable pub partition : String → String × String
partition String.[] = ("", "")
partition (String.◌∷◌ c s) =
    let (before, after) = partition s in
    if String.◌∷◌ c "" == " " then ("", s) else (String.◌∷◌ c before, after)

-- text.split(maxsplit=1), for a text without spaces around it: the first word and the text after it
unfoldable pub first_word : String → String × String
unfolding lstrip
first_word String.[] = ("", "")
first_word (String.◌∷◌ c s) =
    let (word, after) = first_word s in
    if is_space c then ("", lstrip s) else (String.◌∷◌ c word, after)

-- part.rstrip('º')
unfoldable pub without_ordinal : String → String
without_ordinal String.[] = ""
without_ordinal (String.◌∷◌ c s) =
    let rest = without_ordinal s in
    if String.◌∷◌ c "" == "º" && rest == "" then "" else String.◌∷◌ c rest

unfoldable pub every_char : (Char → Bool) → String → Bool
every_char test String.[] = true
every_char test (String.◌∷◌ c s) = test c && every_char test s

-- number.isdigit()
abbrev pub isdigit : Unicode → String → Bool
isdigit u number = not (number == "") && every_char u.is_digit number

-- [int(number) for number in numbers if number.isdigit()]: none where int raises ValueError
unfoldable pub indices_of : Unicode → List String → Option (List ℕ)
unfolding every_char int_of without_ordinal
indices_of u [] = some []
indices_of u (part ∷ parts) =
    let number = without_ordinal part in
    let later = indices_of u parts in
    if not (isdigit u number)
    then later
    else if not (every_char (λ c. is_found (u.decimal c)) number)
    then none
    else elim later [ none ↦ none | some is ↦ some (int_of u 0 number ∷ is) ]

-- [f'- {i + 1}º @{strip_jid(p)}' for i, p in enumerate(participants)], counted from `i`
unfoldable pub numbered : Unicode → ℕ → List String → List String
unfolding decimal_text strip_jid
numbered u i [] = []
numbered u i (p ∷ participants) =
    concat "- " (concat (decimal_text (i + 1)) (concat "º @" (strip_jid u p)))
    ∷ numbered u (i + 1) participants

abbrev pub bullets : List Group → List String
bullets [] = []
bullets (g ∷ gs) = concat "- _" (concat g.name "_") ∷ bullets gs

unfoldable pub at_signs : Unicode → List String → List String
unfolding strip_jid
at_signs u [] = []
at_signs u (p ∷ participants) = concat "@" (strip_jid u p) ∷ at_signs u participants

abbrev pub about_group : String → String → String → String
about_group start name end = concat start (concat "*" (concat name end))

-- [Reply.to(data).text(result['message'])], where the result is not ok
abbrev pub refusal : CommandData → Outcome → List BotMessage
refusal d (refused text) = reply_text d text ∷ []
refusal d _ = []

abbrev pub named_reply : CommandData → String → Outcome → List BotMessage
named_reply d end (named name) = reply_text d (about_group "Grupo " name end) ∷ []
named_reply d end outcome = refusal d outcome

abbrev pub rename_reply : CommandData → Outcome → List BotMessage
rename_reply d (renamed old new) =
    reply_text d (about_group "Grupo " old (about_group "* renomeado para " new "* com sucesso! 🎉"))
    ∷ []
rename_reply d outcome = refusal d outcome

abbrev pub changed_reply : CommandData → String → String → Outcome → List BotMessage
changed_reply d self others (changed name self_only) =
    reply_text d (about_group (if self_only then self else others) name "* com sucesso! 🎉") ∷ []
changed_reply d self others outcome = refusal d outcome

module _ (u : Unicode) where
  abbrev pub list_reply : CommandData → Outcome → List BotMessage
  list_reply d (listed gs) = reply_text d (concat "📜 *GRUPOS* 📜\n\n" (join "\n" (bullets gs))) ∷ []
  list_reply d (shown name participants) =
      reply_text_with d
        (concat "📜 *"
          (concat (u.upper name) (concat "* 📜\n\n" (join "\n" (numbered u 0 participants)))))
        participants
      ∷ []
  list_reply d outcome = refusal d outcome

  abbrev pub mention_reply : CommandData → String → Outcome → List BotMessage
  mention_reply d text (members participants) =
      let prefix = if text == "" then "" else concat text "\n\n" in
      reply_text_with d (concat prefix (join " " (at_signs u participants))) participants ∷ []
  mention_reply d text outcome = refusal d outcome
