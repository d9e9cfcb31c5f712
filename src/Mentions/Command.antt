-- ===== src/Mentions/Command.antt =====
-- bot/domain/commands/group_mentions.py: the command that keeps and calls the mention lists.
use resenhazord.Prelude.{
  ℕ, String, Bool, not, Option, none, some, List, [], ◌∷◌, if◌then◌else◌, ◌==◌, string_eq, nat_eq,
  pair_eq,
}
use resenhazord.Text.{Unicode, strip}
use resenhazord.Text.Split.{split}
use resenhazord.Text.Regex.{literal, prefixmatch, erase}
use resenhazord.Command.{CommandData}
use resenhazord.Command.Run.{ParsedCommand, unexpected, Result, ok, raised}
use resenhazord.Message.{BotMessage, reply_text}
use resenhazord.Mentions.{Docs, Outcome}
use resenhazord.Mentions.Service.{
  lookup, create, rename, delete, list_all, list_one, add, exit, mention,
}
use resenhazord.Mentions.Texts.{
  missing_name, mention_pattern, two_words, is_found, validate_group_name, partition, first_word,
  indices_of, numbered, at_signs, named_reply, rename_reply, changed_reply, list_reply,
  mention_reply,
}

module _ (u : Unicode) (up : ℕ → Bool) (meanwhile : Docs → Docs) where
  abbrev pub Handler : Type 0
  Handler = Docs → CommandData → String → Result (List BotMessage) × Docs

  abbrev pub then_reply :
      (Outcome → List BotMessage) → Docs × Outcome → Result (List BotMessage) × Docs
  then_reply f (docs, outcome) = (ok (f outcome), docs)

  abbrev pub answered : Docs → CommandData → String → Result (List BotMessage) × Docs
  answered docs d text = (ok (reply_text d text ∷ []), docs)

  -- The name that `_handle_create` and `_handle_add` read: the text without the mentions.
  unfoldable pub unmentioned : String → String
  unfolding erase literal
  unmentioned rest = u.lower (erase u (mention_pattern u) rest)

  unfoldable pub handle_create : Handler
  unfolding create unmentioned validate_group_name
  handle_create docs d rest =
      let name = unmentioned rest in
      if name == "" then answered docs d missing_name else elim (validate_group_name u name) [
        | some error ↦ answered docs d error
        | none ↦
            then_reply (named_reply d "* criado com sucesso! 🎉")
              (create u up meanwhile docs d.jid d.sender_jid name d.mentioned_jids)
      ]

  abbrev pub rename_to : Docs → CommandData → String → String → Result (List BotMessage) × Docs
  rename_to docs d old new = elim (validate_group_name u new) [
    | some error ↦ answered docs d error
    | none ↦ then_reply (rename_reply d) (rename u up meanwhile docs d.jid old new)
  ]

  unfoldable pub handle_rename : Handler
  unfolding rename prefixmatch split validate_group_name
  handle_rename docs d rest =
      if not (is_found (prefixmatch u two_words rest))
      then answered docs d "Cadê os nomes dos grupos? 🤔"
      else elim (split rest) [
        | old ∷ new ∷ parts ↦ rename_to docs d (u.lower old) (u.lower new)
        -- parts[0] and parts[1] of fewer parts
        | _ ↦ (raised unexpected, docs)
      ]

  unfoldable pub handle_delete : Handler
  unfolding delete
  handle_delete docs d rest =
      let name = u.lower rest in
      if name == ""
      then answered docs d missing_name
      else then_reply (named_reply d "* deletado com sucesso! 🎉")
          (delete u up meanwhile docs d.jid name)

  unfoldable pub handle_list : Handler
  unfolding list_all lookup numbered
  handle_list docs d rest =
      let name = u.lower rest in
      let outcome =
        if name == ""
        then list_all u up meanwhile docs d.jid
        else list_one u up meanwhile docs d.jid name in
      then_reply (list_reply u d) (docs, outcome)

  unfoldable pub handle_add : Handler
  unfolding add unmentioned
  handle_add docs d rest =
      let name = unmentioned rest in
      if name == ""
      then answered docs d missing_name
      else then_reply
          (changed_reply d "Você foi adicionado ao grupo " "Participantes adicionados ao grupo ")
          (add u up meanwhile docs d.jid name d.sender_jid d.mentioned_jids)

  abbrev pub exit_with :
      Docs → CommandData → String → Option (List ℕ) → Result (List BotMessage) × Docs
  exit_with docs d name none = (raised unexpected, docs)
  exit_with docs d name (some indices) =
      then_reply (changed_reply d "Você foi removido do grupo " "Participantes removidos do grupo ")
        (exit u up meanwhile docs d.jid name d.sender_jid
          (record { indices = indices; mentioned = d.mentioned_jids }))

  unfoldable pub handle_exit : Handler
  unfolding exit split indices_of
  handle_exit docs d rest = elim (split rest) [
    | [] ↦ answered docs d missing_name
    | part ∷ parts ↦
        let name = u.lower part in
        if name == ""
        then answered docs d missing_name
        else exit_with docs d name (indices_of u parts)
  ]

  unfoldable pub handle_mention : Handler
  unfolding lookup first_word at_signs
  handle_mention docs d rest =
      let (word, text) = first_word rest in
      let name = u.lower word in
      if name == ""
      then answered docs d missing_name
      else then_reply (mention_reply u d text) (docs, mention u up meanwhile docs d.jid name)

  -- execute, with the table of its handlers
  unfoldable pub execute : Docs → CommandData → ParsedCommand → Result (List BotMessage) × Docs
  unfolding strip partition handle_create handle_rename handle_delete handle_list handle_add
      handle_exit handle_mention
  execute docs d parsed =
      let rest = strip parsed.rest in
      let (word, after) = partition rest in
      let keyword = u.lower word in
      let sub_rest = strip after in
      if keyword == "create"
      then handle_create docs d sub_rest
      else if keyword == "rename"
      then handle_rename docs d sub_rest
      else if keyword == "delete"
      then handle_delete docs d sub_rest
      else if keyword == "list"
      then handle_list docs d sub_rest
      else if keyword == "add"
      then handle_add docs d sub_rest
      else if keyword == "exit"
      then handle_exit docs d sub_rest
      else handle_mention docs d rest
