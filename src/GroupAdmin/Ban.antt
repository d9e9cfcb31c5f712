-- ===== src/GroupAdmin/Ban.antt =====
-- bot/domain/commands/ban.py.
use resenhazord.Prelude.{
  ℕ, ◌%◌, String, Bool, true, false, not, ◌&&◌, ◌||◌, Option, none, some, List, [], ◌∷◌,
  if◌then◌else◌, ◌==◌, length, get_or, string_eq, nat_eq, pair_eq,
}
use resenhazord.Text.{Unicode, concat}
use resenhazord.Jid.{strip_jid}
use resenhazord.Command.{CommandConfig, CommandData, default_config, optional, group}
use resenhazord.Command.Run.{unexpected, Result, ok, raised}
use resenhazord.Message.{BotMessage, reply_text, reply_text_with}
use resenhazord.GroupAdmin.{Participant, Metadata, truthy, is_admin_entry, is_sender_admin}

-- BanCommand.config
abbrev pub ban_config : CommandConfig
ban_config = record (default_config "ban") {
  args = optional;
  args_pattern = some "^(?:@\\d+(?:\\s+@\\d+)*)?$";
  args_label = some "@número";
  group_only = true;
  category = some group;
}

abbrev pub bot_not_admin_message : String
bot_not_admin_message = "Vai se foder! Eu não sou admin! 🖕"

abbrev pub nobody_left_message : String
nobody_left_message = "Não sobrou ninguém pra eu banir! 🤷"

-- ADMIN_ONLY_COMMAND
abbrev pub admin_only_command : String
admin_only_command = "Só admin pode usar esse comando. 🙅"

-- The replies, and the ids whose removal was asked of the gateway.
abbrev pub Done : Type 0
Done = List BotMessage × List String

abbrev pub is_owner : Option String → String → Bool
is_owner none jid = false
is_owner (some owner) jid = jid == owner

module _ (u : Unicode) (bot : String) (removes : String → Bool) where
  -- p['id'] not in (self._bot_jid, owner)
  unfoldable pub candidates : Option String → List Participant → List String
  candidates owner [] = []
  candidates owner (p ∷ participants) =
      let rest = candidates owner participants in
      if p.id == bot || is_owner owner p.id then rest else p.id ∷ rest

  unfoldable pub farewell : CommandData → String → BotMessage
  unfolding strip_jid
  farewell d jid =
      reply_text_with d (concat "Já era! @" (concat (strip_jid u jid) " 👋😅")) (jid ∷ [])

  -- _ban_random, with the number that was drawn
  unfoldable pub ban_random : ℕ → CommandData → List Participant → Option String → Done
  unfolding candidates farewell
  ban_random drawn d participants owner = elim (candidates owner participants) [
    | [] ↦ (reply_text d nobody_left_message ∷ [], [])
    | first ∷ others ↦
        let target = get_or (first ∷ others) (drawn % length (first ∷ others)) first in
        ((if removes target then farewell d target ∷ [] else []), target ∷ [])
  ]

  -- any(p.get('admin') for p in participants if p['id'] == owner)
  unfoldable pub owner_is_admin : Option String → List Participant → Bool
  owner_is_admin owner [] = false
  owner_is_admin owner (p ∷ participants) =
      is_owner owner p.id && truthy p.admin || owner_is_admin owner participants

  abbrev pub and_then : CommandData → String → Done → Done
  and_then d jid (messages, asked) =
      ((if removes jid then farewell d jid ∷ messages else messages), jid ∷ asked)

  -- The loop of `_ban_mentioned`
  unfoldable pub ban_each : CommandData → Option String → Bool → List String → Done
  unfolding farewell
  ban_each d owner protected [] = ([], [])
  ban_each d owner protected (jid ∷ jids) =
      let rest = ban_each d owner protected jids in
      if jid == bot || is_owner owner jid && protected then rest else and_then d jid rest

  -- execute
  unfoldable pub ban : ℕ → CommandData → Option Metadata → Result (List BotMessage) × List String
  unfolding is_admin_entry is_sender_admin ban_random owner_is_admin ban_each
  ban drawn d none = (raised unexpected, [])
  ban drawn d (some m) =
      if not (is_admin_entry bot m.participants)
      then (ok (reply_text d bot_not_admin_message ∷ []), [])
      else if not (is_sender_admin d m.participants)
      then (ok (reply_text d admin_only_command ∷ []), [])
      else elim d.mentioned_jids [
        | [] ↦ let done = ban_random drawn d m.participants m.owner in (ok done.0, done.1)
        | jid ∷ jids ↦
            let done = ban_each d m.owner (owner_is_admin m.owner m.participants) (jid ∷ jids) in
            (ok done.0, done.1)
      ]
