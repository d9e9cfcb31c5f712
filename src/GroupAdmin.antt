-- ===== src/GroupAdmin.antt =====
-- The commands of a group's administrators: bot/domain/services/group_admin.py with ban.py, adm.py
-- and config.py of bot/domain/commands/. The gateway's answer about the group is an argument,
-- none where the request raises, and so is whether it removes a participant. What a command
-- asks the gateway to do is part of its result, in order. A random choice is the number that was drawn.
pub mod Ban
pub mod Safe
use resenhazord.Prelude.{
  String, ◌≡◌, refl, ap, ◌∙◌, ◌≢◌, inl, inr, Bool, true, false, not, ◌||◌, Option, none, some, List,
  [], ◌∷◌, if◌then◌else◌, Bool-cases, Option-cases, ◌==◌, string_eq, nat_eq, pair_eq,
}
use resenhazord.Text.{Unicode, concat}
use resenhazord.Text.Split.{join}
use resenhazord.Jid.{strip_jid}
use resenhazord.Command.{
  CommandConfig, CommandData, default_config, optional, group, admin, all, or_empty, some_text,
}
use resenhazord.Command.Run.{ParsedCommand, Raised, unexpected, Result, ok, raised}
use resenhazord.Message.{BotMessage, reply_text, reply_text_with}
use resenhazord.Config.Store.{ConfigStore}
use resenhazord.Registry.{Registry}
use resenhazord.Editor.{apply}

-- A member of the group, as the gateway lists it: `admin` is null for an ordinary one.
pub record Participant : Type 0 where
  pub id : String
  pub admin : Option String

pub record Metadata : Type 0 where
  pub participants : List Participant
  pub owner : Option String

abbrev pub truthy : Option String → Bool
truthy o = elim (some_text o) [ none ↦ false | some s ↦ true ]

-- The admin field of the first entry with the id; false where there is none.
unfoldable pub is_admin_entry : String → List Participant → Bool
is_admin_entry jid [] = false
is_admin_entry jid (p ∷ participants) =
    if p.id == jid then truthy p.admin else is_admin_entry jid participants

-- data.participant or data.sender_jid
abbrev pub sender_of : CommandData → String
sender_of d = elim (some_text d.participant) [ none ↦ d.sender_jid | some p ↦ p ]

-- GroupAdminService.is_sender_admin
unfoldable pub is_sender_admin : CommandData → List Participant → Bool
unfolding is_admin_entry
is_sender_admin d participants = elim d.is_admin [
  | some known ↦ known
  | none ↦ is_admin_entry (sender_of d) participants
]

abbrev pub by_metadata : CommandData → Option Metadata → Option Bool
by_metadata d none = none
by_metadata d (some m) = some (is_sender_admin d m.participants)

-- GroupAdminService.is_authorized; `port` is whether there is a WhatsApp port. None: the request raised.
unfoldable pub is_authorized : Bool → Option Metadata → CommandData → Option Bool
unfolding is_sender_admin
is_authorized port metadata d = if not d.is_group then some true else elim d.is_admin [
  | some known ↦ some known
  | none ↦
      if not (or_empty d.platform == "whatsapp") || not port
      then some false
      else by_metadata d metadata
]

-- AdmCommand
abbrev pub adm_config : CommandConfig
adm_config = record (default_config "adm") { group_only = true; category = some group }

unfoldable pub admins_of : List Participant → List String
admins_of [] = []
admins_of (p ∷ participants) =
    let rest = admins_of participants in if truthy p.admin then p.id ∷ rest else rest

unfoldable pub admin_mentions : Unicode → List String → String
unfolding strip_jid
admin_mentions u [] = ""
admin_mentions u (jid ∷ jids) =
    concat "@" (concat (strip_jid u jid) (concat " " (admin_mentions u jids)))

-- AdmCommand.execute, with the phrase that was drawn
unfoldable pub call_admins :
    Unicode → String → CommandData → Option Metadata → Result (List BotMessage)
unfolding admins_of admin_mentions
call_admins u swearing d none = raised unexpected
call_admins u swearing d (some m) =
    let jids = admins_of m.participants in
    let text =
      concat "Fala, administração! 😏\nVocê é "
        (concat swearing (concat "\n" (admin_mentions u jids))) in
    ok (reply_text_with d text jids ∷ [])

-- ConfigCommand
abbrev pub config_config : CommandConfig
config_config = record (default_config "config") {
  args = optional;
  args_label = some "subcomando";
  scope = admin;
  category = some group;
  platforms = all ∷ [];
}

abbrev pub not_admin_message : String
not_admin_message = "Só admin configura os comandos do chat. 🙅"

abbrev pub edited : {S : Type 0} → CommandData → String × S → Result (List BotMessage) × S
edited d (text, s) = (ok (reply_text d text ∷ []), s)

module _ {S W : Type 0} (u : Unicode) (r : Registry W) (c : ConfigStore S) where
  -- ConfigCommand.execute, with the editor
  unfoldable pub configure :
      Bool → Option Metadata → S → CommandData → ParsedCommand → Result (List BotMessage) × S
  unfolding is_authorized apply
  configure port metadata s d parsed = elim (is_authorized port metadata d) [
    | none ↦ (raised unexpected, s)
    | some allowed ↦
        if allowed
        then edited d (apply u r c s d parsed.rest)
        else (ok (reply_text d not_admin_message ∷ []), s)
  ]

  -- Whoever is not an administrator changes nothing, whatever is asked for.
  pub configure-unauthorized :
      (port : Bool) (metadata : Option Metadata) (s : S) (d : CommandData) (parsed : ParsedCommand)
      → is_authorized port metadata d ≢ some true
      → (configure port metadata s d parsed).1 ≡ s
  unfolding configure
  configure-unauthorized port metadata s d parsed h =
      elim (Option-cases (is_authorized port metadata d)) [
        | inl broken ↦ rw (broken, configure) refl
        | inr (allowed, e) ↦ elim (Bool-cases allowed) [
          | inl yes_it_is ↦ absurd (h (e ∙ ap some yes_it_is))
          | inr no_it_is_not ↦ rw (e, no_it_is_not, configure) refl
        ]
      ]
