-- ===== src/Gate.antt =====
-- bot/application/command_gate.py: whether a command may run in a chat, and how often.
pub mod Laws
use resenhazord.Prelude.{
  ℕ, String, Bool, false, not, ◌&&◌, ◌||◌, Option, none, some, List, [], ◌∷◌, ltb, if◌then◌else◌,
  ◌==◌, string_eq, nat_eq, pair_eq,
}
use resenhazord.Text.{Unicode, concat}
use resenhazord.Command.{CommandScope, disabled, dev, scope_eq, CommandConfig, CommandData}
use resenhazord.Message.{BotMessage, reply_text}
use resenhazord.Config.{ChatConfig}
use resenhazord.Config.Service.{is_enabled}
use resenhazord.DevList.{DevList, is_dev}

pub data Reason : Type 0 where
  disabled_command dev_only off_here : Reason

-- _MESSAGES, with COMMAND_OFF_IN_CHAT of bot/domain/constants.py
abbrev pub message_of : Reason → String
message_of disabled_command = "Esse comando está desativado. 🚫"
message_of dev_only = "Esse comando é apenas para desenvolvedores. 🛠\u{fe0f}"
message_of off_here = "Esse comando está desativado neste chat. 🚫"

-- `data.platform in cls._NAMESPACED_PLATFORMS`
abbrev pub is_namespaced_platform : Option String → Bool
is_namespaced_platform none = false
is_namespaced_platform (some p) = p == "discord" || p == "telegram"

abbrev pub dev_key : CommandData → String
dev_key d = elim d.platform [
  | none ↦ d.sender_jid
  | some p ↦
      if is_namespaced_platform (some p) then concat p (concat ":" d.sender_jid) else d.sender_jid
]

module _ {S : Type 0} (u : Unicode) (load : S → String → String → ChatConfig × S)
    (devs : DevList) where
  -- _is_dev: only a command for developers or a batch is looked up
  unfoldable pub is_dev_for : CommandConfig → CommandData → ℕ → Bool
  is_dev_for config d repeat =
      if not (config.scope == dev) && repeat == 1 then false else is_dev u devs (dev_key d)

  -- _reason
  unfoldable pub reason : S → CommandConfig → CommandData → Bool → Option Reason × S
  reason s config d is_dev' =
      if config.scope == disabled
      then (some disabled_command, s)
      else if config.scope == dev && not is_dev'
      then (some dev_only, s)
      else let (enabled, s') = is_enabled load s d config in
        (if enabled then none else some off_here, s')

  -- admit: the rejection or none, how often to run, and the state of the store
  unfoldable pub admit : S → CommandConfig → CommandData → ℕ → Option (List BotMessage) × ℕ × S
  unfolding reason is_dev_for
  admit s config d repeat =
      let is_dev' = is_dev_for config d repeat in
      let (why, s') = reason s config d is_dev' in
      elim why [
        | some r ↦ (some (reply_text d (message_of r) ∷ []), repeat, s')
        | none ↦ (none, if ltb 1 repeat && not is_dev' then 1 else repeat, s')
      ]
