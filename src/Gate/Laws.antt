-- ===== src/Gate/Laws.antt =====
-- When `admit` of bot/application/command_gate.py lets a command run.
use resenhazord.Prelude.{ℕ, ◌≤◌, String, ◌≡◌, ◌≢◌, ◌↔◌, ◌⊎◌, Bool, true, none, arith, if◌then◌else◌}
use resenhazord.Text.{Unicode}
use resenhazord.Command.{public, nsfw, disabled, dev, CommandConfig, CommandData, or_empty}
use resenhazord.Config.{ChatConfig}
use resenhazord.Config.Service.{is_enabled, resolve}
use resenhazord.DevList.{DevList, is_dev}
use resenhazord.Gate.{dev_key, admit}

module _ {S : Type 0} (u : Unicode) (load : S → String → String → ChatConfig × S) (devs : DevList)
    (s : S) (config : CommandConfig) (d : CommandData) (repeat : ℕ) where
  -- The sender is on the list of developers.
  abbrev pub is_listed : Bool
  is_listed = is_dev u devs (dev_key d)

  -- What the chat's configuration says of the command.
  abbrev pub is_on : Bool
  is_on = resolve (load s (or_empty d.platform) d.jid).0 config.name config.scope

  -- A command is let through exactly when it is not disabled, a command for developers is asked for
  -- by one of them, and a command that chats can switch is on in this chat.
  pub admit-none_iff : ((admit u load devs s config d repeat).0 ≡ none) ↔ (
      (config.scope ≢ disabled)
      × (config.scope ≡ dev → is_listed ≡ true)
      × ((config.scope ≡ public) ⊎ (config.scope ≡ nsfw) → is_on ≡ true))
  unfolding admit is_enabled
  admit-none_iff = ground arith

  -- How often an admitted command runs: a batch only for developers, everybody else once.
  pub admit-repeat :
      1 ≤ repeat
      → (admit u load devs s config d repeat).0 ≡ none
      → (admit u load devs s config d repeat).1 ≡ (if is_listed then repeat else 1)
  unfolding admit is_enabled
  admit-repeat h = ground arith
