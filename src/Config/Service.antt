-- ===== src/Config/Service.antt =====
-- bot/application/config_service.py over bot/data/config_defaults.py: whether a chat allows a
-- command. The store is a function that may change its own state, as the cached store does.
use resenhazord.Prelude.{
  String, Bool, true, false, not, ◌||◌, none, some, if◌then◌else◌, ◌==◌, string_eq, nat_eq, pair_eq,
}
use resenhazord.Command.{CommandScope, public, nsfw, scope_eq, CommandConfig, CommandData, or_empty}
use resenhazord.Config.{ChatPolicy, open_policy, curated_policy, ChatConfig, override_for}

-- scope in TOGGLABLE_SCOPES
abbrev pub is_togglable : CommandScope → Bool
is_togglable scope = scope == public || scope == nsfw

-- SCOPE_DEFAULT_ENABLED[scope], whose keys are the scopes that can be toggled
abbrev pub scope_default_enabled : CommandScope → Bool
scope_default_enabled scope = scope == public

-- `curated` allows nothing by itself
abbrev pub by_policy : ChatPolicy → CommandScope → Bool
by_policy curated_policy scope = false
by_policy open_policy scope = scope_default_enabled scope

unfoldable pub resolve : ChatConfig → String → CommandScope → Bool
resolve chat command_name scope = elim (override_for chat command_name) [
  | some on ↦ on
  | none ↦ by_policy chat.policy scope
]

module _ {S : Type 0} (load : S → String → String → ChatConfig × S) where
  unfoldable pub is_enabled : S → CommandData → CommandConfig → Bool × S
  is_enabled s d config =
      if not (is_togglable config.scope)
      then (true, s)
      else let (chat, s') = load s (or_empty d.platform) d.jid in
        (resolve chat config.name config.scope, s')
