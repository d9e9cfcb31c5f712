-- ===== src/Editor.antt =====
-- bot/application/config_editor.py: the edits of a chat's configuration that `,config` asks for. The
-- store is any that has the port; the registry is that of the commands.
pub mod Writes
pub mod Edits
use resenhazord.Prelude.{
  ℕ, String, Bool, true, false, not, ◌&&◌, Option, none, some, List, [], ◌∷◌, if◌then◌else◌, ◌==◌,
  get_elem?, string_eq, nat_eq, pair_eq,
}
use resenhazord.Prelude.Dict.{Dict}
use resenhazord.Text.{Unicode, concat}
use resenhazord.Text.Split.{split, join, sorted}
use resenhazord.Command.{
  Category, random, download, group, information, category_eq, nsfw, scope_eq, CommandConfig,
  CommandData, or_empty,
}
use resenhazord.Command.Run.{Command}
use resenhazord.Config.{
  ChatType, group_chat, private_chat, ChatPolicy, open_policy, curated_policy, ChatKey, ChatConfig,
}
use resenhazord.Config.Store.{ConfigStore}
use resenhazord.Config.Service.{is_togglable}
use resenhazord.Registry.{Registry, index_by_name}

abbrev pub help : String
help =
    concat "Use: *,config on|off|reset <comando|nsfw|download|group|random|info>* "
      "ou *,config policy open|curated*."

abbrev pub invalid : String → String
invalid token = concat "❓ Não reconheço *" (concat token "* como comando ou tipo configurável.")

abbrev pub unknown_policy : String
unknown_policy = "❓ Política inválida. Use *open* ou *curated*."

-- SUBTYPE_CATEGORIES.get(token)
abbrev pub subtype_category : String → Option Category
subtype_category token =
    if token == "download"
    then some download
    else if token == "group"
    then some group
    else if token == "random"
    then some random
    else if token == "info"
    then some information
    else none

abbrev pub has_category : Category → CommandConfig → Bool
has_category category config = elim config.category [ none ↦ false | some c ↦ c == category ]

-- _key
abbrev pub key_of_chat : CommandData → ChatKey
key_of_chat d = record {
  platform = or_empty d.platform;
  native_id = d.jid;
  type = if d.is_group then group_chat else private_chat;
}

abbrev pub policy_value : ChatPolicy → String
policy_value open_policy = "open"
policy_value curated_policy = "curated"

-- ChatPolicy(token.lower()), where the token is the value of a member
abbrev pub policy_of : String → Option ChatPolicy
policy_of token =
    if token == "open"
    then some open_policy
    else if token == "curated"
    then some curated_policy
    else none

-- The commands that are `on`, or those that are not.
unfoldable pub names_that_are : Bool → Dict String Bool → List String
names_that_are on [] = []
names_that_are on ((name, enabled) ∷ overrides) =
    let rest = names_that_are on overrides in
    if (if on then enabled else not enabled) then name ∷ rest else rest

abbrev pub status_line : String → List String → String
status_line mark [] = concat mark " —"
status_line mark names = concat mark (concat " " (join ", " names))

-- _format_status
unfoldable pub format_status : ChatConfig → String
unfolding names_that_are sorted join
format_status config = join "\n" (
    concat "*Config deste chat* (política: " (concat (policy_value config.policy) ")")
    ∷ status_line "✅" (sorted (names_that_are true config.overrides))
    ∷ status_line "🚫" (sorted (names_that_are false config.overrides))
    ∷ [])

abbrev pub first_or_empty : List String → String
first_or_empty [] = ""
first_or_empty (x ∷ xs) = x

module _ {W : Type 0} where
  -- The names of the commands of `_togglable` that pass a test.
  unfoldable pub togglable_names : (CommandConfig → Bool) → List (Command W) → List String
  togglable_names test [] = []
  togglable_names test (c ∷ commands) =
      let rest = togglable_names test commands in
      if is_togglable c.config.scope && test c.config then c.config.name ∷ rest else rest

  abbrev pub named_only : Option (Command W) → List String
  named_only none = []
  named_only (some c) = if is_togglable c.config.scope then c.config.name ∷ [] else []

  abbrev pub command_at : Registry W → Option ℕ → Option (Command W)
  command_at r none = none
  command_at r (some i) = get_elem? r.commands i

  -- _resolve, of a token in lower case
  unfoldable pub resolve_lower : Unicode → Registry W → String → List String
  unfolding togglable_names
  resolve_lower u r token =
      if token == "nsfw"
      then togglable_names (λ config. config.scope == nsfw) r.commands
      else elim (subtype_category token) [
        | some category ↦ togglable_names (has_category category) r.commands
        | none ↦ named_only (command_at r (index_by_name u r token))
      ]

  unfoldable pub resolve : Unicode → Registry W → String → List String
  unfolding resolve_lower
  resolve u r token = resolve_lower u r (u.lower token)

module _ {S : Type 0} where
  unfoldable pub write_each : (S → String → S) → S → List String → S
  write_each write s [] = s
  write_each write s (name ∷ names) = write_each write (write s name) names

module _ {W S : Type 0} (u : Unicode) (r : Registry W) (c : ConfigStore S) where
  -- The writes of `_write_override` and `_reset`, and the reply.
  unfoldable pub write_targets : (S → String → S) → String → S → String → String × S
  unfolding write_each
  write_targets write label s token = elim (resolve u r token) [
    | [] ↦ (invalid token, s)
    | name ∷ names ↦
        (concat label (concat ": " (join ", " (name ∷ names))), write_each write s (name ∷ names))
  ]

  unfoldable pub write_override : Bool → String → S → CommandData → String → String × S
  unfolding write_targets
  write_override enabled label s d token =
      write_targets (λ s' name. c.set_override s' (key_of_chat d) name enabled) label s token

  unfoldable pub reset : S → CommandData → String → String × S
  unfolding write_targets
  reset s d token =
      write_targets (λ s' name. c.clear_override s' (key_of_chat d) name)
        "↩\u{fe0f} Resetado ao padrão" s token

  unfoldable pub set_policy : S → CommandData → String → String × S
  set_policy s d token = elim (policy_of (u.lower token)) [
    | none ↦ (unknown_policy, s)
    | some policy ↦ (
      concat "⚙\u{fe0f} Política deste chat: *" (concat (policy_value policy) "*"),
      c.set_policy s (key_of_chat d) policy,
    )
  ]

  -- the handler of a verb, or the help
  unfoldable pub run_verb : S → CommandData → String → String → String × S
  unfolding write_override reset set_policy
  run_verb s d verb argument =
      if verb == "on"
      then write_override true "✅ Ativado" s d argument
      else if verb == "off"
      then write_override false "🚫 Desativado" s d argument
      else if verb == "reset"
      then reset s d argument
      else if verb == "policy"
      then set_policy s d argument
      else (help, s)

  -- The reply, and the store after it.
  unfoldable pub apply : S → CommandData → String → String × S
  unfolding run_verb format_status
  apply s d rest = elim (split rest) [
    | [] ↦ (format_status (c.load s (or_empty d.platform) d.jid), s)
    | verb ∷ arguments ↦ run_verb s d (u.lower verb) (first_or_empty arguments)
  ]
