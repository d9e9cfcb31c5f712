-- ===== src/Command.antt =====
-- The types that describe commands and what they receive: bot/domain/commands/base.py and
-- bot/domain/models/command_data.py.
pub mod Run
use resenhazord.Prelude.{
  ℕ, String, ◌≡◌, ◌↔◌, Bool, true, false, Option, none, some, List, [], ◌∷◌, arith, if◌then◌else◌,
  Eq, ◌==◌, string_eq, nat_eq, pair_eq,
}

pub data ArgType : Type 0 where
  no_args required optional : ArgType

-- The values are strings, so a platform name read from a message compares with them.
pub data Platform : Type 0 where
  whatsapp discord telegram all : Platform

abbrev pub platform_value : Platform → String
platform_value whatsapp = "whatsapp"
platform_value discord = "discord"
platform_value telegram = "telegram"
platform_value all = "all"

pub data Category : Type 0 where
  random download group information other : Category

pub data CommandScope : Type 0 where
  public internal disabled admin nsfw dev : CommandScope

abbrev pub scope_index : CommandScope → ℕ
scope_index public = 0
scope_index internal = 1
scope_index disabled = 2
scope_index admin = 3
scope_index nsfw = 4
scope_index dev = 5

abbrev pub scope_beq : CommandScope → CommandScope → Bool
scope_beq a b = scope_index a == scope_index b

pub scope_beq_iff : (a b : CommandScope) → (scope_beq a b ≡ true) ↔ (a ≡ b)
scope_beq_iff a b = ground arith

instance abbrev pub scope_eq : Eq CommandScope
scope_eq = record { beq = scope_beq; beq_iff = scope_beq_iff }

abbrev pub category_index : Category → ℕ
category_index random = 0
category_index download = 1
category_index group = 2
category_index information = 3
category_index other = 4

abbrev pub category_beq : Category → Category → Bool
category_beq a b = category_index a == category_index b

pub category_beq_iff : (a b : Category) → (category_beq a b ≡ true) ↔ (a ≡ b)
category_beq_iff a b = ground arith

instance abbrev pub category_eq : Eq Category
category_eq = record { beq = category_beq; beq_iff = category_beq_iff }

pub record OptionDef : Type 0 where
  pub name : String
  pub values : List String
  pub pattern_text : Option String
  pub description : Option String

pub record CommandConfig : Type 0 where
  pub name : String
  pub aliases : List String
  pub flags : List String
  pub options : List OptionDef
  pub args : ArgType
  pub args_pattern : Option String
  pub args_label : Option String
  pub scope : CommandScope
  pub group_only : Bool
  pub category : Option Category
  pub platforms : List Platform
  pub exclusive : Bool

-- `CommandConfig(name=name)`: every other field at its default
abbrev pub default_config : String → CommandConfig
default_config n = record {
  name = n;
  aliases = [];
  flags = [];
  options = [];
  args = no_args;
  args_pattern = none;
  args_label = none;
  scope = public;
  group_only = false;
  category = none;
  platforms = whatsapp ∷ [];
  exclusive = false;
}

pub record CommandData : Type 0 where
  pub text : String
  pub jid : String
  pub sender_jid : String
  pub participant : Option String
  pub is_group : Bool
  pub expiration : Option ℕ
  pub mentioned_jids : List String
  pub quoted_message_id : Option String
  pub quoted_text : Option String
  pub media_type : Option String
  pub media_source : Option String
  pub media_is_animated : Bool
  pub media_caption : Option String
  pub media_buffer : Option (List ℕ)
  pub message_id : Option String
  pub push_name : Option String
  pub platform : Option String
  pub is_admin : Option Bool

-- The required fields, with every other field at its default.
abbrev pub default_data : String → String → String → CommandData
default_data t j s = record {
  text = t;
  jid = j;
  sender_jid = s;
  participant = none;
  is_group = false;
  expiration = none;
  mentioned_jids = [];
  quoted_message_id = none;
  quoted_text = none;
  media_type = none;
  media_source = none;
  media_is_animated = false;
  media_caption = none;
  media_buffer = none;
  message_id = none;
  push_name = none;
  platform = none;
  is_admin = none;
}

-- data.platform or ''
abbrev pub or_empty : Option String → String
or_empty none = ""
or_empty (some s) = s

-- A text that is read for its truth: an empty one is none.
abbrev pub some_text : Option String → Option String
some_text none = none
some_text (some s) = if s == "" then none else some s
