-- ===== src/Config.antt =====
-- Which commands a chat allows: bot/domain/models/chat_config.py.
pub mod Store
pub mod Service
pub mod Sql
pub mod Cache
use resenhazord.Prelude.{String, Bool, Option, [], string_eq, nat_eq, pair_eq}
use resenhazord.Prelude.Dict
use resenhazord.Prelude.Dict.{Dict}

pub data ChatType : Type 0 where
  group_chat private_chat : ChatType

pub data ChatPolicy : Type 0 where
  open_policy curated_policy : ChatPolicy

pub record ChatKey : Type 0 where
  pub platform : String
  pub native_id : String
  pub type : ChatType

pub record ChatConfig : Type 0 where
  pub policy : ChatPolicy
  pub overrides : Dict String Bool

-- ChatConfig()
abbrev pub default_chat : ChatConfig
default_chat = record { policy = open_policy; overrides = [] }

abbrev pub override_for : ChatConfig → String → Option Bool
override_for c name = Dict.get c.overrides name
