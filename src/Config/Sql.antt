-- ===== src/Config/Sql.antt =====
-- bot/infrastructure/config_store.py over the two tables of bot/infrastructure/config_tables.py.
-- Each table is keyed by the columns of its unique constraint, so `ON CONFLICT DO UPDATE` is a write
-- to a dictionary. Fresh ids come from a counter, and timestamps are left out.
pub mod Rows
pub mod Laws
use resenhazord.Prelude.{
  ℕ, suc, ◌≤◌, ◌<◌, String, ◌≡◌, Bool, Option, none, some, [], ◌∷◌, if◌then◌else◌, ◌==◌, string_eq,
  nat_eq, pair_eq,
}
use resenhazord.Prelude.Dict
use resenhazord.Prelude.Dict.{Dict}
use resenhazord.Config.{ChatType, ChatPolicy, open_policy, ChatKey, ChatConfig, default_chat}
use resenhazord.Config.Store.{ConfigStore}

pub record ChatRow : Type 0 where
  pub id : ℕ
  pub type : ChatType
  pub default_policy : ChatPolicy

pub record Tables : Type 0 where
  -- by (platform, native_id)
  pub chats : Dict (String × String) ChatRow
  -- by (chat_id, command_name): the column `enabled`
  pub overrides : Dict (ℕ × String) Bool
  pub next_id : ℕ

abbrev pub no_tables : Tables
no_tables = record { chats = []; overrides = []; next_id = 0 }

abbrev pub reference : ChatKey → String × String
reference k = (k.platform, k.native_id)

-- The rows of the relationship `chat.overrides`, as the dictionary that `load` makes of them.
unfoldable pub overrides_of : ℕ → Dict (ℕ × String) Bool → Dict String Bool
overrides_of i [] = []
overrides_of i ((key, on) ∷ rows) =
    let rest = overrides_of i rows in if key.0 == i then (key.1, on) ∷ rest else rest

-- _find and load
unfoldable pub load : Tables → String → String → ChatConfig
load db platform native_id = elim (Dict.get db.chats (platform, native_id)) [
  | none ↦ default_chat
  | some chat ↦ record {
    policy = chat.default_policy;
    overrides = overrides_of chat.id db.overrides;
  }
]

-- the column default, where the statement gives no policy
abbrev pub policy_or : Option ChatPolicy → ChatPolicy → ChatPolicy
policy_or none q = q
policy_or (some q) _ = q

-- The row that the statement of `_upsert_chat` leaves: a conflict updates only the fields given.
unfoldable pub upserted_row : Tables → ChatKey → Option ChatPolicy → Option ChatRow → ChatRow
upserted_row db key fields none = record {
  id = db.next_id;
  type = key.type;
  default_policy = policy_or fields open_policy;
}
upserted_row db key fields (some chat) = record chat {
  default_policy = policy_or fields chat.default_policy;
}

unfoldable pub next_after : Tables → Option ChatRow → ℕ
next_after db none = suc db.next_id
next_after db (some _) = db.next_id

-- _upsert_chat: the id of the chat, and the tables after the statement
unfoldable pub upsert_chat : Tables → ChatKey → Option ChatPolicy → ℕ × Tables
upsert_chat db key fields =
    let found = Dict.get db.chats (reference key) in
    let row = upserted_row db key fields found in
    (
      row.id,
      record db { chats = Dict.put db.chats (reference key) row; next_id = next_after db found },
    )

unfoldable pub set_override : Tables → ChatKey → String → Bool → Tables
set_override db key command_name enabled =
    let (chat_id, after) = upsert_chat db key none in
    record after { overrides = Dict.put after.overrides (chat_id, command_name) enabled }

-- The subquery of a chat that is not there is NULL, and deletes nothing.
unfoldable pub clear_override : Tables → ChatKey → String → Tables
clear_override db key command_name = elim (Dict.get db.chats (reference key)) [
  | none ↦ db
  | some chat ↦ record db { overrides = Dict.remove db.overrides (chat.id, command_name) }
]

unfoldable pub set_policy : Tables → ChatKey → ChatPolicy → Tables
set_policy db key policy = (upsert_chat db key (some policy)).1

abbrev pub sql_store : ConfigStore Tables
sql_store = record {
  load = load;
  set_override = set_override;
  clear_override = clear_override;
  set_policy = set_policy;
}

-- What the primary key, the foreign key and the fresh ids give.
pub record IsValid (db : Tables) : Type 0 where
  pub ids_below :
      (k : String × String) (r : ChatRow) → Dict.get db.chats k ≡ some r → r.id < db.next_id
  pub ids_apart :
      (k j : String × String) (r q : ChatRow)
      → Dict.get db.chats k ≡ some r
      → Dict.get db.chats j ≡ some q
      → r.id ≡ q.id
      → k ≡ j
  pub no_orphans : (i : ℕ) (name : String) → db.next_id ≤ i → Dict.get db.overrides (i, name) ≡ none
