-- ===== src/Birthday/Book.antt =====
-- bot/domain/services/birthday_book.py, with the queries of bot/domain/services/birthday_calendar.py.
-- The two collections are dictionaries by `_id`.
use resenhazord.Prelude.{
  ℕ, ◌+◌, String, Bool, ◌&&◌, Option, none, some, List, [], ◌∷◌, ◌++◌, map, if◌then◌else◌, ◌==◌,
  string_eq, nat_eq, pair_eq,
}
use resenhazord.Prelude.Dict
use resenhazord.Prelude.Dict.{Dict}
use resenhazord.Text.{Unicode, concat}
use resenhazord.Jid.{normalize_jid, normalize_jids}
use resenhazord.Command.Run.{contains}
use resenhazord.Birthday.{Date, Document, dates_celebrated, is_celebrated}

-- bot/domain/models/birthday.py
pub record Birthday : Type 0 where
  pub user_jid : String
  pub date : Date

pub record Book : Type 0 where
  pub birthdays : Dict String Document
  pub messages : Dict String String

module _ (u : Unicode) where
  unfoldable pub id_of : String → String → String
  unfolding normalize_jid
  id_of chat user = concat chat (concat ":" (normalize_jid u user))

  unfoldable pub register_each :
      Dict String Document → String → List Birthday → Dict String Document
  unfolding id_of normalize_jid
  register_each docs chat [] = docs
  register_each docs chat (b ∷ birthdays) =
      register_each
        (Dict.put docs (id_of chat b.user_jid)
          (record { chat_jid = chat; user_jid = normalize_jid u b.user_jid; date = b.date }))
        chat birthdays

  -- register: one update for each birthday, in order
  abbrev pub register : Book → String → List Birthday → Book
  register book chat birthdays = record book {
    birthdays = register_each book.birthdays chat birthdays;
  }

  abbrev pub is_target : String → List String → Document → Bool
  is_target chat users x =
      x.chat_jid == chat && contains x.user_jid (normalize_jids u (map some users))

  -- The documents that delete_many leaves, and how many it deletes.
  unfoldable pub delete_many :
      String → List String → Dict String Document → Dict String Document × ℕ
  unfolding normalize_jids contains
  delete_many chat users [] = ([], 0)
  delete_many chat users ((id, x) ∷ docs) =
      let (kept, deleted) = delete_many chat users docs in
      if is_target chat users x then (kept, deleted + 1) else ((id, x) ∷ kept, deleted)

  -- remove
  abbrev pub remove : Book → String → List String → ℕ × Book
  remove book chat users =
      let (kept, deleted) = delete_many chat users book.birthdays in
      (deleted, record book { birthdays = kept })

-- save_message
abbrev pub save_message : Book → String → String → Book
save_message book chat text = record book { messages = Dict.put book.messages chat text }

-- of_chat
unfoldable pub birthdays_of : String → Dict String Document → List Birthday
birthdays_of chat [] = []
birthdays_of chat ((id, x) ∷ docs) =
    let rest = birthdays_of chat docs in
    if x.chat_jid == chat then record { user_jid = x.user_jid; date = x.date } ∷ rest else rest

-- message_for
abbrev pub message_for : Book → String → Option String
message_for book chat = Dict.get book.messages chat

-- celebrants[chat].append(user), of a defaultdict
abbrev pub append_to : Dict String (List String) → String → String → Dict String (List String)
append_to celebrants chat user =
    Dict.put celebrants chat
      (elim (Dict.get celebrants chat) [ none ↦ user ∷ [] | some users ↦ users ++ user ∷ [] ])

unfoldable pub gather :
    List Date → Dict String (List String) → Dict String Document → Dict String (List String)
unfolding is_celebrated
gather dates celebrants [] = celebrants
gather dates celebrants ((id, x) ∷ docs) =
    gather dates
      (if is_celebrated dates x.date
        then append_to celebrants x.chat_jid x.user_jid
        else celebrants)
      docs

-- on
abbrev pub on : Book → ℕ → Date → Dict String (List String)
on book year today = gather (dates_celebrated year today) [] book.birthdays
