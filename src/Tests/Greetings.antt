-- ===== src/Tests/Greetings.antt =====
-- Birthdays, their command and their greetings at concrete inputs.
use resenhazord.Prelude.{◌≤◌, String, ◌≡◌, refl, true, List, [], ◌∷◌, string_eq, nat_eq, pair_eq}
use resenhazord.Prelude.Dict
use resenhazord.Text.Examples.{ascii}
use resenhazord.Text.Regex.{literal, findall}
use resenhazord.Text.Split.{join}
use resenhazord.Command.{CommandData, default_data}
use resenhazord.Command.Run.{ParsedCommand}
use resenhazord.Message.{reply_text, reply_text_with}
use resenhazord.Birthday.{dates_celebrated}
use resenhazord.Birthday.Book.{Book, on, register_each, gather}
use resenhazord.Birthday.Command.{execute}
use resenhazord.Birthday.Scheduler.{Run, greetings}
use resenhazord.Birthday.Once.{greeted, greetings-once}

abbrev empty_book : Book
empty_book = record { birthdays = []; messages = [] }

abbrev said : String → ParsedCommand
said rest = record { command_name = "niver"; flags = []; options = []; rest = rest }

abbrev asking : CommandData
asking = record (default_data "" "1@g.us" "7@lid") { mentioned_jids = "8:2@lid" ∷ "9@lid" ∷ [] }

-- Two members at once; the device of an id is left out in the book.
abbrev full_book : Book
full_book = record {
  birthdays =
      ("1@g.us:8@lid", record { chat_jid = "1@g.us"; user_jid = "8@lid"; date = (29, 2) })
      ∷ ("1@g.us:9@lid", record { chat_jid = "1@g.us"; user_jid = "9@lid"; date = (1, 12) })
      ∷ [];
  messages = [];
}

register_run : execute ascii (5, 3) empty_book asking (said "@8 29/2 @9 01/12") ≡ (
  reply_text_with asking "🎂 Anotado!\n\n- @8:2 29/02\n- @9 01/12" ("8:2@lid" ∷ "9@lid" ∷ []) ∷ [],
  full_book,
)
unfolding execute register_each Dict.get Dict.put findall literal join
register_run = refl

impossible_run :
    execute ascii (5, 3) empty_book (record asking { mentioned_jids = [] }) (said "30/02")
    ≡ (reply_text asking "30/02 não existe no calendário 🤨" ∷ [], empty_book)
unfolding execute Dict.get literal
impossible_run = refl

-- The birthdays that are over this year come last.
list_run : (execute ascii (1, 3) full_book asking (said "")).0 ≡ (
    reply_text_with asking "🎂 *ANIVERSÁRIOS* 🎂\n\n- 01/12 @9\n- 29/02 @8" ("9@lid" ∷ "8@lid" ∷ [])
    ∷ [])
unfolding execute join
list_run = refl

on_run : on full_book 2023 (28, 2) ≡ (("1@g.us", "8@lid" ∷ []) ∷ [])
unfolding gather dates_celebrated Dict.get Dict.put
on_run = refl

-- A run, and another after a restart.
abbrev twice : List Run
twice = let today : Run = ((λ c. true), full_book, on full_book 2023 (28, 2)) in today ∷ today ∷ []

greetings-once_example : greeted "1@g.us" (greetings ascii "2023-02-28" [] twice) ≤ 1
greetings-once_example = greetings-once ascii "2023-02-28" "1@g.us" twice []
