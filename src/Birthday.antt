-- ===== src/Birthday.antt =====
-- bot/domain/services/birthday_calendar.py: which birthdays a day celebrates. A date is its day and its
-- month; the query of the collection asks for those that are celebrated.
pub mod Yearly
pub mod Book
pub mod Scheduler
pub mod Once
pub mod Command
use resenhazord.Prelude.{
  ℕ, ◌%◌, String, Bool, false, not, ◌&&◌, ◌||◌, List, [], ◌∷◌, if◌then◌else◌, ◌==◌, string_eq,
  nat_eq, pair_eq,
}

abbrev pub Date : Type 0
Date = ℕ × ℕ

abbrev pub leap_day : Date
leap_day = (29, 2)

abbrev pub last_day_of_february : Date
last_day_of_february = (28, 2)

-- calendar.isleap
abbrev pub isleap : ℕ → Bool
isleap year = year % 4 == 0 && (not (year % 100 == 0) || year % 400 == 0)

-- _dates_celebrated
unfoldable pub dates_celebrated : ℕ → Date → List Date
dates_celebrated year today =
    if today == last_day_of_february && not (isleap year) then today ∷ leap_day ∷ [] else today ∷ []

-- The filter of `on`: the birthdays of the collection that one of the dates matches.
unfoldable pub is_celebrated : List Date → Date → Bool
is_celebrated [] birthday = false
is_celebrated (date ∷ dates) birthday = date == birthday || is_celebrated dates birthday

-- `defaultdict(list)` by chat, in the order of the documents: a document is its chat, its user and its
-- date.
pub record Document : Type 0 where
  pub chat_jid : String
  pub user_jid : String
  pub date : Date

unfoldable pub celebrants_of : List Date → String → List Document → List String
unfolding is_celebrated
celebrants_of dates chat [] = []
celebrants_of dates chat (x ∷ documents) =
    let rest = celebrants_of dates chat documents in
    if is_celebrated dates x.date && x.chat_jid == chat then x.user_jid ∷ rest else rest
