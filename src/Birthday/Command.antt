-- ===== src/Birthday/Command.antt =====
-- bot/domain/commands/birthday.py: the command that keeps the birthdays of a chat. The number of days
-- in a month is that of a leap year, as the code asks for.
use Prim.Native.Char.{code}
use resenhazord.Prelude.{
  ℕ, ◌-◌, String, Bool, true, false, not, ◌&&◌, ◌||◌, none, some, List, [], ◌∷◌, ltb, leb,
  if◌then◌else◌, ◌==◌, get_or, string_eq, nat_eq, pair_eq,
}
use resenhazord.Prelude.Dict
use resenhazord.Prelude.Dict.{Dict}
use resenhazord.Text.{Unicode, concat, strip}
use resenhazord.Text.Decimal.{decimal_text}
use resenhazord.Text.Split.{join}
use resenhazord.Text.Regex.{
  Regex, seq, maybe, plus, group, space, literal, digit, fullmatch, findall,
}
use resenhazord.Jid.{strip_jid, normalize_jid}
use resenhazord.Command.{CommandConfig, CommandData, default_config, optional, some_text}
use resenhazord.Command
use resenhazord.Command.Run.{ParsedCommand}
use resenhazord.Message.{BotMessage, reply_text, reply_text_with}
use resenhazord.CommandText.{int_of}
use resenhazord.Mentions.Texts.{partition}
use resenhazord.Birthday.{Date}
use resenhazord.Birthday.Book.{Birthday, Book, register, remove, save_message, birthdays_of}

-- BirthdayCommand.config
abbrev pub birthday_config : CommandConfig
birthday_config = record (default_config "niver") {
  aliases = "aniversario" ∷ "aniversário" ∷ "birthday" ∷ [];
  args = optional;
  args_label = some "data";
  group_only = true;
  category = some Command.group;
}

-- DATE, and MENTION_WITH_DATE with its two groups
abbrev pub one_or_two : Unicode → Regex
one_or_two u = seq (digit u) (maybe (digit u))

abbrev pub date_pattern : Unicode → Regex
date_pattern u = seq (one_or_two u) (seq (literal "/") (one_or_two u))

abbrev pub mention_with_date : Unicode → Regex
mention_with_date u =
    seq (literal "@") (seq (group (plus (digit u))) (seq (plus space) (group (date_pattern u))))

abbrev pub usage : String
usage = "Manda assim: *,niver 21/02* ou *,niver @fulano 01/12* 🤔"

-- date(2000, month, day)
abbrev pub days_in : ℕ → ℕ
days_in month =
    get_or (31 ∷ 29 ∷ 31 ∷ 30 ∷ 31 ∷ 30 ∷ 31 ∷ 31 ∷ 30 ∷ 31 ∷ 30 ∷ 31 ∷ []) (month - 1) 0

abbrev pub is_date : Date → Bool
is_date (day, month) = leb 1 month && leb month 12 && leb 1 day && leb day (days_in month)

-- text.split('/') of a text with one slash
unfoldable pub at_slash : String → String × String
at_slash String.[] = ("", "")
at_slash (String.◌∷◌ c s) =
    let (before, after) = at_slash s in
    if code c == b'/' then ("", s) else (String.◌∷◌ c before, after)

abbrev pub date_of : Unicode → String → Date
date_of u text = let (day, month) = at_slash text in (int_of u 0 day, int_of u 0 month)

-- What `_parse` gives: the birthdays, or the message of an InvalidBirthdayError.
pub data Parsed : Type 0 where
  parsed_birthdays : List Birthday → Parsed
  invalid : String → Parsed

-- f'{birthday.day:02d}/{birthday.month:02d}'
abbrev pub two_digits : ℕ → String
two_digits n = if ltb n 10 then concat "0" (decimal_text n) else decimal_text n

abbrev pub format_date : Date → String
format_date (day, month) = concat (two_digits day) (concat "/" (two_digits month))

module _ (u : Unicode) where
  -- dict(findall(rest))
  unfoldable pub dates_from : Dict String String → List (List String) → Dict String String
  dates_from dates [] = dates
  dates_from dates ((number ∷ text ∷ groups) ∷ found) =
      dates_from (Dict.put dates number text) found
  dates_from dates (groups ∷ found) = dates_from dates found

  -- {strip_jid(normalize_jid(jid)): jid for jid in data.mentioned_jids}
  unfoldable pub by_number : Dict String String → List String → Dict String String
  unfolding strip_jid normalize_jid
  by_number numbers [] = numbers
  by_number numbers (jid ∷ jids) =
      by_number (Dict.put numbers (strip_jid u (normalize_jid u jid)) jid) jids

  abbrev pub has_key : Dict String String → String → Bool
  has_key d k = elim (Dict.get d k) [ none ↦ false | some v ↦ true ]

  unfoldable pub keys_in : Dict String String → Dict String String → Bool
  keys_in [] other = true
  keys_in ((k, v) ∷ d) other = has_key other k && keys_in d other

  abbrev pub with_birthday : String → String → Parsed → Parsed
  with_birthday user text (invalid message) = invalid message
  with_birthday user text (parsed_birthdays more) =
      parsed_birthdays (record { user_jid = user; date = date_of u text } ∷ more)

  -- _birthday for each of the dates: the first that is no date is the error
  unfoldable pub birthdays_from : Dict String String → Dict String String → Parsed
  unfolding at_slash int_of
  birthdays_from numbers [] = parsed_birthdays []
  birthdays_from numbers ((number, text) ∷ dates) =
      let more = birthdays_from numbers dates in
      if not (is_date (date_of u text))
      then invalid (concat text " não existe no calendário 🤨")
      else elim (Dict.get numbers number) [
        -- a KeyError, which equal keys exclude
        | none ↦ invalid usage
        | some user ↦ with_birthday user text more
      ]

  -- _parse
  unfoldable pub parse_birthdays : CommandData → String → Parsed
  unfolding birthdays_from dates_from by_number keys_in findall fullmatch literal
  parse_birthdays d rest = elim d.mentioned_jids [
    | [] ↦ elim (fullmatch u (date_pattern u) rest) [
      | none ↦ invalid usage
      | some m ↦ birthdays_from (("", d.sender_jid) ∷ []) (("", rest) ∷ [])
    ]
    | jid ∷ jids ↦
        let dates = dates_from [] (findall u (mention_with_date u) rest) in
        let numbers = by_number [] (jid ∷ jids) in
        if keys_in dates numbers && keys_in numbers dates
        then birthdays_from numbers dates
        else invalid usage
  ]

  unfoldable pub noted : List Birthday → List String
  unfolding strip_jid decimal_text
  noted [] = []
  noted (b ∷ birthdays) =
      concat "- @" (concat (strip_jid u b.user_jid) (concat " " (format_date b.date)))
      ∷ noted birthdays

  unfoldable pub listed : List Birthday → List String
  unfolding strip_jid decimal_text
  listed [] = []
  listed (b ∷ birthdays) =
      concat "- " (concat (format_date b.date) (concat " @" (strip_jid u b.user_jid)))
      ∷ listed birthdays

  abbrev pub users_of : List Birthday → List String
  users_of [] = []
  users_of (b ∷ birthdays) = b.user_jid ∷ users_of birthdays

  -- The key of `sorted`: the birthdays that are over this year come last.
  abbrev pub date_leb : Date → Date → Bool
  date_leb a b = ltb a.1 b.1 || a.1 == b.1 && leb a.0 b.0

  abbrev pub is_over : Date → Date → Bool
  is_over today date = not (date_leb today date)

  abbrev pub comes_before : Date → Date → Date → Bool
  comes_before today a b =
      if is_over today a then is_over today b && date_leb a b else is_over today b || date_leb a b

  unfoldable pub insert_upcoming : Date → Birthday → List Birthday → List Birthday
  insert_upcoming today b [] = b ∷ []
  insert_upcoming today b (x ∷ xs) =
      let rest = insert_upcoming today b xs in
      if comes_before today b.date x.date then b ∷ x ∷ xs else x ∷ rest

  unfoldable pub upcoming : Date → List Birthday → List Birthday
  unfolding insert_upcoming
  upcoming today [] = []
  upcoming today (b ∷ birthdays) = insert_upcoming today b (upcoming today birthdays)

  -- _list
  unfoldable pub list_birthdays : Date → Book → CommandData → List BotMessage
  unfolding upcoming birthdays_of listed join
  list_birthdays today book d = elim (birthdays_of d.jid book.birthdays) [
    | [] ↦ reply_text d "Ninguém cadastrou aniversário ainda 🎈" ∷ []
    | b ∷ bs ↦
        let sorted = upcoming today (b ∷ bs) in
        reply_text_with d (concat "🎂 *ANIVERSÁRIOS* 🎂\n\n" (join "\n" (listed sorted)))
          (users_of sorted)
        ∷ []
  ]

  -- _save
  abbrev pub save : Book → CommandData → List BotMessage × Book
  save book d = elim (some_text d.quoted_text) [
    | none ↦ (reply_text d "Responda a mensagem de parabéns com *,niver save* 🤔" ∷ [], book)
    | some text ↦
        (reply_text d "Mensagem de aniversário salva! 🎂" ∷ [], save_message book d.jid text)
  ]

  -- data.mentioned_jids or [data.sender_jid]
  abbrev pub targets_of : CommandData → List String
  targets_of d = elim d.mentioned_jids [ [] ↦ d.sender_jid ∷ [] | jid ∷ jids ↦ jid ∷ jids ]

  -- _remove
  abbrev pub remove_birthdays : Book → CommandData → List BotMessage × Book
  remove_birthdays book d =
      let (deleted, book') = remove u book d.jid (targets_of d) in
      (
        (if deleted == 0
            then reply_text d "Não achei esse aniversário 🤔" ∷ []
            else reply_text d "Aniversário removido! 🗑\u{fe0f}" ∷ []),
        book',
      )

  abbrev pub note : Book → CommandData → Parsed → List BotMessage × Book
  note book d (invalid message) = (reply_text d message ∷ [], book)
  note book d (parsed_birthdays birthdays) = (
    reply_text_with d (concat "🎂 Anotado!\n\n" (join "\n" (noted birthdays))) (users_of birthdays)
        ∷ [],
    register u book d.jid birthdays,
  )

  -- execute
  unfoldable pub execute : Date → Book → CommandData → ParsedCommand → List BotMessage × Book
  unfolding parse_birthdays list_birthdays noted strip partition
  execute today book d parsed =
      let rest = strip parsed.rest in
      let keyword = u.lower (partition rest).0 in
      if keyword == "save"
      then save book d
      else if keyword == "remove"
      then remove_birthdays book d
      else if rest == ""
      then (list_birthdays today book d, book)
      else note book d (parse_birthdays d rest)
