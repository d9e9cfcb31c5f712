-- ===== src/Score.antt =====
-- The rows and sections of `,placar`: bot/domain/services/score_formatter.py, with the tables of
-- bot/data/football_league_priority.py and bot/data/number_emoji.py. The reads of the clock are an
-- argument, one record for both.
pub mod Command
pub mod Groups
pub mod Whole
pub mod Capped
use Prim.Native.Char.{code}
use resenhazord.Prelude.{
  ℕ, ◌+◌, ◌-◌, ◌*◌, String, ◌≡◌, refl, inl, inr, Bool, true, false, ◌&&◌, ◌||◌, Option, none, some,
  List, [], ◌∷◌, ◌++◌, map, ltb, leb, if◌then◌else◌, Bool-cases, ◌==◌, length, get_or, string_eq,
  nat_eq, pair_eq,
}
use resenhazord.Prelude.Dict
use resenhazord.Prelude.Dict.{Dict}
use resenhazord.Text.{Unicode, concat}
use resenhazord.Text.Decimal.{decimal_text, Sign, read_int}
use resenhazord.Text.Split.{text_leb}

pub data MatchStatus : Type 0 where
  not_started live finished postponed half_time : MatchStatus

pub record TmLiveMatch : Type 0 where
  pub competition_code : String
  pub competition_name : String
  pub country_flag_emoji : String
  pub home_team : String
  pub away_team : String
  pub home_score : Option ℕ
  pub away_score : Option ℕ
  pub match_time : String
  pub status : MatchStatus

-- datetime.now in Brazil's zone: the seconds since midnight and the number of the day, and the number
-- of the day that the second read gives; with strftime('%d/%m') of a day.
pub record Clock : Type 0 where
  pub seconds : ℕ
  pub day : ℕ
  pub today : ℕ
  pub written : ℕ → String

abbrev pub league_priorities : Dict String ℕ
league_priorities =
    ("bra.1", 0)
    ∷ ("bra.copa_do_brazil", 1)
    ∷ ("conmebol.libertadores", 1)
    ∷ ("uefa.champions", 1)
    ∷ ("eng.1", 1)
    ∷ ("esp.1", 1)
    ∷ ("ita.1", 1)
    ∷ ("ger.1", 1)
    ∷ ("fra.1", 1)
    ∷ ("conmebol.sudamericana", 2)
    ∷ ("uefa.europa", 2)
    ∷ ("arg.1", 2)
    ∷ ("por.1", 2)
    ∷ ("ned.1", 2)
    ∷ ("usa.1", 3)
    ∷ ("mex.1", 3)
    ∷ ("bra.2", 5)
    ∷ []

unfoldable pub league_priority : String → ℕ
league_priority code = elim (Dict.get league_priorities code) [ none ↦ 99 | some p ↦ p ]

abbrev pub number_emoji : List String
number_emoji =
    "0\u{fe0f}⃣" ∷ "1\u{fe0f}⃣" ∷ "2\u{fe0f}⃣" ∷ "3\u{fe0f}⃣" ∷ "4\u{fe0f}⃣" ∷ "5\u{fe0f}⃣"
    ∷ "6\u{fe0f}⃣" ∷ "7\u{fe0f}⃣" ∷ "8\u{fe0f}⃣" ∷ "9\u{fe0f}⃣" ∷ "🔟" ∷ []

abbrev pub max_emoji_score : ℕ
max_emoji_score = 10

unfoldable pub score_emoji : Option ℕ → String
score_emoji none = "-"
score_emoji (some score) =
    if ltb max_emoji_score score
    then decimal_text score
    else if score == max_emoji_score
    then "🔟"
    else get_or number_emoji score (decimal_text score)

abbrev pub is_live : MatchStatus → Bool
is_live live = true
is_live _ = false

unfoldable pub format_match_time : String → MatchStatus → String
format_match_time match_time status =
    concat (if is_live status then "⏱\u{fe0f} " else "🕐 ") match_time

-- text.split(':'): the first part and the others
unfoldable pub split_colon : String → String × List String
split_colon String.[] = ("", [])
split_colon (String.◌∷◌ c s) =
    let (part, parts) = split_colon s in
    if code c == b':' then ("", part ∷ parts) else (String.◌∷◌ c part, parts)

-- now.replace(hour=…): none where the number is not below the limit
abbrev pub in_range : ℕ → Sign × ℕ → Option ℕ
in_range limit (Sign.plus, n) = if ltb n limit then some n else none
in_range limit (Sign.minus, n) = if n == 0 then some n else none

abbrev pub both : {A : Type 0} → Option A → Option A → Option (A × A)
both none second = none
both (some a) none = none
both (some a) (some b) = some (a, b)

module _ (u : Unicode) where
  -- hour, minute = match_time.split(':'), and the two read by `int`: none is the ValueError
  unfoldable pub read_time : String → Option ((Sign × ℕ) × (Sign × ℕ))
  unfolding split_colon
  read_time match_time =
      let (hour, parts) = split_colon match_time in
      elim parts [ minute ∷ [] ↦ both (read_int u hour) (read_int u minute) | _ ↦ none ]

  -- The second of the day that a time stands for, in whole minutes.
  unfoldable pub second_of : (Sign × ℕ) × (Sign × ℕ) → Option ℕ
  second_of (hour, minute) = elim (both (in_range 24 hour) (in_range 60 minute)) [
    | none ↦ none
    | some (h, m) ↦ some (h * 3600 + m * 60)
  ]

  unfoldable pub format_date_label : Clock → String → String
  unfolding read_time second_of
  format_date_label clock match_time =
      let label : String =
        if clock.day == clock.today
        then "Hoje"
        else if clock.day == clock.today + 1
        then "Amanhã"
        else clock.written clock.day in
      let at : Option ℕ = elim (read_time match_time) [ none ↦ none | some t ↦ second_of t ] in
      elim at [ none ↦ "" | some second ↦ label ]

  -- is_within_upcoming_window: a time without a colon is not in two parts. None where an hour or a minute that no day has raises a ValueError
  unfoldable pub is_within_upcoming_window : Clock → String → ℕ → Option Bool
  unfolding read_time second_of
  is_within_upcoming_window clock match_time window_hours = elim (read_time match_time) [
    | none ↦ some false
    | some t ↦ elim (second_of t) [
      | none ↦ none
      | some second ↦
          let wait =
            if ltb second clock.seconds
            then second + 86400 - clock.seconds
            else second - clock.seconds in
          some (leb wait (window_hours * 3600))
    ]
  ]

-- f'_{home_team}_ {home} x {away} _{away_team}_'
abbrev pub teams_line : TmLiveMatch → String → String → String
teams_line m home away = concat "_" (
    concat m.home_team (
      concat "_ "
        (concat home (concat " x " (concat away (concat " _" (concat m.away_team "_")))))))

unfoldable pub format_live_row : TmLiveMatch → String
unfolding score_emoji format_match_time
format_live_row m =
    concat (teams_line m (score_emoji m.home_score) (score_emoji m.away_score))
      (concat "\n" (format_match_time m.match_time m.status))

unfoldable pub format_upcoming_row : Unicode → Clock → TmLiveMatch → String
unfolding format_date_label format_match_time
format_upcoming_row u clock m =
    let date_label = format_date_label u clock m.match_time in
    let date_str = if date_label == "" then "" else concat date_label " " in
    concat "_" (
      concat m.home_team (
        concat "_ - x - _" (
          concat m.away_team
            (concat "_\n" (concat date_str (format_match_time m.match_time m.status))))))

unfoldable pub format_finished_row : TmLiveMatch → String
unfolding score_emoji
format_finished_row m = teams_line m (score_emoji m.home_score) (score_emoji m.away_score)

abbrev pub Groups : Type 0
Groups = Dict String (List TmLiveMatch)

abbrev pub or_nil : Option (List TmLiveMatch) → List TmLiveMatch
or_nil none = []
or_nil (some group) = group

abbrev pub group_of : Groups → String → List TmLiveMatch
group_of groups key = or_nil (Dict.get groups key)

pub group_of-cons :
    (k : String) (old : List TmLiveMatch) (groups : Groups) (key : String)
    → group_of ((k, old) ∷ groups) key ≡ (if k == key then old else group_of groups key)
unfolding Dict.get
group_of-cons k old groups key = elim (Bool-cases (k == key)) [
  | inl same ↦ rw same refl
  | inr other ↦ rw other refl
]

pub group_of-put :
    (groups : Groups) (key : String) (group : List TmLiveMatch) (name : String)
    → group_of (Dict.put groups key group) name
      ≡ (if key == name then group else group_of groups name)
group_of-put groups key group name = elim (Bool-cases (key == name)) [
  | inl same ↦ rw (Dict.get-put groups key name group, same) refl
  | inr other ↦ rw (Dict.get-put groups key name group, other) refl
]

-- groups.setdefault(key, []).append(m)
unfoldable pub add_match : Groups → TmLiveMatch → Groups
add_match groups m =
    Dict.put groups m.competition_name (group_of groups m.competition_name ++ m ∷ [])

unfoldable pub groups_from : Groups → List TmLiveMatch → Groups
unfolding add_match
groups_from groups [] = groups
groups_from groups (m ∷ matches) = groups_from (add_match groups m) matches

unfoldable pub values : Groups → List (List TmLiveMatch)
values [] = []
values ((key, group) ∷ groups) = group ∷ values groups

unfoldable pub group_by_competition : List TmLiveMatch → List (List TmLiveMatch)
unfolding groups_from values
group_by_competition matches = values (groups_from [] matches)

-- The sort key of a group, which is never empty, and its order.
unfoldable pub key_of : List TmLiveMatch → ℕ × String
unfolding league_priority
key_of [] = (0, "")
key_of (m ∷ group) = (league_priority m.competition_code, m.competition_name)

abbrev pub key_leb : ℕ × String → ℕ × String → Bool
key_leb (p, name) (q, other) = ltb p q || p == q && text_leb name other

unfoldable pub insert_group : List TmLiveMatch → List (List TmLiveMatch) → List (List TmLiveMatch)
unfolding key_of text_leb
insert_group group [] = group ∷ []
insert_group group (other ∷ groups) =
    let rest = insert_group group groups in
    if key_leb (key_of group) (key_of other) then group ∷ other ∷ groups else other ∷ rest

-- groups.sort(key=…), which keeps the order of groups of one key
unfoldable pub sort_groups : List (List TmLiveMatch) → List (List TmLiveMatch)
unfolding insert_group
sort_groups [] = []
sort_groups (group ∷ groups) = insert_group group (sort_groups groups)

-- The loop of apply_soft_cap, with what is picked so far.
unfoldable pub pick : ℕ → List TmLiveMatch → List (List TmLiveMatch) → List TmLiveMatch
pick soft_cap picked [] = picked
pick soft_cap picked (group ∷ groups) =
    let rest = pick soft_cap (picked ++ group) groups in
    if leb soft_cap (length picked) then picked else rest

unfoldable pub apply_soft_cap : List TmLiveMatch → ℕ → List TmLiveMatch
unfolding pick sort_groups group_by_competition
apply_soft_cap matches soft_cap = pick soft_cap [] (sort_groups (group_by_competition matches))

unfoldable pub group_lines : (TmLiveMatch → String) → List (List TmLiveMatch) → List String
group_lines row_formatter [] = []
group_lines row_formatter ([] ∷ groups) = group_lines row_formatter groups
group_lines row_formatter ((head ∷ group) ∷ groups) =
    concat head.country_flag_emoji (concat " *" (concat head.competition_name "*"))
    ∷ (map row_formatter (head ∷ group) ++ "" ∷ group_lines row_formatter groups)

unfoldable pub build_section : String → List TmLiveMatch → (TmLiveMatch → String) → List String
unfolding group_lines sort_groups group_by_competition
build_section title matches row_formatter =
    title ∷ group_lines row_formatter (sort_groups (group_by_competition matches))
