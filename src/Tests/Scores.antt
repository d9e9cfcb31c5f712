-- ===== src/Tests/Scores.antt =====
-- The scores of `,placar` at concrete inputs.
use resenhazord.Prelude.{
  ℕ, ◌+◌, ◌≤◌, ◌<◌, min, String, ◌≡◌, refl, ◌⊎◌, true, false, none, some, List, [], ◌∷◌, length,
  string_eq, nat_eq, pair_eq,
}
use resenhazord.Prelude.Dict
use resenhazord.Text.Decimal.{minus, read_int, decimal_text}
use resenhazord.Text.Examples.{ascii}
use resenhazord.Score.{
  TmLiveMatch, Clock, live, score_emoji, apply_soft_cap, group_by_competition,
  is_within_upcoming_window, format_live_row, format_date_label,
}
use resenhazord.Score.Groups.{of_name}
use resenhazord.Score.Whole.{apply_soft_cap-whole}
use resenhazord.Score.Capped.{length-apply_soft_cap}

abbrev match_of : String → String → String → TmLiveMatch
match_of code' name home = record {
  competition_code = code';
  competition_name = name;
  country_flag_emoji = "🏆";
  home_team = home;
  away_team = "Vasco";
  home_score = some 2;
  away_score = some 11;
  match_time = "18:30";
  status = live;
}

-- At six in the afternoon.
abbrev six : Clock
six = record { seconds = 64800; day = 100; today = 100; written = λ (n : ℕ). "01/01" }

abbrev games : List TmLiveMatch
games =
    match_of "mex.1" "Liga MX" "América"
    ∷ match_of "bra.1" "Brasileirão" "Flamengo"
    ∷ match_of "mex.1" "Liga MX" "Pumas"
    ∷ match_of "bra.1" "Brasileirão" "Santos"
    ∷ []

capped_run : apply_soft_cap games 1 ≡ of_name "Brasileirão" games
unfolding apply_soft_cap group_by_competition Dict.get Dict.put of_name
capped_run = refl

window_run : is_within_upcoming_window ascii six "23:59" 6 ≡ some true
unfolding is_within_upcoming_window read_int
window_run = refl

past_window_run : is_within_upcoming_window ascii six "17:59" 6 ≡ some false
unfolding is_within_upcoming_window read_int
past_window_run = refl

hour_run : is_within_upcoming_window ascii six "24:00" 6 ≡ none
unfolding is_within_upcoming_window read_int
hour_run = refl

label_run : format_date_label ascii six "45'" ≡ ""
unfolding format_date_label
label_run = refl

read_int_run : read_int ascii " -1_0 " ≡ some (minus, 10)
unfolding read_int
read_int_run = refl

emoji_run : score_emoji (some 11) ≡ "11"
unfolding score_emoji decimal_text
emoji_run = refl

row_run :
    format_live_row (match_of "bra.1" "Brasileirão" "Santos")
    ≡ "_Santos_ 2\u{fe0f}⃣ x 11 _Vasco_\n⏱\u{fe0f} 18:30"
unfolding format_live_row decimal_text
row_run = refl

apply_soft_cap-whole_example :
    (of_name "Brasileirão" (apply_soft_cap games 1) ≡ of_name "Brasileirão" games)
    ⊎ (of_name "Brasileirão" (apply_soft_cap games 1) ≡ [])
apply_soft_cap-whole_example = apply_soft_cap-whole games 1 "Brasileirão"

length-apply_soft_cap_example :
    (min 3 4 ≤ length (apply_soft_cap games 3))
    × ((apply_soft_cap games 3 ≡ [])
        ⊎ ((name : String) × (length (apply_soft_cap games 3) < 3 + length (of_name name games))))
length-apply_soft_cap_example = length-apply_soft_cap games 3
