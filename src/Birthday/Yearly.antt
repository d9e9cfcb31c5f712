-- ===== src/Birthday/Yearly.antt =====
-- Every birthday is celebrated on one day of every year.
use resenhazord.Prelude.{
  ℕ, ◌≤◌, ◌≡◌, ◌↔◌, Bool, true, not, ◌&&◌, ◌||◌, arith, if◌then◌else◌, ◌==◌, string_eq, nat_eq,
  pair_eq,
}
use resenhazord.Birthday.{
  Date, leap_day, last_day_of_february, isleap, dates_celebrated, is_celebrated,
}

abbrev pub month_days : Bool → ℕ → ℕ
month_days leap month =
    if month == 2
    then (if leap then 29 else 28)
    else if month == 4 || month == 6 || month == 9 || month == 11
    then 30
    else 31

-- A date of the year.
abbrev pub IsDate : Bool → Date → Type 0
IsDate leap (day, month) = (1 ≤ day) × (day ≤ month_days leap month) × (1 ≤ month) × (month ≤ 12)

-- The day of the year on which a birthday is celebrated.
abbrev pub celebrated_on : ℕ → Date → Date
celebrated_on year birthday =
    if birthday == leap_day && not (isleap year) then last_day_of_february else birthday

celebrated_on-IsDate :
    (year : ℕ) (birthday : Date)
    → IsDate true birthday
    → IsDate (isleap year) (celebrated_on year birthday)
celebrated_on-IsDate year (day, month) h = ground arith

is_celebrated_iff :
    (year : ℕ) (birthday today : Date)
    → IsDate (isleap year) today
    → (is_celebrated (dates_celebrated year today) birthday ≡ true)
      ↔ (today ≡ celebrated_on year birthday)
unfolding dates_celebrated is_celebrated
is_celebrated_iff year (day, month) (today, this_month) h = ground arith

-- Every birthday, the 29th of February included, is celebrated in every year on a day that this year
-- has, and on no other day of the year.
pub is_celebrated-once :
    (year : ℕ) (birthday : Date)
    → IsDate true birthday
    → IsDate (isleap year) (celebrated_on year birthday)
      × ((today : Date)
          → IsDate (isleap year) today
          → (is_celebrated (dates_celebrated year today) birthday ≡ true)
            ↔ (today ≡ celebrated_on year birthday))
is_celebrated-once year birthday h =
    (celebrated_on-IsDate year birthday h, λ today g. is_celebrated_iff year birthday today g)
