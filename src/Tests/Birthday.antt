-- ===== src/Tests/Birthday.antt =====
-- The birthdays of a day at concrete inputs.
use resenhazord.Prelude.{◌≡◌, refl, ◌↔◌, true, [], ◌∷◌, arith}
use resenhazord.Birthday.{Date, isleap, dates_celebrated, is_celebrated}
use resenhazord.Birthday.Yearly.{IsDate, is_celebrated-once}

is_celebrated-once_example :
    IsDate (isleap 2027) (28, 2)
    × ((today : Date)
        → IsDate (isleap 2027) today
        → (is_celebrated (dates_celebrated 2027 today) (29, 2) ≡ true) ↔ (today ≡ (28, 2)))
is_celebrated-once_example = is_celebrated-once 2027 (29, 2) (omega arith)

dates_run : dates_celebrated 2028 (28, 2) ≡ (28, 2) ∷ []
unfolding dates_celebrated
dates_run = refl
