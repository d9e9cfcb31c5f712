-- ===== src/Tests/Limits.antt =====
-- The limiter and the counter at concrete inputs.
use resenhazord.Prelude.{
  ◌*◌, ◌≤◌, ◌≡◌, refl, none, some, List, [], ◌∷◌, ◌++◌, arith, replicate, string_eq, nat_eq,
  pair_eq,
}
use resenhazord.Prelude.Dict
use resenhazord.Limits.{max_turns, turns_key, increment, increments}
use resenhazord.Limits.Turns.{Call, allowed, allowed_le}
use resenhazord.Limits.Redelivery.{increment-redelivered}

-- Nine turns at once: the last is refused, and another conversation is allowed.
abbrev nine : List Call
nine = replicate 9 (100, "a")

nine_run : allowed (turns_key "a") [] (nine ++ (101, "b") ∷ (699, "a") ∷ []) ≡ 8
unfolding allowed turns_key Dict.get Dict.put
nine_run = refl

allowed_le_example : allowed (turns_key "a") [] nine ≤ 2 * max_turns
allowed_le_example = allowed_le 100 "a" nine [] (omega arith)

increment-redelivered_example :
    let first = increment none (some "m") in
    (first.count ≡ 1)
    × (increment (some (increments first (some "n" ∷ none ∷ []))) (some "m")
        ≡ increments first (some "n" ∷ none ∷ []))
increment-redelivered_example =
    increment-redelivered none "m" (some "n" ∷ none ∷ []) (omega arith) (omega arith)
