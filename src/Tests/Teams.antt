-- ===== src/Tests/Teams.antt =====
-- The pairing of clubs at concrete inputs.
use resenhazord.Prelude.{
  ◌≤◌, String, ◌≡◌, refl, true, ◌&&◌, none, some, [], ◌∷◌, if◌then◌else◌, ◌==◌, string_eq, nat_eq,
  pair_eq,
}
use resenhazord.Prelude.Dict
use resenhazord.Command.Run.{contains}
use resenhazord.TeamMatcher.{Score, pair, best}
use resenhazord.TeamMatcher.Stable.{IsSettled, pair-IsStable}

-- Flamengo is spelt the same, and shares a word with the other Flamengo.
abbrev alike : String → String → Score
alike n c =
    if n == c
    then (100, 100)
    else if n == "flamengo" && c == "flamengo rj"
    then (50, 80)
    else if n == "fla"
    then (30, 10)
    else (0, 0)

pair_run :
    pair alike 25 ("fla" ∷ "flamengo" ∷ "vasco" ∷ []) ("flamengo rj" ∷ "flamengo" ∷ [])
    ≡ (("flamengo", "flamengo") ∷ ("fla", "flamengo rj") ∷ [])
unfolding pair contains Dict.get Dict.put
pair_run = refl

best_run : best alike 25 "vasco" ("flamengo" ∷ []) ≡ none
unfolding best contains Dict.get Dict.put
best_run = refl

pair-IsStable_example :
    let q = pair alike 25 ("fla" ∷ []) ("flamengo" ∷ []) in
    ((n m c : String) → Dict.get q n ≡ some c → Dict.get q m ≡ some c → n ≡ m)
    × ((n c : String) → Dict.get q n ≡ some c → 25 ≤ (alike n c).0)
    × ((n c : String)
        → contains n ("fla" ∷ []) ≡ true
        → contains c ("flamengo" ∷ []) ≡ true
        → 25 ≤ (alike n c).0
        → IsSettled alike 25 q (n, c))
pair-IsStable_example = pair-IsStable alike 25 ("fla" ∷ []) ("flamengo" ∷ [])
