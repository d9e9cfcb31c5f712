-- ===== src/TeamMatcher.antt =====
-- bot/domain/services/team_name_matcher.py: clubs of one source paired with those of another. How alike
-- two names are, `_score`, is a parameter: the shares and ratios that it computes with floats are
-- numbers in any units that keep their order, the least share MIN_SCORE with them.
pub mod Order
pub mod Stable
use resenhazord.Prelude.{
  ℕ, String, Bool, ◌&&◌, ◌||◌, Option, List, [], ◌∷◌, ◌++◌, ltb, leb, if◌then◌else◌, ◌==◌,
  string_eq, nat_eq, pair_eq,
}
use resenhazord.Prelude.Dict
use resenhazord.Prelude.Dict.{Dict}
use resenhazord.Command.Run.{contains}
use resenhazord.Parser.{has_option}
use resenhazord.Text.Split.{text_leb}

-- (overlap, ratio)
abbrev pub Score : Type 0
Score = ℕ × ℕ

-- a name and a candidate
abbrev pub Entry : Type 0
Entry = String × String

abbrev pub score_leb : Score → Score → Bool
score_leb a b = ltb a.0 b.0 || a.0 == b.0 && leb a.1 b.1

module _ (score : String → String → Score) (min_score : ℕ) where
  abbrev pub score_of : Entry → Score
  score_of e = score e.0 e.1

  -- (score, name, candidate) of `e` comes before that of `f` in the reversed order.
  unfoldable pub comes_first : Entry → Entry → Bool
  unfolding text_leb
  comes_first e f =
      if score_of e == score_of f
      then (if e.0 == f.0 then text_leb f.1 e.1 else text_leb f.0 e.0)
      else score_leb (score_of f) (score_of e)

  unfoldable pub insert_scored : Entry → List Entry → List Entry
  unfolding comes_first
  insert_scored e [] = e ∷ []
  insert_scored e (f ∷ l) =
      let rest = insert_scored e l in if comes_first e f then e ∷ f ∷ l else f ∷ rest

  -- sorted(…, reverse=True)
  unfoldable pub sort_scored : List Entry → List Entry
  unfolding insert_scored
  sort_scored [] = []
  sort_scored (e ∷ l) = insert_scored e (sort_scored l)

  abbrev pub with_candidates : String → List String → List Entry
  with_candidates name [] = []
  with_candidates name (c ∷ cs) = (name, c) ∷ with_candidates name cs

  abbrev pub entries : List String → List String → List Entry
  entries [] candidates = []
  entries (n ∷ ns) candidates = with_candidates n candidates ++ entries ns candidates

  -- overlap < cls.MIN_SCORE or name in pairs or candidate in taken
  unfoldable pub is_skipped : Entry → Dict String String → List String → Bool
  unfolding contains
  is_skipped e pairs taken =
      ltb (score_of e).0 min_score || has_option pairs e.0 || contains e.1 taken

  -- The loop of `pair`.
  unfoldable pub pair_up : List Entry → Dict String String → List String → Dict String String
  unfolding is_skipped
  pair_up [] pairs taken = pairs
  pair_up (e ∷ l) pairs taken =
      let skipped = pair_up l pairs taken in
      let chosen = pair_up l (Dict.put pairs e.0 e.1) (e.1 ∷ taken) in
      if is_skipped e pairs taken then skipped else chosen

  -- pair
  unfoldable pub pair : List String → List String → Dict String String
  unfolding sort_scored pair_up
  pair names candidates = pair_up (sort_scored (entries names candidates)) [] []

  -- best
  unfoldable pub best : String → List String → Option String
  unfolding pair
  best name candidates = Dict.get (pair (name ∷ []) candidates) name
