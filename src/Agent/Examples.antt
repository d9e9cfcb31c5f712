-- ===== src/Agent/Examples.antt =====
-- bot/application/example_selector.py: the examples that a prompt is given. The retriever is a
-- parameter.
use resenhazord.Prelude.{
  ℕ, zero, suc, String, Option, none, some, List, [], ◌∷◌, leb, if◌then◌else◌, take,
}
use resenhazord.Text.{Unicode, strip}
use resenhazord.Text.Regex.{literal, erase}
use resenhazord.AgentRouting.{bot_mention_tag}
use resenhazord.Agent.{RetrievedExample}

-- MAX_EXAMPLES, MIN_SIMILARITY in millionths, and MAX_USER_INPUT_LENGTH
abbrev pub max_examples : ℕ
max_examples = 5

abbrev pub min_similarity : ℕ
min_similarity = 750000

abbrev pub max_user_input_length : ℕ
max_user_input_length = 2000

unfoldable pub take_text : ℕ → String → String
take_text zero s = ""
take_text (suc n) String.[] = ""
take_text (suc n) (String.◌∷◌ c s) = String.◌∷◌ c (take_text n s)

unfoldable pub similar : List RetrievedExample → List RetrievedExample
similar [] = []
similar (x ∷ xs) = let rest = similar xs in if leb min_similarity x.score then x ∷ rest else rest

-- _static_examples
abbrev pub static_examples : List (String × String) → List RetrievedExample
static_examples [] = []
static_examples ((text, command_text) ∷ examples) =
    record { text = text; command_text = command_text; score = 0 } ∷ static_examples examples

abbrev pub query_of : Unicode → String → String
query_of u user_input =
    take_text max_user_input_length (strip (erase u (literal bot_mention_tag) user_input))

module _ {W : Type 0} (u : Unicode) (agent_examples : List (String × String)) where
  -- ExampleSelector.select, with the retriever, which gives none where its request fails
  unfoldable pub select :
      Option (W → String → ℕ → Option (List RetrievedExample) × W)
      → W
      → String
      → List RetrievedExample × W
  unfolding similar take_text strip erase literal
  select none w user_input = (static_examples (take max_examples agent_examples), w)
  select (some retrieve) w user_input =
      let (found, w') = retrieve w (query_of u user_input) max_examples in
      elim found [
        | none ↦ (static_examples (take max_examples agent_examples), w')
        | some examples ↦ (similar examples, w')
      ]
