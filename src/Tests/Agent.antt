-- ===== src/Tests/Agent.antt =====
-- A conversation with the agent at concrete inputs.
use resenhazord.Prelude.{ℕ, ◌+◌, ◌≤◌, ◌≡◌, refl, ◌≢◌, ◌↔◌, true, List, []}
use resenhazord.Text.Examples.{ascii}
use resenhazord.Command.{CommandData, default_data}
use resenhazord.Agent.{
  awaiting_confirmation, yes_reply, new_conversation, max_attempts, confirm, RetrievedExample,
  AgentDecision, awaiting,
}
use resenhazord.Agent.Confirmation.{classify}
use resenhazord.Agent.Graph.{
  Parts, TurnState, new_state, execute_proposed, confirm_node, ask, ask_again, turn, plain_decision,
}
use resenhazord.Agent.Laws.{IsValid, awaiting-IsValid, is_mapped, AtEnd}
use resenhazord.Agent.Turns.{IsOpen, turn-execute_proposed, turn-IsValid, turn-attempts}

-- A mapper that always proposes a command.
abbrev pub proposal : AgentDecision
proposal = record (plain_decision confirm ",ping" "Quer o ping?") { provider = "groq" }

abbrev pub parts : Parts ℕ
parts = record {
  unicode = ascii;
  now = 200000;
  select = λ w text. ([], w + 1);
  map_request = λ w d examples. (proposal, w + 1);
  translate = λ d text. record d { text = text };
}

abbrev pub yes_data : CommandData
yes_data = default_data "sim" "1@g.us" "2@lid"

abbrev no_data : CommandData
no_data = default_data "nao" "1@g.us" "2@lid"

abbrev pub other_data : CommandData
other_data = default_data "quero um ping" "1@g.us" "2@lid"

abbrev asked : TurnState
asked = record new_state {
  conversation = awaiting new_conversation "Quer o ping?" 100000 ",ping" "quero";
}

pub mapped :
    (w : ℕ) (d : CommandData) (examples : List RetrievedExample)
    → is_mapped (parts.map_request w d examples).0.outcome ≡ true
mapped w d examples = refl

turn_run : (turn parts other_data 0 new_state).1 ≡ 2
unfolding turn classify
turn_run = refl

turn-execute_proposed_example :
    AtEnd
      (λ n s'. (n ≡ execute_proposed) ↔ (
        (asked.conversation.status ≡ awaiting_confirmation)
        × IsOpen parts yes_data asked.conversation
        × (classify parts.unicode yes_data.text ≡ yes_reply)))
      (turn parts yes_data 0 asked).0
turn-execute_proposed_example = turn-execute_proposed parts yes_data mapped 0 asked

turn-IsValid_example : AtEnd (λ n s'. IsValid s'.conversation) (turn parts other_data 0 asked).0
turn-IsValid_example =
    turn-IsValid parts other_data mapped 0 asked
      (awaiting-IsValid new_conversation "Quer o ping?" 100000 ",ping" "quero")

turn-attempts_example :
    AtEnd
      (λ n s'.
        (n ≡ ask → s'.conversation.attempts ≤ max_attempts)
        × ((n ≢ ask) × (n ≢ confirm_node) × (n ≢ ask_again) → s'.conversation ≡ new_conversation))
      (turn parts other_data 0 asked).0
turn-attempts_example = turn-attempts parts other_data mapped 0 asked
