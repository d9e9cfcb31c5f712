-- ===== src/Agent/Graph.antt =====
-- One turn of the agent: bot/infrastructure/llm/agent_graph_nodes.py and graph_orchestrator.py. The
-- nodes are those of the graph, `after` is its edges, and the run of the graph follows them. The
-- selector of examples, the mapper and the translator are parameters that may act on `W`.
use Prim.Native.Char.{code}
use resenhazord.Prelude.{
  ℕ, zero, suc, String, Bool, true, false, not, Option, none, some, List, [], ◌∷◌, ltb,
  if◌then◌else◌, ◌==◌, string_eq, nat_eq, pair_eq,
}
use resenhazord.Text.{Unicode, concat}
use resenhazord.Command.{CommandData, or_empty}
use resenhazord.CommandText.{clarify_prefix, suggest_prefix, agent_menu_hint}
use resenhazord.Agent.{
  TurnIntent, request, confirmed, denied, Conversation, new_conversation, exhausted, resumed,
  awaiting, intent_of, AgentOutcome, command, direct, confirm, clarify, suggest, unresolvable,
  unavailable, over_budget, confirmed_outcome, denied_outcome, menu_hint_outcome, AgentDecision,
  RetrievedExample,
}
use resenhazord.Agent.Confirmation.{classify}

-- AgentTurnState, which the checkpointer keeps between the turns of a thread
pub record TurnState : Type 0 where
  pub conversation : Conversation
  pub intent : TurnIntent
  pub examples : List RetrievedExample
  pub decision : Option AgentDecision
  pub result_text : String
  pub result_jid : String

-- The empty state of a new thread: the defaults are those that the nodes read.
abbrev pub new_state : TurnState
new_state = record {
  conversation = new_conversation;
  intent = request;
  examples = [];
  decision = none;
  result_text = "";
  result_jid = "";
}

pub data Node : Type 0 where
  route_input retrieve_examples call_llm : Node
  execute execute_proposed confirm_node ask ask_again menu_hint suggest_node fallback : Node

-- Where the run goes next: to a node, to END, or to no node, a KeyError.
pub data Next : Type 0 where
  goto : Node → Next
  finished key_error : Next

abbrev pub plain_decision : AgentOutcome → String → String → AgentDecision
plain_decision outcome command_text text = record {
  outcome = outcome;
  command_text = command_text;
  text = text;
  provider = "";
  prompt_version = "";
}

abbrev pub unresolvable_message : String
unresolvable_message = concat "🤖 Não consegui entender. " agent_menu_hint

abbrev pub ask_again_question : String
ask_again_question = "O que você queria?"

-- _ReplySpec
pub record ReplySpec : Type 0 where
  pub prefix : String
  pub keeps_waiting : Bool
  pub fixed : Option AgentDecision

-- _REPLIES and _DENIAL
abbrev pub confirm_spec : ReplySpec
confirm_spec = record { prefix = clarify_prefix; keeps_waiting = true; fixed = none }

abbrev pub ask_spec : ReplySpec
ask_spec = record { prefix = clarify_prefix; keeps_waiting = true; fixed = none }

abbrev pub menu_hint_spec : ReplySpec
menu_hint_spec = record {
  prefix = clarify_prefix;
  keeps_waiting = false;
  fixed = some (plain_decision menu_hint_outcome "" unresolvable_message);
}

abbrev pub suggest_spec : ReplySpec
suggest_spec = record { prefix = suggest_prefix; keeps_waiting = false; fixed = none }

abbrev pub fallback_spec : ReplySpec
fallback_spec = record { prefix = clarify_prefix; keeps_waiting = false; fixed = none }

abbrev pub denial_spec : ReplySpec
denial_spec = record {
  prefix = clarify_prefix;
  keeps_waiting = true;
  fixed = some (plain_decision denied_outcome "" ask_again_question);
}

-- `spec.fixed or self._decision(state)`: none is the KeyError of a state without a decision
abbrev pub decision_or : Option AgentDecision → Option AgentDecision → Option AgentDecision
decision_or (some d) _ = some d
decision_or none d = d

-- `direct_match` of bot/application/example_selector.py: max() keeps the first of equal scores
unfoldable pub best_of : RetrievedExample → List RetrievedExample → RetrievedExample
best_of best [] = best
best_of best (x ∷ xs) = best_of (if ltb best.score x.score then x else best) xs

abbrev pub direct_match_similarity : ℕ
direct_match_similarity = 970000

abbrev pub at_least : RetrievedExample → Option RetrievedExample
at_least best = if ltb best.score direct_match_similarity then none else some best

unfoldable pub direct_match : CommandData → List RetrievedExample → Option RetrievedExample
unfolding best_of
direct_match d [] = none
direct_match d (x ∷ xs) =
    if not (or_empty d.quoted_text == "") then none else at_least (best_of x xs)

-- `command.lstrip(',')`
unfoldable pub lstrip_commas : String → String
lstrip_commas String.[] = ""
lstrip_commas (String.◌∷◌ c s) =
    let rest = lstrip_commas s in if code c == b',' then rest else String.◌∷◌ c s

-- The parts of AgentGraphNodes, and the clock of the turn.
pub record Parts (W : Type 0) : Type 0 where
  pub unicode : Unicode
  pub now : ℕ
  pub select : W → String → List RetrievedExample × W
  pub map_request : W → CommandData → List RetrievedExample → AgentDecision × W
  pub translate : CommandData → String → CommandData

-- `_with_context`: the quoted text, or the question that waits for an answer
abbrev pub first_text : Option String → String → Option String
first_text quoted question =
    if not (or_empty quoted == "") then quoted else if question == "" then none else some question

module _ {W : Type 0} (parts : Parts W) (d : CommandData) where
  abbrev pub with_context : TurnState → CommandData
  with_context s = record d { quoted_text = first_text d.quoted_text s.conversation.question }

  -- _finish
  abbrev pub finish : TurnState → String → String → Conversation → TurnState
  finish s text jid conversation = record s {
    result_text = text;
    result_jid = jid;
    conversation = conversation;
  }

  abbrev pub reply_conversation : ReplySpec → AgentDecision → TurnState → Conversation
  reply_conversation spec decision s =
      if spec.keeps_waiting
      then awaiting s.conversation decision.text parts.now decision.command_text d.text
      else new_conversation

  -- _reply_node
  unfoldable pub reply : ReplySpec → TurnState → Option TurnState
  reply spec s = elim (decision_or spec.fixed s.decision) [
    | none ↦ none
    | some decision ↦
        some
          (finish s (concat spec.prefix decision.text) d.jid (reply_conversation spec decision s))
  ]

  abbrev pub run_command : TurnState → String → TurnState
  run_command s text =
      let result = parts.translate d (lstrip_commas text) in
      finish s result.text result.jid new_conversation

  -- What a node does to the state: none where it raises a KeyError.
  unfoldable pub run_node : Node → W → TurnState → Option TurnState × W
  unfolding reply resumed direct_match
  run_node route_input w s =
      let conversation = resumed s.conversation parts.now in
      (
        some (record s {
          conversation = conversation;
          intent = intent_of conversation.status (classify parts.unicode d.text);
        }),
        w,
      )
  run_node retrieve_examples w s =
      let context = with_context s in
      let (examples, w') = parts.select w context.text in
      (
        some (record s {
          examples = examples;
          decision = elim (direct_match context examples) [
            | none ↦ none
            | some best ↦ some (plain_decision direct best.command_text "")
          ];
        }),
        w',
      )
  run_node call_llm w s =
      let (decision, w') = parts.map_request w (with_context s) s.examples in
      (some (record s { decision = some decision }), w')
  run_node execute w s = elim s.decision [
    | none ↦ (none, w)
    | some decision ↦ (some (run_command s decision.command_text), w)
  ]
  run_node execute_proposed w s = (some (run_command s s.conversation.proposed_command), w)
  run_node confirm_node w s = (reply confirm_spec s, w)
  run_node ask w s = (reply ask_spec s, w)
  run_node ask_again w s = (reply denial_spec s, w)
  run_node menu_hint w s = (reply menu_hint_spec s, w)
  run_node suggest_node w s = (reply suggest_spec s, w)
  run_node fallback w s = (reply fallback_spec s, w)

-- _after_input, _after_retrieval and _after_llm, with the edges of the terminals
abbrev pub after_input : TurnIntent → Node
after_input confirmed = execute_proposed
after_input denied = ask_again
after_input request = retrieve_examples

abbrev pub after_outcome : AgentOutcome → Bool → Next
after_outcome command _ = goto execute
after_outcome confirm _ = goto confirm_node
after_outcome clarify true = goto menu_hint
after_outcome clarify false = goto ask
after_outcome suggest _ = goto suggest_node
after_outcome unresolvable _ = goto fallback
after_outcome unavailable _ = goto fallback
after_outcome over_budget _ = goto fallback
after_outcome direct _ = key_error
after_outcome confirmed_outcome _ = key_error
after_outcome denied_outcome _ = key_error
after_outcome menu_hint_outcome _ = key_error

abbrev pub decided : Option AgentDecision → AgentOutcome
decided none = unresolvable
decided (some d) = d.outcome

unfoldable pub after : Node → TurnState → Next
after route_input s = goto (after_input s.intent)
after retrieve_examples s = elim s.decision [ none ↦ goto call_llm | some _ ↦ goto execute ]
after call_llm s = after_outcome (decided s.decision) (exhausted s.conversation)
after _ s = finished

-- How a run of the graph ends: at END, with the last node, or in an error.
pub data Outcome : Type 0 where
  ended : Node → TurnState → Outcome
  crashed out_of_fuel : Outcome

module _ {W : Type 0} (parts : Parts W) (d : CommandData) where
  -- The run from `n` on: the effect of the node, then the node that the edges give.
  unfoldable pub run_graph : ℕ → Node → W → TurnState → Outcome × W
  unfolding run_node after
  run_graph zero n w s = (out_of_fuel, w)
  run_graph (suc fuel) n w s =
      let (result, w') = run_node parts d n w s in
      elim result [
        | none ↦ (crashed, w')
        | some s' ↦ elim (after n s') [
          | goto m ↦ run_graph fuel m w' s'
          | finished ↦ (ended n s', w')
          | key_error ↦ (crashed, w')
        ]
      ]

  -- A turn passes four nodes at most.
  unfoldable pub turn : W → TurnState → Outcome × W
  unfolding run_graph
  turn w s = run_graph 4 route_input w s
