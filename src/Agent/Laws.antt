-- ===== src/Agent/Laws.antt =====
-- What a turn of the conversation graph does.
use resenhazord.Prelude.{
  ℕ, ◌+◌, ◌≤◌, String, ◌≡◌, refl, ◌≢◌, inl, inr, Bool, true, false, Option, none, some, List, arith,
  ltb, Bool-cases, string_eq,
}
use resenhazord.Text.{concat}
use resenhazord.Command.{CommandData}
use resenhazord.Agent.{
  idle, awaiting_confirmation, awaiting_answer, Conversation, new_conversation, resume_window,
  resumed, awaiting, exhausted, TurnIntent, confirmed, denied, request, intent_of, AgentDecision,
  AgentOutcome, command, confirm, clarify, suggest, unresolvable, unavailable, over_budget, direct,
  RetrievedExample, confirmed_outcome, denied_outcome, menu_hint_outcome, denied_outcome,
}
use resenhazord.Agent.Confirmation.{classify}
use resenhazord.Agent.Graph.{
  Parts, TurnState, Node, Next, goto, finished, key_error, execute, execute_proposed, confirm_node,
  ask, ask_again, menu_hint, suggest_node, fallback, call_llm, retrieve_examples, Outcome, ended,
  crashed, turn, run_graph, after, after_outcome, after_input, reply, finish, reply_conversation,
  run_command, with_context, direct_match, ReplySpec, confirm_spec, ask_spec, menu_hint_spec,
  suggest_spec, fallback_spec, denial_spec, plain_decision, ask_again_question,
  unresolvable_message,
}

-- What the fields of a conversation say together.
pub record IsValid (c : Conversation) : Type 0 where
  pub when_idle : c.status ≡ idle → c ≡ new_conversation
  pub when_confirming : c.status ≡ awaiting_confirmation → c.proposed_command ≢ ""
  pub when_answering : c.status ≡ awaiting_answer → (c.proposed_command ≡ "") × (1 ≤ c.attempts)

pub IsValid-new : IsValid new_conversation
IsValid-new = record { when_idle = λ e. refl; when_confirming = λ e. cc; when_answering = λ e. cc }

pub resumed-IsValid : (c : Conversation) (now : ℕ) → IsValid c → IsValid (resumed c now)
unfolding resumed
resumed-IsValid c now v = elim (Bool-cases (ltb (c.asked_at + resume_window) now)) [
  | inl late ↦ rw (late, resumed) IsValid-new
  | inr early ↦ rw (early, resumed) v
]

pub awaiting-IsValid :
    (c : Conversation) (question : String) (now : ℕ) (proposed text : String)
    → IsValid (awaiting c question now proposed text)
unfolding awaiting
awaiting-IsValid c question now proposed text = record {
  when_idle = λ e. ground arith;
  when_confirming = λ e. ground (arith, string_eq.beq_iff proposed "");
  when_answering = λ e. ground arith;
}

-- The outcomes that the mapper decides on.
abbrev pub is_mapped : AgentOutcome → Bool
is_mapped direct = false
is_mapped confirmed_outcome = false
is_mapped denied_outcome = false
is_mapped menu_hint_outcome = false
is_mapped _ = true

-- The run ended at END, and the last node and the state satisfy `P`; a crash satisfies nothing.
abbrev pub AtEnd : (Node → TurnState → Type 0) → Outcome → Type 0
AtEnd P (ended n s) = P n s
AtEnd P _ = ⊥

module _ {W : Type 0} (parts : Parts W) (d : CommandData) where
  -- The state that the answer of a reply node leaves.
  abbrev pub replied : ReplySpec → AgentDecision → TurnState → TurnState
  replied spec decision s =
      finish parts d s (concat spec.prefix decision.text) d.jid
        (reply_conversation parts d spec decision s)

  -- The state after `route_input`.
  abbrev pub routed : TurnState → TurnState
  routed s = record s {
    conversation = resumed s.conversation parts.now;
    intent = intent_of (resumed s.conversation parts.now).status (classify parts.unicode d.text);
  }

  -- The state of a request once it is decided.
  abbrev pub decided_state : TurnState → List RetrievedExample → AgentDecision → TurnState
  decided_state s examples decision = record (routed s) {
    examples = examples;
    decision = some decision;
  }

  -- What has to hold of the last node and the state, for each way that a turn can go.
  pub record Ways (P : Node → TurnState → Type 0) (s : TurnState) : Type 0 where
    pub if_confirmed :
        (routed s).intent ≡ confirmed
        → P execute_proposed
            (run_command parts d (routed s) (routed s).conversation.proposed_command)
    pub if_denied :
        (routed s).intent ≡ denied
        → P ask_again
            (replied denial_spec (plain_decision denied_outcome "" ask_again_question) (routed s))
    pub if_executed :
        (routed s).intent ≡ request
        → (examples : List RetrievedExample) (decision : AgentDecision)
        → P execute (run_command parts d (decided_state s examples decision) decision.command_text)
    pub if_proposed :
        (routed s).intent ≡ request
        → (examples : List RetrievedExample) (decision : AgentDecision)
        → P confirm_node (replied confirm_spec decision (decided_state s examples decision))
    pub if_asked :
        (routed s).intent ≡ request
        → exhausted (routed s).conversation ≡ false
        → (examples : List RetrievedExample) (decision : AgentDecision)
        → P ask (replied ask_spec decision (decided_state s examples decision))
    pub if_hinted :
        (routed s).intent ≡ request
        → exhausted (routed s).conversation ≡ true
        → (examples : List RetrievedExample) (decision : AgentDecision)
        → P menu_hint (
            replied menu_hint_spec
              (plain_decision menu_hint_outcome "" unresolvable_message)
              (decided_state s examples decision))
    pub if_suggested :
        (routed s).intent ≡ request
        → (examples : List RetrievedExample) (decision : AgentDecision)
        → P suggest_node (replied suggest_spec decision (decided_state s examples decision))
    pub if_fallen :
        (routed s).intent ≡ request
        → (examples : List RetrievedExample) (decision : AgentDecision)
        → P fallback (replied fallback_spec decision (decided_state s examples decision))

  -- Where the run goes from the node `n`.
  abbrev follow : ℕ → Node → W → TurnState → Next → Outcome × W
  follow fuel n w s next = elim next [
    | goto m ↦ run_graph parts d fuel m w s
    | finished ↦ (ended n s, w)
    | key_error ↦ (crashed, w)
  ]

  module _ (P : Node → TurnState → Type 0) (s : TurnState) (ways : Ways P s)
      (is_request : (routed s).intent ≡ request) where
    -- The run from the node that a mapped decision leads to.
    AtEnd-outcome :
        (w : W) (examples : List RetrievedExample) (decision : AgentDecision) (o : AgentOutcome)
        (spent : Bool)
        → is_mapped o ≡ true
        → exhausted (routed s).conversation ≡ spent
        → AtEnd P
            (follow 1 call_llm w (decided_state s examples decision) (after_outcome o spent)).0
    unfolding run_graph reply
    AtEnd-outcome w examples decision command spent m e =
        ways.if_executed is_request examples decision
    AtEnd-outcome w examples decision confirm spent m e =
        ways.if_proposed is_request examples decision
    AtEnd-outcome w examples decision clarify true m e =
        ways.if_hinted is_request e examples decision
    AtEnd-outcome w examples decision clarify false m e =
        ways.if_asked is_request e examples decision
    AtEnd-outcome w examples decision suggest spent m e =
        ways.if_suggested is_request examples decision
    AtEnd-outcome w examples decision unresolvable spent m e =
        ways.if_fallen is_request examples decision
    AtEnd-outcome w examples decision unavailable spent m e =
        ways.if_fallen is_request examples decision
    AtEnd-outcome w examples decision over_budget spent m e =
        ways.if_fallen is_request examples decision
    AtEnd-outcome w examples decision _ spent m e = cc

module _ {W : Type 0} (parts : Parts W) (d : CommandData)
    (mapped : (w : W) (d' : CommandData) (examples : List RetrievedExample)
      → is_mapped (parts.map_request w d' examples).0.outcome ≡ true)
    (P : Node → TurnState → Type 0) (s : TurnState) (ways : Ways parts d P s) where
  -- The decision of `retrieve_examples`.
  abbrev matched : Option RetrievedExample → Option AgentDecision
  matched none = none
  matched (some best) = some (plain_decision direct best.command_text "")

  AtEnd-matched :
      (routed parts d s).intent ≡ request
      → (w : W) (examples : List RetrievedExample) (o : Option RetrievedExample)
      → AtEnd P
          (follow parts d 2 retrieve_examples w
            (record (routed parts d s) { examples = examples; decision = matched o })
            (after retrieve_examples
              (record (routed parts d s) { examples = examples; decision = matched o }))).0
  unfolding run_graph
  AtEnd-matched is_request w examples none =
      let (decision, w') = parts.map_request w (with_context parts d (routed parts d s)) examples in
      AtEnd-outcome parts d P s ways is_request w' examples decision decision.outcome
        (exhausted (routed parts d s).conversation)
        (mapped w (with_context parts d (routed parts d s)) examples) refl
  AtEnd-matched is_request w examples (some best) =
      ways.if_executed is_request examples (plain_decision direct best.command_text "")

  AtEnd-routed :
      (w : W) (i : TurnIntent)
      → (routed parts d s).intent ≡ i
      → AtEnd P (run_graph parts d 3 (after_input i) w (routed parts d s)).0
  unfolding run_graph reply
  AtEnd-routed w confirmed e = ways.if_confirmed e
  AtEnd-routed w denied e = ways.if_denied e
  AtEnd-routed w request e =
      let context = with_context parts d (routed parts d s) in
      let (examples, w') = parts.select w context.text in
      AtEnd-matched e w' examples (direct_match context examples)

  -- Whatever way a turn goes, it ends, and what holds for each way holds of its end.
  pub turn_rule : (w : W) → AtEnd P (turn parts d w s).0
  unfolding turn
  turn_rule w = AtEnd-routed w (routed parts d s).intent refl
