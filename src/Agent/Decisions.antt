-- ===== src/Agent/Decisions.antt =====
-- What the decisions of the mapper have in common.
use resenhazord.Prelude.{
  String, ◌≡◌, refl, ◌≢◌, ◌⊎◌, inl, inr, Bool, true, false, Option, none, some, List, arith,
  Bool-cases, Option-cases, string_eq, ◌==◌, nat_eq, pair_eq,
}
use resenhazord.Text.{concat}
use resenhazord.Command.{CommandData}
use resenhazord.Agent.{
  AgentOutcome, command, confirm, clarify, suggest, AgentDecision, RetrievedExample,
}
use resenhazord.Agent.Graph.{plain_decision}
use resenhazord.Agent.Laws.{is_mapped}
use resenhazord.Agent.Translator.{lstrip_of, strip_of, is_quote, starts_with_comma, compose}
use resenhazord.Agent.Mapper.{
  ToolCall, LlmResponse, Parts, meta, by_confidence, confident, route_tool_call, interpret_text,
  interpret, signed, ask_provider, map_request, starts_command, clean, is_command_mark,
}
use resenhazord.Agent.Commas.{concat-comma, compose-comma, normalize_flags-comma}

-- A decision that the graph can follow: its outcome has an edge, a command to run or to propose
-- starts with a comma, and a question or a suggestion has a text.
pub record IsSound (d : AgentDecision) : Type 0 where
  pub mapped : is_mapped d.outcome ≡ true
  pub commanded :
      (d.outcome ≡ command) ⊎ (d.outcome ≡ confirm) → starts_with_comma d.command_text ≡ true
  pub answered : (d.outcome ≡ clarify) ⊎ (d.outcome ≡ suggest) → d.text ≢ ""

-- What a result that is there satisfies.
abbrev pub IfSome : (AgentDecision → Type 0) → Option AgentDecision → Type 0
IfSome P none = Unit
IfSome P (some d) = P d

no_command :
    (d : AgentDecision)
    → (d.outcome ≢ command) × (d.outcome ≢ confirm)
    → (d.outcome ≡ command) ⊎ (d.outcome ≡ confirm)
    → starts_with_comma d.command_text ≡ true
no_command d (f, g) (inl e) = absurd (f e)
no_command d (f, g) (inr e) = absurd (g e)

no_answer :
    (d : AgentDecision)
    → (d.outcome ≢ clarify) × (d.outcome ≢ suggest)
    → (d.outcome ≡ clarify) ⊎ (d.outcome ≡ suggest)
    → d.text ≢ ""
no_answer d (f, g) (inl e) = absurd (f e)
no_answer d (f, g) (inr e) = absurd (g e)

module _ {W : Type 0} (parts : Parts W) where
  by_confidence-IsSound :
      (sure : Bool) (text : String)
      → starts_with_comma text ≡ true
      → IsSound (by_confidence parts sure text)
  by_confidence-IsSound true text h = record {
    mapped = refl;
    commanded = λ e. h;
    answered = no_answer (by_confidence parts true text) (λ e. cc, λ e. cc);
  }
  by_confidence-IsSound false text h = record {
    mapped = refl;
    commanded = λ e. normalize_flags-comma parts.unicode text h;
    answered = no_answer (by_confidence parts false text) (λ e. cc, λ e. cc);
  }

  meta-IsSound :
      (outcome : AgentOutcome) (text : String)
      → is_mapped outcome ≡ true
      → (outcome ≢ command) × (outcome ≢ confirm)
      → IsSound (meta parts outcome text)
  unfolding meta
  meta-IsSound outcome text h g = elim (Bool-cases (text == "")) [
    | inl empty ↦
        rw (empty, meta)
          (record {
            mapped = refl;
            commanded = λ e. absurd (ground (arith, e));
            answered = λ e. absurd (ground (arith, e));
          })
    | inr full ↦
        let d : AgentDecision = plain_decision outcome "" text in
        let sound : IsSound d = record {
          mapped = h;
          commanded = no_command d g;
          answered = λ e f. cc ((string_eq.beq_iff text "").1 f, full);
        } in
        rw (full, meta) sound
  ]

  route_tool_call-IsSound : (call : ToolCall) → IfSome IsSound (route_tool_call parts call)
  unfolding route_tool_call
  route_tool_call-IsSound call = elim (Bool-cases (call.name == "clarify")) [
    | inl asks ↦ rw (asks, route_tool_call) (meta-IsSound clarify _ refl (λ e. cc, λ e. cc))
    | inr other ↦ elim (Bool-cases (call.name == "suggest")) [
      | inl suggests ↦
          rw (other, suggests, route_tool_call) (meta-IsSound suggest _ refl (λ e. cc, λ e. cc))
      | inr tool ↦
          elim (Option-cases
            (compose parts.unicode parts.registry parts.loads call.name call.arguments)) [
              | inl broken ↦ rw (other, tool, broken, route_tool_call) (omega arith)
              | inr (text, found) ↦
                  rw (other, tool, found, route_tool_call)
                    (by_confidence-IsSound (confident parts call.arguments) text (
                      compose-comma parts.unicode parts.registry parts.loads call.name
                        call.arguments text found))
            ]
    ]
  ]

  interpret_text-IsSound : (content : String) → IsSound (interpret_text parts content)
  unfolding interpret_text
  interpret_text-IsSound content = elim (Bool-cases (starts_command (clean parts content))) [
    | inl marked ↦
        let d : AgentDecision =
          plain_decision command
            (concat "," (strip_of is_quote (lstrip_of is_command_mark (clean parts content)))) "" in
        let sound : IsSound d = record {
          mapped = refl;
          commanded = λ e.
              concat-comma "," (strip_of is_quote (lstrip_of is_command_mark (clean parts content)))
                refl;
          answered = no_answer d (λ e. cc, λ e. cc);
        } in
        rw (marked, interpret_text) sound
    | inr plain ↦
        rw (plain, interpret_text)
          (record {
            mapped = refl;
            commanded = λ e. absurd (ground (arith, e));
            answered = λ e. absurd (ground (arith, e));
          })
  ]

  interpret-IsSound : (response : LlmResponse) → IfSome IsSound (interpret parts response)
  unfolding interpret
  interpret-IsSound response = elim (Option-cases response.tool_call) [
    | inl none_called ↦ rw (none_called, interpret) (interpret_text-IsSound response.content)
    | inr (call, found) ↦ rw (found, interpret) (route_tool_call-IsSound call)
  ]

  signed-IsSound :
      (provider version : String) (o : Option AgentDecision)
      → IfSome IsSound o
      → IfSome IsSound (signed parts provider version o)
  signed-IsSound provider version none h = h
  signed-IsSound provider version (some d) h = record {
    mapped = h.mapped;
    commanded = h.commanded;
    answered = h.answered;
  }

  ask_provider-IsSound :
      (w : W) (d : CommandData) (examples : List RetrievedExample) (version : String)
      → IfSome IsSound (ask_provider parts w d examples version).0
  unfolding ask_provider
  ask_provider-IsSound w d examples version = elim (Option-cases (parts.complete w d examples).0) [
    | inl broken ↦
        rw (broken, ask_provider)
          (record {
            mapped = refl;
            commanded = λ e. absurd (ground (arith, e));
            answered = λ e. absurd (ground (arith, e));
          })
    | inr (response, found) ↦
        rw (found, ask_provider)
          (signed-IsSound response.provider version (interpret parts response)
            (interpret-IsSound response))
  ]

  -- Whatever the model answers, and whether the budget, the prompt or the provider fails, a decision
  -- that the mapper returns has an outcome with an edge in the graph, a command to run or to propose
  -- starts with a comma, and a question or a suggestion has a text.
  pub map_request-IsSound :
      (w : W) (d : CommandData) (examples : List RetrievedExample)
      → IfSome IsSound (map_request parts w d examples).0
  unfolding map_request
  map_request-IsSound w d examples = elim (Option-cases (parts.refill_at w d).0) [
    | inr (hour, spent) ↦
        rw (spent, map_request)
          (record {
            mapped = refl;
            commanded = λ e. absurd (ground (arith, e));
            answered = λ e. absurd (ground (arith, e));
          })
    | inl left ↦ elim (Option-cases parts.prompt_version) [
      | inl broken ↦
          rw (left, broken, map_request)
            (record {
              mapped = refl;
              commanded = λ e. absurd (ground (arith, e));
              answered = λ e. absurd (ground (arith, e));
            })
      | inr (version, found) ↦
          rw (left, found, map_request)
            (ask_provider-IsSound (parts.refill_at w d).1 d examples version)
    ]
  ]
