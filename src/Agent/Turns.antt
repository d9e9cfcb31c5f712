-- ===== src/Agent/Turns.antt =====
-- What a turn of the agent comes to: bot/infrastructure/llm/graph_orchestrator.py.
use resenhazord.Prelude.{◌+◌, ◌≤◌, ◌≡◌, refl, ◌≢◌, ◌↔◌, true, List, arith}
use resenhazord.Command.{CommandData}
use resenhazord.Agent.{
  awaiting_confirmation, awaiting_answer, yes_reply, no_reply, Conversation, new_conversation,
  resume_window, resumed, awaiting, max_attempts, confirmed, denied, RetrievedExample,
}
use resenhazord.Agent.Confirmation.{classify}
use resenhazord.Agent.Graph.{
  Parts, TurnState, execute_proposed, confirm_node, ask, ask_again, turn, lstrip_commas,
}
use resenhazord.Agent.Laws.{
  IsValid, IsValid-new, awaiting-IsValid, is_mapped, AtEnd, routed, turn_rule,
}

module _ {W : Type 0} (parts : Parts W) (d : CommandData) where
  -- A question put to the user is still open: it was asked at most three minutes ago.
  abbrev pub IsOpen : Conversation → Type 0
  IsOpen c = parts.now ≤ c.asked_at + resume_window

  confirmed_iff :
      (s : TurnState)
      → ((routed parts d s).intent ≡ confirmed) ↔ (
          (s.conversation.status ≡ awaiting_confirmation)
          × IsOpen s.conversation
          × (classify parts.unicode d.text ≡ yes_reply))
  unfolding resumed
  confirmed_iff s = ground arith

  denied_iff :
      (s : TurnState)
      → ((routed parts d s).intent ≡ denied) ↔ (
          (s.conversation.status ≡ awaiting_confirmation)
          × IsOpen s.conversation
          × (classify parts.unicode d.text ≡ no_reply))
  unfolding resumed
  denied_iff s = ground arith

  kept_if :
      (s : TurnState)
      → (routed parts d s).intent ≡ confirmed
      → (routed parts d s).conversation ≡ s.conversation
  unfolding resumed
  kept_if s = ground arith

module _ {W : Type 0} (parts : Parts W) (d : CommandData)
    (mapped : (w : W) (d' : CommandData) (examples : List RetrievedExample)
      → is_mapped (parts.map_request w d' examples).0.outcome ≡ true)
    (w : W) (s : TurnState) where
  -- With a mapper that decides on its own outcomes, every turn ends at END, and it runs the proposed
  -- command exactly when a proposal was made at most three minutes ago and the message agrees to it.
  pub turn-execute_proposed :
      AtEnd
        (λ n s'. (n ≡ execute_proposed) ↔ (
          (s.conversation.status ≡ awaiting_confirmation)
          × IsOpen parts d s.conversation
          × (classify parts.unicode d.text ≡ yes_reply)))
        (turn parts d w s).0
  turn-execute_proposed =
      turn_rule parts d mapped _ s
        (record {
          if_confirmed = λ i. (λ e. (confirmed_iff parts d s).0 i, λ h. refl);
          if_denied = λ i. (λ e. cc, λ h. cc (i, (confirmed_iff parts d s).1 h));
          if_executed = λ i ex dn. (λ e. cc, λ h. cc (i, (confirmed_iff parts d s).1 h));
          if_proposed = λ i ex dn. (λ e. cc, λ h. cc (i, (confirmed_iff parts d s).1 h));
          if_asked = λ i sp ex dn. (λ e. cc, λ h. cc (i, (confirmed_iff parts d s).1 h));
          if_hinted = λ i sp ex dn. (λ e. cc, λ h. cc (i, (confirmed_iff parts d s).1 h));
          if_suggested = λ i ex dn. (λ e. cc, λ h. cc (i, (confirmed_iff parts d s).1 h));
          if_fallen = λ i ex dn. (λ e. cc, λ h. cc (i, (confirmed_iff parts d s).1 h));
        })
        w

  -- Where the proposed command is run, the result is what the translator makes of that command.
  pub turn-result_text :
      AtEnd
        (λ n s'.
          n ≡ execute_proposed
          → s'.result_text
            ≡ (parts.translate d (lstrip_commas s.conversation.proposed_command)).text)
        (turn parts d w s).0
  turn-result_text =
      turn_rule parts d mapped _ s
        (record {
          if_confirmed = λ i e. rw (kept_if parts d s i);
          if_denied = λ i e. cc;
          if_executed = λ i ex dn e. cc;
          if_proposed = λ i ex dn e. cc;
          if_asked = λ i sp ex dn e. cc;
          if_hinted = λ i sp ex dn e. cc;
          if_suggested = λ i ex dn e. cc;
          if_fallen = λ i ex dn e. cc;
        })
        w

  -- The conversation that a turn leaves is well formed, if the one before it was: an idle one is a
  -- new one, one that waits for a confirmation has a proposed command, and one that waits for an
  -- answer has none and has spent an attempt.
  pub turn-IsValid :
      IsValid s.conversation → AtEnd (λ n s'. IsValid s'.conversation) (turn parts d w s).0
  turn-IsValid v =
      turn_rule parts d mapped _ s
        (record {
          if_confirmed = λ i. IsValid-new;
          if_denied = λ i. awaiting-IsValid _ _ _ _ _;
          if_executed = λ i ex dn. IsValid-new;
          if_proposed = λ i ex dn. awaiting-IsValid _ _ _ _ _;
          if_asked = λ i sp ex dn. awaiting-IsValid _ _ _ _ _;
          if_hinted = λ i sp ex dn. IsValid-new;
          if_suggested = λ i ex dn. IsValid-new;
          if_fallen = λ i ex dn. IsValid-new;
        })
        w

  -- A turn that asks the user to clarify leaves at most two attempts spent, and a turn that ends in
  -- anything but a question, a proposal or the question after a denial starts the conversation anew.
  pub turn-attempts :
      AtEnd
        (λ n s'.
          (n ≡ ask → s'.conversation.attempts ≤ max_attempts)
          × ((n ≢ ask) × (n ≢ confirm_node) × (n ≢ ask_again) → s'.conversation ≡ new_conversation))
        (turn parts d w s).0
  unfolding awaiting
  turn-attempts =
      turn_rule parts d mapped _ s
        (record {
          if_confirmed = λ i. (λ e. cc, λ h. refl);
          if_denied = λ i. (λ e. cc, λ h. absurd (h.2 refl));
          if_executed = λ i ex dn. (λ e. cc, λ h. refl);
          if_proposed = λ i ex dn. (λ e. cc, λ h. absurd (h.1 refl));
          if_asked = λ i sp ex dn. (λ e. ground (arith, sp), λ h. absurd (h.0 refl));
          if_hinted = λ i sp ex dn. (λ e. cc, λ h. refl);
          if_suggested = λ i ex dn. (λ e. cc, λ h. refl);
          if_fallen = λ i ex dn. (λ e. cc, λ h. refl);
        })
        w

  -- A denial of an open proposal asks again, whatever number of attempts is spent, and spends one more.
  pub turn-ask_again :
      (s.conversation.status ≡ awaiting_confirmation)
        × IsOpen parts d s.conversation
        × (classify parts.unicode d.text ≡ no_reply)
      → AtEnd
          (λ n s'.
            (n ≡ ask_again)
            × (s'.conversation.status ≡ awaiting_answer)
            × (s'.conversation.attempts ≡ s.conversation.attempts + 1))
          (turn parts d w s).0
  unfolding awaiting resumed
  turn-ask_again h =
      turn_rule parts d mapped _ s
        (record {
          if_confirmed = λ i. cc (i, (denied_iff parts d s).1 h);
          if_denied = λ i. ground (arith, h);
          if_executed = λ i ex dn. cc (i, (denied_iff parts d s).1 h);
          if_proposed = λ i ex dn. cc (i, (denied_iff parts d s).1 h);
          if_asked = λ i sp ex dn. cc (i, (denied_iff parts d s).1 h);
          if_hinted = λ i sp ex dn. cc (i, (denied_iff parts d s).1 h);
          if_suggested = λ i ex dn. cc (i, (denied_iff parts d s).1 h);
          if_fallen = λ i ex dn. cc (i, (denied_iff parts d s).1 h);
        })
        w
