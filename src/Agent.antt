-- ===== src/Agent.antt =====
-- The data of the agent: bot/domain/models/conversation.py, conversation_status.py,
-- agent_decision.py, retrieved_example.py. Times are milliseconds of a wall clock, scores of
-- examples are counted in millionths.
pub mod Confirmation
pub mod Graph
pub mod Laws
pub mod Turns
pub mod Translator
pub mod Mapper
pub mod Redirect
pub mod Examples
pub mod Commas
pub mod Decisions
use resenhazord.Prelude.{
  ℕ, ◌+◌, String, Bool, not, ltb, leb, if◌then◌else◌, ◌==◌, string_eq, nat_eq, pair_eq,
}

pub data ConversationStatus : Type 0 where
  idle awaiting_confirmation awaiting_answer : ConversationStatus

pub data TurnIntent : Type 0 where
  request confirmed denied : TurnIntent

-- ConfirmationReply
pub data ConfirmationReply : Type 0 where
  yes_reply no_reply other_reply : ConfirmationReply

pub record Conversation : Type 0 where
  pub status : ConversationStatus
  pub question : String
  pub proposed_command : String
  pub request_text : String
  pub attempts : ℕ
  pub asked_at : ℕ

-- Conversation()
abbrev pub new_conversation : Conversation
new_conversation = record {
  status = idle;
  question = "";
  proposed_command = "";
  request_text = "";
  attempts = 0;
  asked_at = 0;
}

-- RESUME_WINDOW_SECONDS and MAX_ATTEMPTS
abbrev pub resume_window : ℕ
resume_window = 180000

abbrev pub max_attempts : ℕ
max_attempts = 2

abbrev pub exhausted : Conversation → Bool
exhausted c = leb max_attempts c.attempts

-- `now - asked_at > RESUME_WINDOW_SECONDS`
unfoldable pub resumed : Conversation → ℕ → Conversation
resumed c now = if ltb (c.asked_at + resume_window) now then new_conversation else c

unfoldable pub awaiting : Conversation → String → ℕ → String → String → Conversation
awaiting c question now proposed_command text =
    if not (proposed_command == "")
    then record c {
      status = awaiting_confirmation;
      question = question;
      proposed_command = proposed_command;
      request_text = text;
      asked_at = now;
    }
    else record c {
      status = awaiting_answer;
      question = question;
      proposed_command = "";
      request_text = "";
      attempts = c.attempts + 1;
      asked_at = now;
    }

-- `intent`, by what the reply is classified as
abbrev pub intent_of : ConversationStatus → ConfirmationReply → TurnIntent
intent_of awaiting_confirmation yes_reply = confirmed
intent_of awaiting_confirmation no_reply = denied
intent_of awaiting_confirmation other_reply = request
intent_of idle _ = request
intent_of awaiting_answer _ = request

pub data AgentOutcome : Type 0 where
  command direct confirm clarify suggest unresolvable unavailable over_budget : AgentOutcome
  confirmed_outcome denied_outcome menu_hint_outcome : AgentOutcome

pub record AgentDecision : Type 0 where
  pub outcome : AgentOutcome
  pub command_text : String
  pub text : String
  pub provider : String
  pub prompt_version : String

pub record RetrievedExample : Type 0 where
  pub text : String
  pub command_text : String
  pub score : ℕ
