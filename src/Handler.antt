-- ===== src/Handler.antt =====
-- bot/application/command_handler.py: one message, from its text to the replies. The handler's own
-- state is the state of the configuration store; commands, the hook and the agent act on `W`.
pub mod Dispatch
pub mod Routing
use resenhazord.Prelude.{
  ℕ, zero, suc, String, Bool, Option, none, some, List, [], ◌++◌, if◌then◌else◌, get_elem?,
}
use resenhazord.Text.{Unicode}
use resenhazord.Command.{CommandData}
use resenhazord.Command.Run.{Command, Raised, Result, ok, raised, run}
use resenhazord.Message.{BotMessage}
use resenhazord.Config.{ChatConfig}
use resenhazord.DevList.{DevList}
use resenhazord.Gate.{admit}
use resenhazord.CommandText.{split_batch, builtin_reply}
use resenhazord.Registry.{Registry, get_strategy}
use resenhazord.AgentRouting.{Turn, should_route, map_turn}

-- What the handler is built from. `on_match` is the hook of the call, which does nothing if the call
-- gives none.
pub record Parts (W S : Type 0) : Type 0 where
  pub unicode : Unicode
  pub registry : Registry W
  pub bots : List String
  pub allow : W → String → Bool × W
  pub agent : W → CommandData → Turn × W
  pub load : S → String → String → ChatConfig × S
  pub devs : DevList
  pub on_match : Command W → W → W

-- What `handle` returns: none, the replies, or an exception.
abbrev pub Answer : Type 0
Answer = Result (Option (List BotMessage))

module _ {W S : Type 0} (parts : Parts W S) where
  -- _run_command: the first exception ends the batch, and drops its messages
  unfoldable pub run_command :
      Command W → CommandData → ℕ → W → List BotMessage → Result (List BotMessage) × W
  run_command cmd d zero w messages = (ok messages, w)
  run_command cmd d (suc n) w messages =
      let (result, w') = run cmd w d in
      elim result [
        | ok more ↦ run_command cmd d n w' (messages ++ more)
        | raised e ↦ (raised e, w')
      ]

  abbrev some_messages : Result (List BotMessage) → Answer
  some_messages (ok messages) = ok (some messages)
  some_messages (raised e) = raised e

  -- _dispatch
  unfoldable pub dispatch : Command W → CommandData → ℕ → W → S → Answer × W × S
  dispatch cmd d repeat w s =
      let (rejection, repeat', s') =
        admit parts.unicode parts.load parts.devs s cmd.config d repeat in
      elim rejection [
        | some messages ↦ (ok (some messages), w, s')
        | none ↦
            let (result, w') = run_command cmd d repeat' (parts.on_match cmd w) [] in
            (some_messages result, w', s')
      ]

  -- `handle` after the routing: the batch suffix, the replies of the agent, the command
  unfoldable pub handle_text : CommandData → W → S → Answer × W × S
  handle_text d w s =
      let (repeat, d') = split_batch parts.unicode d in
      elim (builtin_reply d') [
        | some replies ↦ (ok (some replies), w, s)
        | none ↦ elim (get_strategy parts.unicode parts.registry d'.text) [
          | none ↦ (ok none, w, s)
          | some i ↦ elim (get_elem? parts.registry.commands i) [
            | none ↦ (ok none, w, s)
            | some cmd ↦ dispatch cmd d' repeat w s
          ]
        ]
      ]

  unfoldable pub handle : CommandData → W → S → Answer × W × S
  unfolding handle_text
  handle d w s =
      if should_route parts.unicode parts.bots parts.registry d
      then (let (turn, w') = map_turn parts.allow parts.agent w d in
          elim turn [
            | ok none ↦ (ok none, w', s)
            | ok (some d') ↦ handle_text d' w' s
            | raised e ↦ (raised e, w', s)
          ])
      else handle_text d w s
