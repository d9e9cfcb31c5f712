-- ===== src/Handler/Routing.antt =====
-- When the agent is left asleep: bot/application/agent_routing.py under CommandHandler.handle.
use text.Mathlib.Text.{starts_with}
use resenhazord.Prelude.{ℕ, String, ◌≡◌, refl, ◌⊎◌, inl, inr, Bool, true, false, some, arith}
use resenhazord.Text.{lstrip}
use resenhazord.Command.{CommandData}
use resenhazord.Registry.{get_strategy}
use resenhazord.AgentRouting.{Turn, command_prefix, is_explicit_mention, should_route}
use resenhazord.Handler.{Parts, handle, handle_text, dispatch, run_command}

module _ {W S : Type 0} (parts : Parts W S) (d : CommandData) where
  -- The text is plain chatter of a group, or a command matches it.
  abbrev pub IsDirect : Type 0
  IsDirect =
      ((d.is_group ≡ true) × (starts_with (lstrip d.text) command_prefix ≡ false))
      ⊎ ((i : ℕ) × (get_strategy parts.unicode parts.registry d.text ≡ some i))

  should_route-direct :
      is_explicit_mention parts.unicode parts.bots d ≡ false
      → IsDirect
      → should_route parts.unicode parts.bots parts.registry d ≡ false
  unfolding should_route
  should_route-direct h (inl (group, chatter)) = ground (arith, h, group, chatter)
  should_route-direct h (inr (i, found)) = rw (h, found, should_route) (ground arith)

  -- A message that neither mentions the bot, by its number or its tag, nor asks it to send something,
  -- as `me manda um` does, and that is plain chatter of a group or that a command matches, is handled
  -- the same whatever the agent and its limiter would do: they are not asked.
  pub handle-asleep :
      (allow : W → String → Bool × W) (agent : W → CommandData → Turn × W) (w : W) (s : S)
      → is_explicit_mention parts.unicode parts.bots d ≡ false
      → IsDirect
      → handle (record parts { allow = allow; agent = agent }) d w s ≡ handle parts d w s
  unfolding handle handle_text dispatch run_command
  handle-asleep allow agent w s h g =
      let asleep = should_route-direct h g in rw (asleep, handle) refl
