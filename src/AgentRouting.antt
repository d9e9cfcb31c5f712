-- ===== src/AgentRouting.antt =====
-- bot/application/agent_routing.py: which messages go to the agent, and bot/application/
-- throttled_agent.py. The agent and its limiter act on the world `W`.
use Prim.Native.Char.{code}
use text.Mathlib.Text.{starts_with}
use resenhazord.Prelude.{
  String, Bool, true, false, not, ◌&&◌, ◌||◌, Option, none, some, List, [], ◌∷◌, if◌then◌else◌,
  ◌==◌, string_eq, nat_eq, pair_eq,
}
use resenhazord.Text.{Unicode, concat, lstrip}
use resenhazord.Text.Regex.{Regex, word_boundary, seq, alt, plus, maybe, literal_ci, space, search}
use resenhazord.Command.{CommandData}
use resenhazord.Command.Run.{contains, Raised, Result, ok, raised}
use resenhazord.CommandText.{clarify_prefix, agent_menu_hint}
use resenhazord.Registry.{Registry, get_strategy}

abbrev pub bot_mention_tag : String
bot_mention_tag = "@resenhazord"

abbrev pub command_prefix : String
command_prefix = ","

-- `\b(mande|me\s+manda|me\s+envie|envie)\s+(um?|uma)\b`, ignoring case
abbrev send_me : Regex
send_me = seq word_boundary (
    seq
      (alt (literal_ci "mande") (
        alt (seq (literal_ci "me") (seq (plus space) (literal_ci "manda"))) (
          alt (seq (literal_ci "me") (seq (plus space) (literal_ci "envie")))
            (literal_ci "envie"))))
      (seq (plus space) (
        seq (alt (seq (literal_ci "u") (maybe (literal_ci "m"))) (literal_ci "uma"))
          word_boundary)))

-- jid.split('@')[0]
unfoldable pub before_at : String → String
before_at String.[] = ""
before_at (String.◌∷◌ c s) =
    let rest = before_at s in if code c == b'@' then "" else String.◌∷◌ c rest

-- `BOT_MENTION_TAG in text`
unfoldable pub occurs : String → String → Bool
occurs needle String.[] = needle == ""
occurs needle (String.◌∷◌ c s) = starts_with (String.◌∷◌ c s) needle || occurs needle s

-- _bot_numeric: the part before `@` of each id that is not empty
unfoldable pub bot_numbers : List String → List String
unfolding before_at
bot_numbers [] = []
bot_numbers (jid ∷ jids) =
    let rest = bot_numbers jids in if jid == "" then rest else before_at jid ∷ rest

unfoldable pub is_mentioned : List String → List String → Bool
unfolding before_at contains
is_mentioned bots [] = false
is_mentioned bots (jid ∷ jids) = contains (before_at jid) bots || is_mentioned bots jids

unfoldable pub is_explicit_mention : Unicode → List String → CommandData → Bool
unfolding is_mentioned occurs search literal_ci
is_explicit_mention u bots d =
    is_mentioned bots d.mentioned_jids
    || occurs bot_mention_tag (u.lower d.text)
    || (elim (search u send_me (u.lower d.text)) [ none ↦ false | some _ ↦ true ])

-- How a turn of the agent ends: with the message rewritten as a command, with a ValueError, or with
-- another exception.
pub data Turn : Type 0 where
  turned : CommandData → Turn
  value_error : Turn
  failed : Raised → Turn

-- The key of the conversation: `participant or sender_jid`.
abbrev pub conversation : CommandData → String
conversation d = concat d.jid (
    concat ":"
      (elim d.participant [ none ↦ d.sender_jid | some p ↦ if p == "" then d.sender_jid else p ]))

-- A ValueError becomes an apology to the user.
abbrev pub answer_of : CommandData → Turn → Result (Option CommandData)
answer_of d (turned d') = ok (some d')
answer_of d value_error =
    ok (
      some (record d { text = concat clarify_prefix (concat "Erro inesperado. " agent_menu_hint) }))
answer_of d (failed e) = raised e

module _ {W : Type 0} where
  unfoldable pub should_route : Unicode → List String → Registry W → CommandData → Bool
  unfolding lstrip
  should_route u bots r d =
      if is_explicit_mention u bots d
      then true
      else if d.is_group && not (starts_with (lstrip d.text) command_prefix)
      then false
      else (elim (get_strategy u r d.text) [ none ↦ true | some _ ↦ false ])

  -- AgentRouting.map over ThrottledAgent.run: none where the limiter refuses the turn
  unfoldable pub map_turn :
      (W → String → Bool × W)
      → (W → CommandData → Turn × W)
      → W
      → CommandData
      → Result (Option CommandData) × W
  map_turn allow agent w d =
      let (allowed, w') = allow w (conversation d) in
      if not allowed
      then (ok none, w')
      else (let (turn, w'') = agent w' d in (answer_of d turn, w''))
