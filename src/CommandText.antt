-- ===== src/CommandText.antt =====
-- bot/application/command_text.py: the batch suffix, and the replies that the agent writes as
-- commands. The constants are those of bot/domain/constants.py.
pub mod Laws
use Prim.Native.Char.{Char, code}
use Prim.Native.String
use text.Mathlib.Text.{starts_with}
use resenhazord.Prelude.{
  ℕ, ◌+◌, ◌*◌, String, Option, none, some, List, [], ◌∷◌, ltb, if◌then◌else◌, ◌==◌, string_eq,
  nat_eq, pair_eq,
}
use resenhazord.Text.{Unicode, strip, drop_prefix}
use resenhazord.Text.Regex.{
  Regex, seq, star, plus, group, end_anchor, literal, space, digit, search, first_group,
}
use resenhazord.Command.{CommandData}
use resenhazord.Message.{BotMessage, reply_text}

abbrev pub clarify_prefix : String
clarify_prefix = ",clarify:"

abbrev pub suggest_prefix : String
suggest_prefix = ",suggest:"

abbrev pub agent_menu_hint : String
agent_menu_hint = "Use o comando de menu para ver as opções disponíveis"

-- `\s+(\d+)x\s*$`
abbrev pub batch_pattern : Unicode → Regex
batch_pattern u =
    seq (plus space)
      (seq (group (plus (digit u))) (seq (literal "x") (seq (star space) end_anchor)))

abbrev pub max_batch : ℕ
max_batch = 5

-- int(text), for a text of decimal digits
unfoldable pub int_of : Unicode → ℕ → String → ℕ
int_of u n String.[] = n
int_of u n (String.◌∷◌ c s) = int_of u (elim (u.decimal c) [ none ↦ n | some v ↦ n * 10 + v ]) s

-- max(count, 1), where count = min(int(match.group(1)), _MAX_BATCH)
abbrev pub clamped : ℕ → ℕ
clamped n = let count = if ltb max_batch n then max_batch else n in if ltb count 1 then 1 else count

unfoldable pub split_batch : Unicode → CommandData → ℕ × CommandData
unfolding int_of
split_batch u d = elim (search u (batch_pattern u) d.text) [
  | none ↦ (1, d)
  | some m ↦ (clamped (int_of u 0 (first_group m)), record d { text = m.before })
]

-- text[len(prefix):].strip() or AGENT_MENU_HINT
abbrev pub builtin_message : String → String → String
builtin_message p text =
    let message = strip (drop_prefix p text) in if message == "" then agent_menu_hint else message

unfoldable pub builtin_reply : CommandData → Option (List BotMessage)
builtin_reply d =
    if starts_with d.text clarify_prefix
    then some (reply_text d (builtin_message clarify_prefix d.text) ∷ [])
    else if starts_with d.text suggest_prefix
    then some (reply_text d (builtin_message suggest_prefix d.text) ∷ [])
    else none
