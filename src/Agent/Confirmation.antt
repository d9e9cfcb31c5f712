-- ===== src/Agent/Confirmation.antt =====
-- bot/domain/models/confirmation_reply.py with the replies of bot/data/agent_replies.py.
use Prim.Native.Char.{Char, code}
use resenhazord.Prelude.{
  String, Bool, false, not, ◌&&◌, ◌||◌, List, [], ◌∷◌, if◌then◌else◌, ◌==◌, string_eq, nat_eq,
  pair_eq,
}
use resenhazord.Text.{Unicode, between, lstrip, squeeze, keep}
use resenhazord.Command.Run.{contains}
use resenhazord.Agent.{ConfirmationReply, yes_reply, no_reply, other_reply}

abbrev pub confirm_replies : List String
confirm_replies =
    "sim" ∷ "s" ∷ "ss" ∷ "isso" ∷ "isso mesmo" ∷ "isso ai" ∷ "pode" ∷ "pode ser" ∷ "claro" ∷ "bora"
    ∷ "quero" ∷ "exato" ∷ "certo" ∷ "ok" ∷ "okay" ∷ "yes" ∷ "y" ∷ "👍" ∷ "✅" ∷ []

abbrev pub deny_replies : List String
deny_replies =
    "nao" ∷ "n" ∷ "nn" ∷ "errado" ∷ "negativo" ∷ "nope" ∷ "no" ∷ "nao e isso" ∷ "nao quero" ∷ "👎"
    ∷ "❌" ∷ []

-- `char not in EMOJI_MODIFIERS`, negated
abbrev pub is_emoji_modifier : Char → Bool
is_emoji_modifier c = between 0x1f3fb 0x1f3ff (code c) || code c == 0xfe0f

-- string.punctuation
abbrev pub is_punctuation : Char → Bool
is_punctuation c =
    between 33 47 (code c)
    || between 58 64 (code c)
    || between 91 96 (code c)
    || between 123 126 (code c)

unfoldable pub normalize : Unicode → String → String
unfolding squeeze keep lstrip
normalize u text =
    let unaccented =
      keep (λ c. not (u.is_combining c) && not (is_emoji_modifier c)) (u.nfkd (u.lower text)) in
    squeeze false (lstrip (keep (λ c. not (is_punctuation c)) unaccented))

unfoldable pub classify : Unicode → String → ConfirmationReply
unfolding normalize contains
classify u text =
    if contains (normalize u text) confirm_replies
    then yes_reply
    else if contains (normalize u text) deny_replies
    then no_reply
    else other_reply
