-- ===== src/Birthday/Scheduler.antt =====
-- bot/application/birthday_scheduler.py: the greetings of a day. The claims are the keys that Redis
-- holds; they outlive the day. `up` is whether Redis answers, `published` whether a greeting can be
-- handed to the broker.
use resenhazord.Prelude.{
  String, Bool, true, false, not, ◌||◌, none, some, List, [], ◌∷◌, ◌++◌, if◌then◌else◌, string_eq,
  nat_eq, pair_eq,
}
use resenhazord.Prelude.Dict.{Dict}
use resenhazord.Text.{Unicode, concat}
use resenhazord.Text.Split.{join}
use resenhazord.Jid.{strip_jid}
use resenhazord.Command.{some_text}
use resenhazord.Command.Run.{contains}
use resenhazord.Birthday.Book.{Book, message_for}

-- DEFAULT_BIRTHDAY_MESSAGE
abbrev pub default_birthday_message : String
default_birthday_message = "Feliz aniversário! 🥳 Que o seu dia seja pura resenha 🎉"

-- The chat, the text and the mentions of a message to the gateway.
pub record Greeting : Type 0 where
  pub chat : String
  pub text : String
  pub mentions : List String

-- The claim of a chat on a day, given as by date.isoformat.
unfoldable pub claim_of : String → String → String
claim_of chat day = concat "birthday_sent" (concat ":" (concat chat (concat ":" day)))

-- _claim: whether the greeting is ours, and the keys after it. `redis` is whether there is one.
unfoldable pub claim : Bool → Bool → List String → String → Bool × List String
unfolding contains
claim redis up keys key =
    if not redis || not up
    then (true, keys)
    else if contains key keys
    then (false, keys)
    else (true, key ∷ keys)

abbrev pub at_each : Unicode → List String → List String
at_each u [] = []
at_each u (jid ∷ jids) = concat "@" (strip_jid u jid) ∷ at_each u jids

module _ (u : Unicode) (redis up : Bool) (published : String → Bool) (book : Book)
    (day : String) where
  -- BIRTHDAY_GREETING, with the chat's own message where it has one that is not empty
  unfoldable pub greeting : String → List String → Greeting
  unfolding join strip_jid
  greeting chat users =
      let text : String = elim (some_text (message_for book chat)) [
        | none ↦ default_birthday_message
        | some s ↦ s
      ] in
      record {
        chat = chat;
        text = concat "🎂 " (concat (join " " (at_each u users)) (concat "\n\n" text));
        mentions = users;
      }

  -- The loop of `celebrate` over the chats of the day: what is sent, and the keys. A greeting that
  -- cannot be published ends the loop.
  unfoldable pub celebrate : List String → Dict String (List String) → List Greeting × List String
  unfolding claim claim_of greeting
  celebrate keys [] = ([], keys)
  celebrate keys ((chat, users) ∷ chats) =
      let (ours, keys') = claim redis up keys (claim_of chat day) in
      let (later, keys'') = celebrate keys' chats in
      if not ours
      then (later, keys'')
      else if not (published chat)
      then ([], keys')
      else (greeting chat users ∷ later, keys'')

-- Several runs on one day, after restarts: each with what can be published in it, the book and the
-- chats by then.
abbrev pub Run : Type 0
Run = (String → Bool) × Book × Dict String (List String)

unfoldable pub greetings : Unicode → String → List String → List Run → List Greeting
unfolding celebrate
greetings u day keys [] = []
greetings u day keys ((published, book, chats) ∷ runs) =
    let (sent, keys') = celebrate u true true published book day keys chats in
    sent ++ greetings u day keys' runs
