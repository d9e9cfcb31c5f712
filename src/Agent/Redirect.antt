-- ===== src/Agent/Redirect.antt =====
-- What becomes of a command before it is handed on: the rest of bot/application/agent_response.py. A
-- message of a group that asks for an answer in private sends it to the sender.
use resenhazord.Prelude.{
  String, ◌≡◌, refl, ap, subst, inl, inr, Bool, true, false, not, ◌&&◌, Option, none, some, List,
  if◌then◌else◌, Bool-cases, Option-cases,
}
use resenhazord.Text.{Unicode, concat, strip}
use resenhazord.Text.Regex.{
  Regex, word_boundary, seq, alt, star, maybe, group, space, literal_ci, search, erase,
}
use resenhazord.Command.{CommandData}
use resenhazord.Registry.{Registry}
use resenhazord.Agent.Translator.{Value, starts_with_comma, compose, normalize_flags, tail_text}
use resenhazord.Agent.Commas.{concat-comma, compose-comma, normalize_flags-comma}

-- DM_KEYWORDS
abbrev pub dm_keywords : Regex
dm_keywords =
    let send_to = seq (literal_ci "send") (
      seq (star space) (
        seq (maybe (seq (literal_ci "me") (star space)))
          (alt (literal_ci "dm") (literal_ci "privately")))) in
    let private = alt (literal_ci "privado") (
      alt (literal_ci "pv") (
        alt (literal_ci "dm") (
          alt (literal_ci "direct") (
            alt (literal_ci "mp") (
              alt (seq (literal_ci "message") (seq (star space) (literal_ci "privately")))
                send_to))))) in
    seq word_boundary (seq (group private) word_boundary)

-- rewritten[1:].strip(), where it starts with a comma
abbrev pub without_comma : String → String
without_comma text = if starts_with_comma text then strip (tail_text text) else text

module _ (u : Unicode) where
  abbrev pub asks_in_private : CommandData → Bool
  asks_in_private d =
      d.is_group && (elim (search u dm_keywords d.text) [ none ↦ false | some m ↦ true ])

  -- _apply_dm_redirect
  unfoldable pub apply_dm_redirect : String → CommandData → String × String
  unfolding search erase strip literal_ci
  apply_dm_redirect text d =
      if not (asks_in_private d)
      then (text, d.jid)
      else (concat "," (without_comma (strip (erase u dm_keywords text))), d.sender_jid)

  -- translate, of the text that `compose` gives
  unfoldable pub redirected : CommandData → String → CommandData
  unfolding apply_dm_redirect normalize_flags
  redirected d text =
      let (command_text, jid) = apply_dm_redirect text d in
      record d { text = normalize_flags u command_text; jid = jid }

  apply_dm_redirect-comma :
      (text : String) (d : CommandData)
      → starts_with_comma text ≡ true
      → starts_with_comma (apply_dm_redirect text d).0 ≡ true
  unfolding apply_dm_redirect
  apply_dm_redirect-comma text d h = elim (Bool-cases (asks_in_private d)) [
    | inl private ↦
        rw (private, apply_dm_redirect)
          (concat-comma "," (without_comma (strip (erase u dm_keywords text))) refl)
    | inr stays ↦ rw (stays, apply_dm_redirect) h
  ]

-- A command for the chat, or for the sender where the message asks for it; nothing else of the message
-- changes.
abbrev pub IsCommandFor : Unicode → CommandData → CommandData → Type 0
IsCommandFor u d d' =
    (starts_with_comma d'.text ≡ true)
    × (d' ≡ record d { text = d'.text; jid = if asks_in_private u d then d.sender_jid else d.jid })

apply_dm_redirect-jid :
    (u : Unicode) (text : String) (d : CommandData)
    → (apply_dm_redirect u text d).1 ≡ (if asks_in_private u d then d.sender_jid else d.jid)
unfolding apply_dm_redirect
apply_dm_redirect-jid u text d = elim (Bool-cases (asks_in_private u d)) [
  | inl private ↦ rw (private, apply_dm_redirect) refl
  | inr stays ↦ rw (stays, apply_dm_redirect) refl
]

redirected-IsCommandFor :
    (u : Unicode) (d : CommandData) (text : String)
    → starts_with_comma text ≡ true
    → IsCommandFor u d (redirected u d text)
unfolding redirected
redirected-IsCommandFor u d text h = (
  normalize_flags-comma u (apply_dm_redirect u text d).0 (apply_dm_redirect-comma u text d h),
  ap (λ j. record d { text = normalize_flags u (apply_dm_redirect u text d).0; jid = j })
      (apply_dm_redirect-jid u text d),
)

module _ {W : Type 0} (u : Unicode) (r : Registry W)
    (loads : String → Option (List (String × Value))) where
  -- translate: none where composing raises
  unfoldable pub translate : CommandData → String → String → Option CommandData
  unfolding compose redirected
  translate d name arguments = elim (compose u r loads name arguments) [
    | none ↦ none
    | some text ↦ some (redirected u d text)
  ]

  -- A call that is translated gives a text that starts with a comma, addressed to the chat or, where a
  -- message of a group asks for an answer in private, to its sender; nothing else of it changes.
  pub translate-IsCommandFor :
      (d : CommandData) (name arguments : String) (d' : CommandData)
      → translate d name arguments ≡ some d'
      → IsCommandFor u d d'
  unfolding translate compose
  translate-IsCommandFor d name arguments d' h =
      elim (Option-cases (compose u r loads name arguments)) [
        | inl broken ↦ absurd (cc (rw (broken, translate) at h))
        | inr (text, found) ↦
            let p : redirected u d text ≡ d' = cc (rw (found, translate) at h) in
            subst (IsCommandFor u d) p
              (redirected-IsCommandFor u d text (compose-comma u r loads name arguments text found))
      ]
