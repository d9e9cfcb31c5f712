-- ===== src/Command/Run.antt =====
-- One run of a command: `Command.run`, `_run` and `_apply_flags` of bot/domain/commands/base.py, with
-- the exceptions of bot/domain/exceptions.py. What a command does in `execute` is the command's own,
-- so a command is a record that holds it; `W` is the world that it reads and changes.
use resenhazord.Prelude.{
  String, Bool, true, false, not, ◌&&◌, ◌||◌, Option, none, some, List, [], ◌∷◌, if◌then◌else◌, Eq,
  ◌==◌, string_eq, nat_eq, pair_eq,
}
use resenhazord.Prelude.Dict.{Dict}
use resenhazord.Command.{CommandConfig, CommandData}
use resenhazord.Message.{
  BotMessage, MessageContent, image_content, image_buffer_content, video_content,
  video_buffer_content, audio_content, reply_text,
}

-- The classes of exceptions.py, each with its direct base.
pub data ErrorClass : Type 0 where
  bot_error command_error media_not_found media_unavailable validation external_service download
        sticker_too_large :
      ErrorClass

-- isinstance(error, ExternalServiceError)
abbrev pub is_external : ErrorClass → Bool
is_external external_service = true
is_external download = true
is_external _ = false

-- isinstance(error, DownloadError)
abbrev pub is_download : ErrorClass → Bool
is_download download = true
is_download _ = false

-- A BotError carries the text for the user; any other exception carries nothing that the code reads.
pub data Raised : Type 0 where
  bot : ErrorClass → String → Raised
  unexpected : Raised

pub data Result {ℓ} (A : Type ℓ) : Type ℓ where
  ok : A → Result A
  raised : Raised → Result A

pub record ParsedCommand : Type 0 where
  pub command_name : String
  pub flags : List String
  pub options : Dict String String
  pub rest : String

pub record Command (W : Type 0) : Type 0 where
  pub config : CommandConfig
  pub matches : String → Bool
  pub parse : String → ParsedCommand
  pub execute : W → CommandData → ParsedCommand → Result (List BotMessage) × W

unfoldable pub contains {ℓ} : {A : Type ℓ} ⦃e : Eq A⦄ → A → List A → Bool
contains a [] = false
contains a (x ∷ xs) = x == a || contains a xs

-- `msg.content.view_once = False`, where the content is one of the types that have the field
abbrev pub shown : MessageContent → MessageContent
shown (image_content c) = image_content (record c { view_once = false })
shown (image_buffer_content c) = image_buffer_content (record c { view_once = false })
shown (video_content c) = video_content (record c { view_once = false })
shown (video_buffer_content c) = video_buffer_content (record c { view_once = false })
shown (audio_content c) = audio_content (record c { view_once = false })
shown c = c

-- `if Flag.DM in parsed.flags and data.participant: msg.jid = data.participant`
abbrev pub redirected : Bool → Option String → String → String
redirected false participant jid = jid
redirected true none jid = jid
redirected true (some p) jid = if p == "" then jid else p

unfoldable pub apply_flags : CommandData → ParsedCommand → List BotMessage → List BotMessage
unfolding contains
apply_flags data' parsed [] = []
apply_flags data' parsed (msg ∷ rest) =
    record msg {
      jid = redirected (contains "dm" parsed.flags) data'.participant msg.jid;
      content = if contains "show" parsed.flags then shown msg.content else msg.content;
    }
    ∷ apply_flags data' parsed rest

abbrev pub group_only_message : String
group_only_message = "Ah, esse comando só funciona em grupo! 😊"

module _ {W : Type 0} where
  -- _run, as `run` returns or raises it: the span and the log of `run` change neither
  unfoldable pub run : Command W → W → CommandData → Result (List BotMessage) × W
  run cmd w d =
      if cmd.config.group_only && not d.is_group
      then (ok (reply_text d group_only_message ∷ []), w)
      else let parsed = cmd.parse d.text in
        let (result, w') = cmd.execute w d parsed in
        (elim result [ ok messages ↦ ok (apply_flags d parsed messages) | raised e ↦ raised e ], w')
