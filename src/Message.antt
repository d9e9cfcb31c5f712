-- ===== src/Message.antt =====
-- What the bot sends: bot/domain/models/message.py with its contents, and the builder
-- bot/domain/builders/reply.py.
pub mod Wire
use resenhazord.Prelude.{ℕ, String, Bool, true, false, Option, List, []}
use resenhazord.Command.{CommandData}

abbrev pub Bytes : Type 0
Bytes = List ℕ

-- The values of a JSON document.
mutual
  pub data Json : Type 0 where
    null : Json
    boolean : Bool → Json
    number : ℕ → Json
    text_value : String → Json
    array : Items → Json
    object : Fields → Json

  pub data Items : Type 0 where
    no_items : Items
    item : Json → Items → Items

  pub data Fields : Type 0 where
    no_fields : Fields
    field : String → Json → Fields → Fields

pub record Image : Type 0 where
  pub url : String
  pub caption : Option String
  pub view_once : Bool

pub record ImageBuffer : Type 0 where
  pub bytes : Bytes
  pub caption : Option String
  pub view_once : Bool

pub record Video : Type 0 where
  pub url : String
  pub caption : Option String
  pub view_once : Bool

pub record VideoBuffer : Type 0 where
  pub bytes : Bytes
  pub caption : Option String
  pub view_once : Bool
  pub gif_playback : Bool

pub record Audio : Type 0 where
  pub url : String
  pub view_once : Bool
  pub mimetype : String

pub data MessageContent : Type 0 where
  text_content : String → List String → MessageContent
  image_content : Image → MessageContent
  image_buffer_content : ImageBuffer → MessageContent
  video_content : Video → MessageContent
  video_buffer_content : VideoBuffer → MessageContent
  audio_content : Audio → MessageContent
  -- the data and the MIME type
  audio_buffer_content : Bytes → String → MessageContent
  -- the data, the pack and the author
  sticker_content : Bytes → String → String → MessageContent
  raw_content : Json → MessageContent

pub record BotMessage : Type 0 where
  pub jid : String
  pub content : MessageContent
  pub quoted_message_id : Option String
  pub expiration : Option ℕ

-- Reply.to(data)._build(content)
abbrev pub reply_to : CommandData → MessageContent → BotMessage
reply_to data' content = record {
  jid = data'.jid;
  content = content;
  quoted_message_id = data'.message_id;
  expiration = data'.expiration;
}

-- Reply.to(data).text(text), and text_with
abbrev pub reply_text : CommandData → String → BotMessage
reply_text d text = reply_to d (text_content text [])

abbrev pub reply_text_with : CommandData → String → List String → BotMessage
reply_text_with d text mentions = reply_to d (text_content text mentions)

-- The other builders: what they send is for one view, where its type can be.
abbrev pub reply_image : CommandData → String → Option String → BotMessage
reply_image d url caption =
    reply_to d (image_content (record { url = url; caption = caption; view_once = true }))

abbrev pub reply_image_buffer : CommandData → Bytes → Option String → BotMessage
reply_image_buffer d bytes caption =
    reply_to d
      (image_buffer_content (record { bytes = bytes; caption = caption; view_once = true }))

abbrev pub reply_video : CommandData → String → Option String → BotMessage
reply_video d url caption =
    reply_to d (video_content (record { url = url; caption = caption; view_once = true }))

abbrev pub reply_video_buffer : CommandData → Bytes → Option String → Bool → BotMessage
reply_video_buffer d bytes caption gif_playback = reply_to d (
    video_buffer_content
      (record { bytes = bytes; caption = caption; view_once = true; gif_playback = gif_playback }))

abbrev pub reply_audio : CommandData → String → String → BotMessage
reply_audio d url mimetype =
    reply_to d (audio_content (record { url = url; view_once = true; mimetype = mimetype }))

abbrev pub reply_audio_buffer : CommandData → Bytes → String → BotMessage
reply_audio_buffer d bytes mimetype = reply_to d (audio_buffer_content bytes mimetype)

abbrev pub reply_sticker : CommandData → Bytes → String → String → BotMessage
reply_sticker d bytes pack author = reply_to d (sticker_content bytes pack author)

abbrev pub reply_raw : CommandData → Json → BotMessage
reply_raw d content = reply_to d (raw_content content)

-- `has_buffer` of each content: whether it carries bytes
abbrev pub has_buffer : MessageContent → Bool
has_buffer (image_buffer_content _) = true
has_buffer (video_buffer_content _) = true
has_buffer (audio_buffer_content _ _) = true
has_buffer (sticker_content _ _ _) = true
has_buffer _ = false
