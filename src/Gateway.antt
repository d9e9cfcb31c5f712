-- ===== src/Gateway.antt =====
-- gateway/src/bridge/ReplyDeserializer.ts: how the gateway reads a reply. A value that the source
-- reads by a cast is kept as the JSON value, none where the field is missing. The decoding of base64,
-- the text of a JSON value in JavaScript and the writing of a sticker's EXIF data are parameters.
pub mod Replies
use resenhazord.Prelude.{
  String, Bool, true, false, not, ◌||◌, Option, none, some, if◌then◌else◌, ◌==◌, string_eq, nat_eq,
  pair_eq,
}
use resenhazord.Message.{Bytes, Json, null, boolean, number, text_value, array, object, Fields}
use resenhazord.Message.Wire.{get_field}

-- where a medium comes from
pub data Source : Type 0 where
  at_url : Option Json → Source
  inlined : Bytes → Source

-- AnyMessageContent, as far as the deserializer builds it
pub data Sent : Type 0 where
  sent_text : Option Json → Option Json → Sent
  -- the image, viewOnce and caption
  sent_image : Source → Option Json → Option Json → Sent
  -- the video, viewOnce, gifPlayback where it is set, and caption
  sent_video : Source → Option Json → Option Json → Option Json → Sent
  -- the audio, viewOnce where it is set, and mimetype
  sent_audio : Source → Option Json → Json → Sent
  sent_sticker : Bytes → Sent
  sent_raw : Option Json → Sent
  unknown : Option Json → Sent

pub record Received : Type 0 where
  pub jid : Option Json
  pub content : Sent
  pub ephemeral_expiration : Option Json

-- JavaScript's truth of a value, undefined included.
abbrev pub truthy : Option Json → Bool
truthy none = false
truthy (some null) = false
truthy (some (boolean b)) = b
truthy (some (number n)) = not (n == 0)
truthy (some (text_value s)) = not (s == "")
truthy (some (array items)) = true
truthy (some (object d)) = true

-- value ?? fallback
abbrev pub or_else : Option Json → Json → Json
or_else none fallback = fallback
or_else (some null) fallback = fallback
or_else (some v) fallback = v

-- A field of a value that the source takes for an object.
abbrev pub field_of : Option Json → String → Option Json
field_of (some (object d)) name = get_field d name
field_of _ name = none

abbrev pub if_truthy : Option Json → Option Json
if_truthy v = if truthy v then v else none

module _ (b64decode : String → Bytes) (js_text : Option Json → String)
    (inject_exif : Bytes → Json → Json → Bytes) where
  -- buffer
  abbrev pub buffer : Option Json → Bytes
  buffer c = b64decode (js_text (field_of c "buffer_b64"))

  abbrev pub sticker : Bytes → Json → Json → Sent
  sticker webp pack author =
      if truthy (some pack) || truthy (some author)
      then sent_sticker (inject_exif webp pack author)
      else sent_sticker webp

  abbrev pub is_kind : Option Json → String → Bool
  is_kind (some (text_value s)) kind = s == kind
  is_kind _ kind = false

  -- deserializers, in the order of the source
  unfoldable pub deserialize : Option Json → Sent
  unfolding get_field
  deserialize c =
      let kind = field_of c "type" in
      let view_once = field_of c "view_once" in
      let caption = field_of c "caption" in
      let mimetype = or_else (field_of c "mimetype") (text_value "audio/mp4") in
      if is_kind kind "text"
      then sent_text (field_of c "text") (if_truthy (field_of c "mentions"))
      else if is_kind kind "image"
      then sent_image (at_url (field_of c "url")) view_once caption
      else if is_kind kind "image_buffer"
      then sent_image (inlined (buffer c)) view_once caption
      else if is_kind kind "video"
      then sent_video (at_url (field_of c "url")) view_once none caption
      else if is_kind kind "video_buffer"
      then sent_video (inlined (buffer c)) view_once
          (some (or_else (field_of c "gif_playback") (boolean false))) caption
      else if is_kind kind "audio"
      then sent_audio (at_url (field_of c "url")) view_once mimetype
      else if is_kind kind "audio_buffer"
      then sent_audio (inlined (buffer c)) none mimetype
      else if is_kind kind "sticker"
      then sticker (buffer c) (or_else (field_of c "pack") (text_value ""))
          (or_else (field_of c "author") (text_value ""))
      else if is_kind kind "raw"
      then sent_raw (field_of c "content")
      else unknown kind

  -- toMessage, with `options`
  unfoldable pub to_message : Fields → Received
  unfolding deserialize
  to_message raw = record {
    jid = get_field raw "jid";
    content = deserialize (get_field raw "content");
    ephemeral_expiration = if_truthy (get_field raw "expiration");
  }
