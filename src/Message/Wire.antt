-- ===== src/Message/Wire.antt =====
-- How a reply is written for the broker: `to_dict` of the contents and of BotMessage, and
-- CommandEnvelope.reply of bot/adapters/broker/command_envelope.py.
use resenhazord.Prelude.{
  ℕ, String, Bool, true, false, Option, none, some, List, [], ◌∷◌, if◌then◌else◌, ◌==◌, string_eq,
  nat_eq, pair_eq,
}
use resenhazord.Command.{some_text}
use resenhazord.Message.{
  Bytes, Json, boolean, number, text_value, array, object, Items, no_items, item, Fields, no_fields,
  field, MessageContent, text_content, image_content, image_buffer_content, video_content,
  video_buffer_content, audio_content, audio_buffer_content, sticker_content, raw_content,
  BotMessage,
}

-- d[name] = value
unfoldable pub put_field : Fields → String → Json → Fields
put_field no_fields name value = field name value no_fields
put_field (field n v d) name value =
    let rest = put_field d name value in if n == name then field n value d else field n v rest

-- d.get(name)
unfoldable pub get_field : Fields → String → Option Json
get_field no_fields name = none
get_field (field n v d) name = if n == name then some v else get_field d name

-- if value: d[name] = value
unfoldable pub put_text : Fields → String → Option String → Fields
unfolding put_field
put_text d name value = elim (some_text value) [
  | none ↦ d
  | some s ↦ put_field d name (text_value s)
]

abbrev pub typed : String → Fields → Fields
typed kind d = field "type" (text_value kind) d

abbrev pub text_items : List String → Items
text_items [] = no_items
text_items (s ∷ ss) = item (text_value s) (text_items ss)

abbrev pub mention_fields : List String → Fields
mention_fields [] = no_fields
mention_fields (m ∷ ms) = field "mentions" (array (text_items (m ∷ ms))) no_fields

abbrev pub gif_fields : Bool → Fields
gif_fields true = field "gif_playback" (boolean true) no_fields
gif_fields false = no_fields

-- to_dict of each content
unfoldable pub content_fields : MessageContent → Fields
unfolding put_text
content_fields (text_content text mentions) =
    typed "text" (field "text" (text_value text) (mention_fields mentions))
content_fields (image_content c) =
    put_text
      (typed "image"
        (field "url" (text_value c.url) (field "view_once" (boolean c.view_once) no_fields)))
      "caption" c.caption
content_fields (image_buffer_content c) =
    put_text (typed "image_buffer" (field "view_once" (boolean c.view_once) no_fields)) "caption"
      c.caption
content_fields (video_content c) =
    put_text
      (typed "video"
        (field "url" (text_value c.url) (field "view_once" (boolean c.view_once) no_fields)))
      "caption" c.caption
content_fields (video_buffer_content c) =
    put_text
      (typed "video_buffer" (field "view_once" (boolean c.view_once) (gif_fields c.gif_playback)))
      "caption" c.caption
content_fields (audio_content c) = typed "audio" (
    field "url" (text_value c.url) (
      field "view_once" (boolean c.view_once) (field "mimetype" (text_value c.mimetype) no_fields)))
content_fields (audio_buffer_content bytes mimetype) =
    typed "audio_buffer" (field "mimetype" (text_value mimetype) no_fields)
content_fields (sticker_content bytes pack author) =
    put_text (put_text (typed "sticker" no_fields) "pack" (some pack)) "author" (some author)
content_fields (raw_content content) = typed "raw" (field "content" content no_fields)

-- if expiration: d['expiration'] = expiration
unfoldable pub put_expiration : Fields → Option ℕ → Fields
unfolding put_field
put_expiration d none = d
put_expiration d (some n) = if n == 0 then d else put_field d "expiration" (number n)

-- BotMessage.to_dict, with the dict of its content
unfoldable pub message_fields : BotMessage → Fields → Fields
unfolding put_text put_expiration
message_fields m content =
    put_expiration
      (put_text (field "jid" (text_value m.jid) (field "content" (object content) no_fields))
        "quoted_message_id" m.quoted_message_id)
      m.expiration

-- `buffer` of the contents that have one
abbrev pub buffer : MessageContent → Option Bytes
buffer (image_buffer_content c) = some c.bytes
buffer (video_buffer_content c) = some c.bytes
buffer (audio_buffer_content bytes mimetype) = some bytes
buffer (sticker_content bytes pack author) = some bytes
buffer _ = none

module _ (b64encode : Bytes → String) where
  abbrev pub with_buffer : Fields → Option Bytes → Fields
  with_buffer d none = d
  with_buffer d (some bytes) = put_field d "buffer_b64" (text_value (b64encode bytes))

  -- _serialize
  unfoldable pub serialize : BotMessage → Fields
  unfolding message_fields content_fields
  serialize m = message_fields m (with_buffer (content_fields m.content) (buffer m.content))

  abbrev pub message_items : List BotMessage → Items
  message_items [] = no_items
  message_items (m ∷ ms) = item (object (serialize m)) (message_items ms)

  -- reply
  unfoldable pub reply : String → List BotMessage → Fields
  unfolding serialize
  reply envelope_id messages =
      field "id" (text_value envelope_id)
        (field "messages" (array (message_items messages)) no_fields)
