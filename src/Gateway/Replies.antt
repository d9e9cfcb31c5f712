-- ===== src/Gateway/Replies.antt =====
-- What the gateway reads of a reply that the core has written.
use resenhazord.Prelude.{
  ℕ, String, ◌≡◌, refl, ◌∙◌, inl, inr, false, ◌&&◌, Option, none, some, List, [], ◌∷◌,
  if◌then◌else◌, Bool-cases, Option-cases, ◌==◌, eq_of_beq, beq_self, string_eq, nat_eq, pair_eq,
}
use resenhazord.Command.{some_text}
use resenhazord.Message.{
  Bytes, Json, boolean, number, text_value, array, object, Fields, MessageContent, text_content,
  image_content, image_buffer_content, video_content, video_buffer_content, audio_content,
  audio_buffer_content, sticker_content, raw_content, BotMessage, no_fields, field,
}
use resenhazord.Message.Wire
use resenhazord.Message.Wire.{
  put_field, get_field, put_text, put_expiration, text_items, content_fields, message_fields,
  with_buffer, serialize,
}
use resenhazord.Gateway.{
  at_url, inlined, Sent, sent_text, sent_image, sent_video, sent_audio, sent_sticker, sent_raw,
  if_truthy, deserialize, to_message,
}

abbrev pub json_text : Option String → Option Json
json_text none = none
json_text (some s) = some (text_value s)

-- An expiration of 0 is none.
abbrev pub json_expiration : Option ℕ → Option Json
json_expiration none = none
json_expiration (some n) = if n == 0 then none else some (number n)

abbrev pub json_mentions : List String → Option Json
json_mentions [] = none
json_mentions (m ∷ ms) = some (array (text_items (m ∷ ms)))

-- What has to arrive of each content, with nothing said of how it is written.
abbrev pub arrived : (Bytes → Json → Json → Bytes) → MessageContent → Sent
arrived inject_exif (text_content text mentions) =
    sent_text (some (text_value text)) (json_mentions mentions)
arrived inject_exif (image_content c) =
    sent_image (at_url (some (text_value c.url))) (some (boolean c.view_once))
      (json_text (some_text c.caption))
arrived inject_exif (image_buffer_content c) =
    sent_image (inlined c.bytes) (some (boolean c.view_once)) (json_text (some_text c.caption))
arrived inject_exif (video_content c) =
    sent_video (at_url (some (text_value c.url))) (some (boolean c.view_once)) none
      (json_text (some_text c.caption))
arrived inject_exif (video_buffer_content c) =
    sent_video (inlined c.bytes) (some (boolean c.view_once)) (some (boolean c.gif_playback))
      (json_text (some_text c.caption))
arrived inject_exif (audio_content c) =
    sent_audio (at_url (some (text_value c.url))) (some (boolean c.view_once))
      (text_value c.mimetype)
arrived inject_exif (audio_buffer_content bytes mimetype) =
    sent_audio (inlined bytes) none (text_value mimetype)
arrived inject_exif (sticker_content bytes pack author) = sent_sticker (
    if pack == "" && author == ""
    then bytes
    else inject_exif bytes (text_value pack) (text_value author))
arrived inject_exif (raw_content content) = sent_raw (some content)

get_field-put_field_self :
    (d : Fields) (name : String) (v : Json) → get_field (put_field d name v) name ≡ some v
unfolding get_field put_field
get_field-put_field_self no_fields name v = rw (beq_self name) refl
get_field-put_field_self (field n w d) name v = elim (Bool-cases (n == name)) [
  | inl e ↦ rw (e, put_field) (rw e refl)
  | inr e ↦ rw (e, put_field) (rw e (get_field-put_field_self d name v))
]

get_field-put_field_ne :
    (d : Fields) (name other : String) (v : Json)
    → (name == other) ≡ false
    → get_field (put_field d name v) other ≡ get_field d other
unfolding get_field put_field
get_field-put_field_ne no_fields name other v h = rw h refl
get_field-put_field_ne (field n w d) name other v h = elim (Bool-cases (n == name)) [
  | inl e ↦ rw (e, put_field) (rw (eq_of_beq n name e, h) refl)
  | inr e ↦ rw (e, put_field) (rw (get_field-put_field_ne d name other v h) refl)
]

get_field-put_text_ne :
    (d : Fields) (name other : String) (v : Option String)
    → (name == other) ≡ false
    → get_field (put_text d name v) other ≡ get_field d other
unfolding put_text
get_field-put_text_ne d name other v h = elim (Option-cases (some_text v)) [
  | inl e ↦ rw (e, put_text) refl
  | inr (s, e) ↦ rw (e, put_text) (get_field-put_field_ne d name other (text_value s) h)
]

get_field-put_expiration_ne :
    (d : Fields) (n : Option ℕ) (other : String)
    → ("expiration" == other) ≡ false
    → get_field (put_expiration d n) other ≡ get_field d other
unfolding put_expiration
get_field-put_expiration_ne d none other h = refl
get_field-put_expiration_ne d (some n) other h = elim (Bool-cases (n == 0)) [
  | inl e ↦ rw (e, put_expiration) refl
  | inr e ↦ rw (e, put_expiration) (get_field-put_field_ne d "expiration" other (number n) h)
]

expiration-json :
    (d : Fields) (n : Option ℕ)
    → get_field d "expiration" ≡ none
    → if_truthy (get_field (put_expiration d n) "expiration") ≡ json_expiration n
unfolding put_expiration
expiration-json d none h = rw h refl
expiration-json d (some n) h = elim (Bool-cases (n == 0)) [
  | inl e ↦ rw (e, h) refl
  | inr e ↦ rw (e, get_field-put_field_self d "expiration" (number n)) (rw e refl)
]

module _ (m : BotMessage) (content : Fields) where
  message_fields-jid : get_field (message_fields m content) "jid" ≡ some (text_value m.jid)
  unfolding message_fields get_field
  message_fields-jid =
      get_field-put_expiration_ne _ m.expiration "jid" refl
      ∙ get_field-put_text_ne _ "quoted_message_id" "jid" m.quoted_message_id refl

  message_fields-content : get_field (message_fields m content) "content" ≡ some (object content)
  unfolding message_fields get_field
  message_fields-content =
      get_field-put_expiration_ne _ m.expiration "content" refl
      ∙ get_field-put_text_ne _ "quoted_message_id" "content" m.quoted_message_id refl

  message_fields-expiration :
      if_truthy (get_field (message_fields m content) "expiration") ≡ json_expiration m.expiration
  unfolding message_fields get_field
  message_fields-expiration =
      expiration-json _ m.expiration
        (get_field-put_text_ne _ "quoted_message_id" "expiration" m.quoted_message_id refl)

module _ (b64encode : Bytes → String) (b64decode : String → Bytes) (js_text : Option Json → String)
    (inject_exif : Bytes → Json → Json → Bytes)
    (decode_encode : (bytes : Bytes) → b64decode (b64encode bytes) ≡ bytes)
    (text_as_is : (s : String) → js_text (some (text_value s)) ≡ s) where
  deserialize-content :
      (c : MessageContent)
      → deserialize b64decode js_text inject_exif
          (some (object (with_buffer b64encode (content_fields c) (Wire.buffer c))))
        ≡ arrived inject_exif c
  unfolding deserialize content_fields put_field get_field put_text
  deserialize-content (text_content text []) = refl
  deserialize-content (text_content text (m ∷ ms)) = refl
  deserialize-content (image_content c) = elim (Option-cases (some_text c.caption)) [
    | inl e ↦ rw (e, put_text) refl
    | inr (s, e) ↦ rw (e, put_text) refl
  ]
  deserialize-content (image_buffer_content c) = elim (Option-cases (some_text c.caption)) [
    | inl e ↦ rw (e, put_text, content_fields, text_as_is, decode_encode) refl
    | inr (s, e) ↦ rw (e, put_text, content_fields, text_as_is, decode_encode) refl
  ]
  deserialize-content (video_content c) = elim (Option-cases (some_text c.caption)) [
    | inl e ↦ rw (e, put_text) refl
    | inr (s, e) ↦ rw (e, put_text) refl
  ]
  deserialize-content (video_buffer_content c) = elim (Option-cases (some_text c.caption)) [
    | inl e ↦ elim (Bool-cases c.gif_playback) [
      | inl g ↦ rw (e, g, put_text, content_fields, text_as_is, decode_encode) refl
      | inr g ↦ rw (e, g, put_text, content_fields, text_as_is, decode_encode) refl
    ]
    | inr (s, e) ↦ elim (Bool-cases c.gif_playback) [
      | inl g ↦ rw (e, g, put_text, content_fields, text_as_is, decode_encode) refl
      | inr g ↦ rw (e, g, put_text, content_fields, text_as_is, decode_encode) refl
    ]
  ]
  deserialize-content (audio_content c) = refl
  deserialize-content (audio_buffer_content bytes mimetype) = rw (text_as_is, decode_encode) refl
  deserialize-content (sticker_content bytes pack author) = elim (Bool-cases (pack == "")) [
    | inl e ↦ elim (Bool-cases (author == "")) [
      | inl g ↦ rw (g, put_text, e, text_as_is, decode_encode) refl
      | inr g ↦ rw (g, put_text, e, text_as_is, decode_encode) (rw (g, eq_of_beq pack "" e) refl)
    ]
    | inr e ↦ elim (Bool-cases (author == "")) [
      | inl g ↦ rw (g, put_text, e, text_as_is, decode_encode) (rw (e, eq_of_beq author "" g) refl)
      | inr g ↦ rw (g, put_text, e, text_as_is, decode_encode) (rw e refl)
    ]
  ]
  deserialize-content (raw_content content) = refl

  -- What the core serialises the gateway reads back: the chat, the content with its bytes and
  -- caption, and the expiration. It needs that base64 is decoded to what was encoded, and that
  -- JavaScript's `String` keeps a string. An empty caption and an expiration of 0 are none.
  pub to_message-serialize :
      (m : BotMessage)
      → to_message b64decode js_text inject_exif (serialize b64encode m) ≡ record {
        jid = some (text_value m.jid);
        content = arrived inject_exif m.content;
        ephemeral_expiration = json_expiration m.expiration;
      }
  unfolding to_message serialize
  to_message-serialize m =
      let content = with_buffer b64encode (content_fields m.content) (Wire.buffer m.content) in
      rw
        (
          message_fields-jid m content,
          message_fields-content m content,
          deserialize-content m.content,
          message_fields-expiration m content,
        )
        refl
