-- ===== src/Tests/Gateway.antt =====
-- What the gateway reads of replies, at concrete inputs.
use Prim.Native.Char.{code}
use resenhazord.Prelude.{
  ℕ, zero, suc, ◌+◌, String, ◌≡◌, refl, ap, ◌∙◌, true, false, Option, none, some, [], ◌∷◌, arith,
  if◌then◌else◌, ◌==◌, string_eq, nat_eq, pair_eq,
}
use resenhazord.Message.{Bytes, Json, boolean, text_value, BotMessage, video_buffer_content}
use resenhazord.Message.Wire.{serialize}
use resenhazord.Gateway.{sent_video, inlined, to_message}
use resenhazord.Gateway.Replies.{arrived, json_expiration, to_message-serialize}

-- A byte as so many letters, and a mark after it.
abbrev letters : ℕ → String → String
letters zero s = String.◌∷◌ "b" s
letters (suc n) s = String.◌∷◌ "a" (letters n s)

unfoldable encode : Bytes → String
encode [] = ""
encode (n ∷ bytes) = letters n (encode bytes)

unfoldable decode_from : ℕ → String → Bytes
decode_from n String.[] = []
decode_from n (String.◌∷◌ c s) =
    let more = decode_from (suc n) s in
    let next = decode_from 0 s in if code c == b'b' then n ∷ next else more

decode_from-letters :
    (n m : ℕ) (s : String) → decode_from m (letters n s) ≡ (m + n) ∷ decode_from 0 s
unfolding decode_from
decode_from-letters zero m s = ap (λ k. k ∷ decode_from 0 s) (omega arith)
decode_from-letters (suc n) m s =
    decode_from-letters n (suc m) s ∙ ap (λ k. k ∷ decode_from 0 s) {x = suc m + n} (omega arith)

decode-encode : (bytes : Bytes) → decode_from 0 (encode bytes) ≡ bytes
unfolding encode decode_from
decode-encode [] = refl
decode-encode (n ∷ bytes) =
    decode_from-letters n 0 (encode bytes)
    ∙ ap (λ l. (0 + n) ∷ l) (decode-encode bytes)
    ∙ ap (λ k. k ∷ bytes) {x = 0 + n} (omega arith)

abbrev as_text : Option Json → String
as_text (some (text_value s)) = s
as_text _ = "undefined"

abbrev no_exif : Bytes → Json → Json → Bytes
no_exif bytes pack author = bytes

abbrev clip : BotMessage
clip = record {
  jid = "1@g.us";
  content =
      video_buffer_content
        (record { bytes = 2 ∷ 0 ∷ []; caption = some ""; view_once = true; gif_playback = false });
  quoted_message_id = some "m";
  expiration = some 0;
}

clip_run : to_message (decode_from 0) as_text no_exif (serialize encode clip) ≡ record {
  jid = some (text_value "1@g.us");
  content = sent_video (inlined (2 ∷ 0 ∷ [])) (some (boolean true)) (some (boolean false)) none;
  ephemeral_expiration = none;
}
unfolding to_message serialize encode decode_from
clip_run = refl

to_message-serialize_example :
    to_message (decode_from 0) as_text no_exif (serialize encode clip) ≡ record {
      jid = some (text_value "1@g.us");
      content = arrived no_exif clip.content;
      ephemeral_expiration = json_expiration clip.expiration;
    }
to_message-serialize_example =
    to_message-serialize encode (decode_from 0) as_text no_exif decode-encode (λ s. refl) clip
