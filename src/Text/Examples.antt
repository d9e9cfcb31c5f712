-- ===== src/Text/Examples.antt =====
-- The interpreter's tables on ASCII, and runs of the patterns.
use Prim.Native.Char.{Char, code}
use resenhazord.Prelude.{
  ℕ, ◌-◌, ◌≡◌, refl, Bool, false, ◌||◌, Option, none, some, if◌then◌else◌, ◌==◌, string_eq, nat_eq,
  pair_eq,
}
use resenhazord.Text.{Unicode, between}
use resenhazord.Jid.{strip_jid, normalize_jid}

abbrev pub ascii_decimal : Char → Option ℕ
ascii_decimal c = if between b'0' b'9' (code c) then some (code c - b'0') else none

abbrev pub ascii_word : Char → Bool
ascii_word c =
    between b'0' b'9' (code c)
    || between b'a' b'z' (code c)
    || between b'A' b'Z' (code c)
    || code c == b'_'

-- texts that are in lower case already
abbrev pub ascii : Unicode
ascii = record {
  lower = λ s. s;
  upper = λ s. s;
  is_word = ascii_word;
  decimal = ascii_decimal;
  is_digit = λ c. between b'0' b'9' (code c);
  nfkd = λ s. s;
  is_combining = λ c. false;
}

strip_jid_run : strip_jid ascii "5511@s.WhatsApp.net" ≡ "5511"
unfolding strip_jid
strip_jid_run = refl

normalize_jid_run : normalize_jid ascii "5511:12@s.whatsapp.net" ≡ "5511@s.whatsapp.net"
unfolding normalize_jid
normalize_jid_run = refl

normalize_jid_keeps : normalize_jid ascii "a:12b@lid" ≡ "a:12b@lid"
unfolding normalize_jid
normalize_jid_keeps = refl
