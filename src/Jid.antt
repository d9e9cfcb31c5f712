-- ===== src/Jid.antt =====
-- bot/domain/jid.py
use Prim.Native.Char.{code}
use resenhazord.Prelude.{
  String, Option, none, some, List, [], ◌∷◌, if◌then◌else◌, ◌==◌, string_eq, nat_eq, pair_eq,
}
use resenhazord.Text.{Unicode}
use resenhazord.Text.Regex.{Regex, seq, alt, plus, literal, literal_ci, ahead_is, digit, erase}

-- `@lid|@s\.whatsapp\.net`, ignoring case
abbrev jid_suffix : Regex
jid_suffix = alt (literal_ci "@lid") (literal_ci "@s.whatsapp.net")

-- `:\d+(?=@)`
abbrev device_suffix : Unicode → Regex
device_suffix u = seq (literal ":") (seq (plus (digit u)) (ahead_is (λ c. code c == b'@')))

unfoldable pub strip_jid : Unicode → String → String
unfolding literal_ci erase
strip_jid u jid = erase u jid_suffix jid

unfoldable pub normalize_jid : Unicode → String → String
unfolding literal erase
normalize_jid u jid = erase u (device_suffix u) jid

-- A null entry is `none`; the empty text is dropped too.
unfoldable pub normalize_jids : Unicode → List (Option String) → List String
unfolding normalize_jid
normalize_jids u [] = []
normalize_jids u (none ∷ jids) = normalize_jids u jids
normalize_jids u (some jid ∷ jids) =
    let rest = normalize_jids u jids in if jid == "" then rest else normalize_jid u jid ∷ rest
