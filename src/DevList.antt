-- ===== src/DevList.antt =====
-- bot/domain/services/dev_list.py: the developers, as the ids of one MongoDB collection.
use resenhazord.Prelude.{
  String, Bool, true, false, ◌||◌, List, [], ◌∷◌, ◌++◌, if◌then◌else◌, ◌==◌, string_eq, nat_eq,
  pair_eq,
}
use resenhazord.Text.{Unicode, concat}
use text.Mathlib.Text.{starts_with}
use resenhazord.Command.Run.{contains}
use resenhazord.Jid.{strip_jid}

abbrev pub DevList : Type 0
DevList = List String

-- jid.startswith(('discord:', 'telegram:'))
abbrev pub is_namespaced : String → Bool
is_namespaced jid = starts_with jid "discord:" || starts_with jid "telegram:"

unfoldable pub is_dev : Unicode → DevList → String → Bool
unfolding contains
is_dev u devs jid =
    if is_namespaced jid
    then contains jid devs
    else let number = strip_jid u jid in
      contains (concat number "@lid") devs || contains (concat number "@s.whatsapp.net") devs

-- add: the upsert says whether the id is new
unfoldable pub add : DevList → String → Bool × DevList
unfolding contains
add devs jid = if contains jid devs then (false, devs) else (true, devs ++ jid ∷ [])

without : String → DevList → DevList
without jid [] = []
without jid (x ∷ devs) = let rest = without jid devs in if x == jid then rest else x ∷ rest

-- remove: whether an id was deleted
unfoldable pub remove : DevList → String → Bool × DevList
unfolding without contains
remove devs jid = (contains jid devs, without jid devs)
