-- ===== src/Tests/GroupAdmin.antt =====
-- The commands of administrators at concrete inputs.
use resenhazord.Prelude.{
  String, ◌≡◌, refl, true, false, ◌&&◌, Option, none, some, [], ◌∷◌, ◌==◌, string_eq, nat_eq,
  pair_eq,
}
use resenhazord.Text.Examples.{ascii}
use resenhazord.Command.{CommandData, default_data}
use resenhazord.Command.Run.{contains, ok}
use resenhazord.Message.{reply_text}
use resenhazord.GroupAdmin.{Participant, Metadata, is_admin_entry, is_sender_admin, is_authorized}
use resenhazord.GroupAdmin.Ban.{is_owner, owner_is_admin, ban, admin_only_command, farewell}
use resenhazord.GroupAdmin.Safe.{ban-spared}

abbrev member : String → Option String → Participant
member id admin = record { id = id; admin = admin }

abbrev metadata : Metadata
metadata = record {
  participants =
      member "bot" (some "admin")
      ∷ member "boss" (some "superadmin")
      ∷ member "a" none
      ∷ member "b" none
      ∷ [];
  owner = some "boss";
}

abbrev boss_data : CommandData
boss_data = record (default_data "" "1@g.us" "boss") { is_group = true; platform = some "whatsapp" }

abbrev member_data : CommandData
member_data = record boss_data { sender_jid = "a" }

-- Nobody but a and b can be drawn, and the bot and the owner are passed over.
random_run : (ban ascii "bot" (λ j. true) 3 boss_data (some metadata)).1 ≡ ("b" ∷ [])
unfolding ban
random_run = refl

abbrev everybody : CommandData
everybody = record boss_data { mentioned_jids = "boss" ∷ "bot" ∷ "a" ∷ [] }

mentioned_run :
    ban ascii "bot" (λ j. true) 0 everybody (some metadata)
    ≡ (ok (farewell ascii "bot" (λ j. true) everybody "a" ∷ []), "a" ∷ [])
unfolding ban
mentioned_run = refl

member_run :
    ban ascii "bot" (λ j. true) 0 member_data (some metadata)
    ≡ (ok (reply_text member_data admin_only_command ∷ []), [])
unfolding ban
member_run = refl

authorized_run : is_authorized true (some metadata) member_data ≡ some false
unfolding is_authorized
authorized_run = refl

abbrev drawn_one : String
drawn_one = "b"

ban-spared_example :
    (is_admin_entry "bot" metadata.participants ≡ true)
    × (is_sender_admin boss_data metadata.participants ≡ true)
    × ((drawn_one == "bot") ≡ false)
    × ((is_owner metadata.owner drawn_one
          && owner_is_admin ascii "bot" (λ j. true) metadata.owner metadata.participants)
        ≡ false)
unfolding ban contains
ban-spared_example = ban-spared ascii "bot" (λ j. true) 3 boss_data metadata drawn_one refl
