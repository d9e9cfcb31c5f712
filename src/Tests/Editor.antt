-- ===== src/Tests/Editor.antt =====
-- Edits of a chat's configuration at concrete inputs, on the tables.
use resenhazord.Prelude.{
  String, ◌≡◌, refl, true, ◌&&◌, some, [], if◌then◌else◌, string_eq, nat_eq, pair_eq,
}
use resenhazord.Text.Split.{split}
use resenhazord.Text.Examples.{ascii}
use resenhazord.Command.{CommandData, default_data}
use resenhazord.Command.Run.{contains}
use resenhazord.Config.{override_for}
use resenhazord.Config.Store.{is_chat}
use resenhazord.Config.Service.{is_enabled}
use resenhazord.Config.Sql.{no_tables, load, sql_store, IsValid}
use resenhazord.Config.Sql.Rows.{IsValid-no_tables}
use resenhazord.Config.Sql.Laws.{sql_store-StoreLaws}
use resenhazord.Editor.{key_of_chat, resolve, resolve_lower, togglable_names, apply}
use resenhazord.Editor.Edits.{Agrees, apply-on, apply-is_enabled, apply-other_chats}
use resenhazord.Tests.Commands.{loud, both}

abbrev admin_data : CommandData
admin_data = record (default_data ",config on nsfw" "1@g.us" "2@lid") {
  platform = some "whatsapp";
  is_group = true;
}

apply-on_example :
    ((load
        (apply ascii both sql_store no_tables admin_data "on  nsfw").1
        "whatsapp"
        "1@g.us").policy
      ≡ (load no_tables "whatsapp" "1@g.us").policy)
    × ((name : String)
        → override_for
            (load
              (apply ascii both sql_store no_tables admin_data "on  nsfw").1
              "whatsapp"
              "1@g.us")
            name
          ≡ (if is_chat (key_of_chat admin_data) "whatsapp" "1@g.us"
                && contains name (resolve ascii both "nsfw")
              then some true
              else override_for (load no_tables "whatsapp" "1@g.us") name))
unfolding split
apply-on_example =
    apply-on ascii both sql_store IsValid sql_store-StoreLaws no_tables admin_data "on  nsfw" "on"
      "nsfw" [] refl IsValid-no_tables true refl "whatsapp" "1@g.us"

apply-is_enabled_example :
    (is_enabled
      (λ s' p n. (load s' p n, s'))
      (apply ascii both sql_store no_tables admin_data "on nsfw").1
      admin_data
      loud.config).0
    ≡ true
unfolding split resolve resolve_lower togglable_names contains
apply-is_enabled_example =
    apply-is_enabled ascii both sql_store IsValid sql_store-StoreLaws no_tables admin_data "on nsfw"
      "on" "nsfw" [] refl IsValid-no_tables true refl admin_data loud.config refl refl refl refl

apply-other_chats_example :
    Agrees
      (load (apply ascii both sql_store no_tables admin_data "off ping").1 "whatsapp" "9@g.us")
      (load no_tables "whatsapp" "9@g.us")
apply-other_chats_example =
    apply-other_chats ascii both sql_store IsValid sql_store-StoreLaws no_tables admin_data
      "whatsapp" "9@g.us" refl IsValid-no_tables "off ping"
