-- ===== src/Tests/Redirect.antt =====
-- The examples of a prompt, and redirected commands, at concrete inputs.
use resenhazord.Prelude.{ℕ, ◌≡◌, refl, true, none, some, [], ◌∷◌, string_eq, nat_eq, pair_eq}
use resenhazord.Prelude.Dict
use resenhazord.Text.Examples.{ascii}
use resenhazord.Text.Split.{split, split_word, join}
use resenhazord.Command.{CommandData, default_data}
use resenhazord.Command.Run.{contains}
use resenhazord.Registry.{index_by_name}
use resenhazord.Agent.Translator.{
  compose, compose_text, resolve_command_name, flags_of, options_from, option_parts, strip_of,
}
use resenhazord.Agent.Redirect.{translate, IsCommandFor, translate-IsCommandFor}
use resenhazord.Agent.Examples.{select}
use resenhazord.Tests.Commands.{both}
use resenhazord.Tests.Mapper.{items}

select_run :
    select {W = ℕ} ascii (("oi", ",oi") ∷ []) none 0 "manda algo"
    ≡ (record { text = "oi"; command_text = ",oi"; score = 0 } ∷ [], 0)
unfolding select
select_run = refl

abbrev private_data : CommandData
private_data = record (default_data "manda no pv" "1@g.us" "2@lid") { is_group = true }

translate_run :
    translate ascii both items private_data "ping" "{}"
    ≡ some (record private_data { text = ",ping  flamengo"; jid = "2@lid" })
unfolding translate compose compose_text resolve_command_name flags_of options_from option_parts
    strip_of split split_word join Dict.get Dict.put contains index_by_name
translate_run = refl

translate-IsCommandFor_example :
    IsCommandFor ascii private_data
      (record private_data { text = ",ping  flamengo"; jid = "2@lid" })
translate-IsCommandFor_example =
    translate-IsCommandFor ascii both items private_data "ping" "{}"
      (record private_data { text = ",ping  flamengo"; jid = "2@lid" }) translate_run
