-- ===== src/Tests/Commands.antt =====
-- Commands, their registry, the gate and the handler at concrete inputs.
use resenhazord.Prelude.{
  ℕ, ◌+◌, String, ◌≡◌, refl, ◌≢◌, ◌↔◌, ◌⊎◌, inl, true, false, none, some, [], ◌∷◌, arith, ◌==◌,
  get_elem?, string_eq, nat_eq, pair_eq,
}
use resenhazord.Prelude.Dict
use resenhazord.Text.Examples.{ascii}
use resenhazord.Text.Regex.{literal_ci, search, prefixmatch, literal}
use resenhazord.Command.{
  CommandConfig, nsfw, public, disabled, dev, default_config, default_data, CommandData,
}
use resenhazord.Command.Run.{Command, ok, run}
use resenhazord.Message.{reply_text}
use resenhazord.Config.{ChatConfig, default_chat}
use resenhazord.Config.Service.{resolve, is_enabled}
use resenhazord.DevList.{is_dev}
use resenhazord.Registry.{Registry, get_strategy}
use resenhazord.Registry.Strategy.{get_strategy-matches, get_strategy-first}
use resenhazord.Gate.{admit}
use resenhazord.Gate.Laws.{admit-none_iff, is_listed, is_on}
use resenhazord.CommandText.{split_batch, builtin_reply}
use resenhazord.AgentRouting.{value_error, should_route, is_explicit_mention}
use resenhazord.Handler.{Parts, run_command, dispatch, handle}
use resenhazord.Text.{lstrip}
use resenhazord.Handler.Routing.{handle-asleep}

-- A command that counts its runs in the world, and answers its name.
abbrev pub counting : CommandConfig → Command ℕ
counting config = record {
  config = config;
  matches = λ text. text == config.name;
  parse = λ text. record { command_name = ""; flags = []; options = []; rest = "" };
  execute = λ w d parsed. (ok (reply_text d config.name ∷ []), w + 1);
}

abbrev pub ping : Command ℕ
ping = counting (default_config ",ping")

abbrev pub loud : Command ℕ
loud = counting (record (default_config ",loud") { scope = nsfw })

abbrev pub both : Registry ℕ
both = record { commands = ping ∷ loud ∷ []; by_name = (",ping", 0) ∷ [] }

abbrev load : ℕ → String → String → ChatConfig × ℕ
load s p n = (default_chat, s)

abbrev data' : CommandData
data' = default_data ",ping" "1@g.us" "2@lid"

abbrev parts : Parts ℕ ℕ
parts = record {
  unicode = ascii;
  registry = both;
  bots = [];
  allow = λ w c. (true, w);
  agent = λ w d. (value_error, w);
  load = load;
  devs = [];
  on_match = λ c w. w;
}

get_strategy-matches_example :
    (i : ℕ) × (c : Command ℕ) × (get_strategy ascii both ",loud" ≡ some i)
    × (get_elem? both.commands i ≡ some c)
    × (c.matches ",loud" ≡ true)
get_strategy-matches_example = get_strategy-matches ascii both ",loud" 1 loud refl refl

get_strategy-first_example : get_strategy ascii both ",ping" ≡ some 0
unfolding get_strategy prefixmatch literal Dict.get
get_strategy-first_example =
    get_strategy-first ascii both ",ping" 0 ping refl refl refl (λ n c small. absurd (omega arith))

admit-none_iff_example : ((admit ascii load [] 0 ping.config data' 4).0 ≡ none) ↔ (
    (ping.config.scope ≢ disabled)
    × (ping.config.scope ≡ dev → is_listed ascii load [] 0 ping.config data' 4 ≡ true)
    × ((ping.config.scope ≡ public) ⊎ (ping.config.scope ≡ nsfw)
        → is_on ascii load [] 0 ping.config data' 4 ≡ true))
admit-none_iff_example = admit-none_iff ascii load [] 0 ping.config data' 4

split_batch_run : (split_batch ascii (record data' { text = ",ping a 12x " })).1.text ≡ ",ping a"
unfolding split_batch search literal
split_batch_run = refl

-- One message through the handler: the command runs once, and answers its name.
handle_run : (handle parts data' 7 0).1 ≡ 8
unfolding handle should_route is_explicit_mention builtin_reply dispatch run_command run admit
    is_dev is_enabled resolve get_strategy prefixmatch search literal Dict.get split_batch
handle_run = refl

abbrev chatter : CommandData
chatter = record (default_data "bom dia" "1@g.us" "2@lid") { is_group = true }

handle-asleep_example :
    handle
      (record parts { allow = λ w c. (false, w + 5); agent = λ w d. (value_error, w + 7) })
      chatter
      0
      0
    ≡ handle parts chatter 0 0
unfolding is_explicit_mention lstrip search literal_ci
handle-asleep_example =
    handle-asleep parts chatter (λ w c. (false, w + 5)) (λ w d. (value_error, w + 7)) 0 0 refl
      (inl (refl, refl))
