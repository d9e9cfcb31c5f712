-- ===== src/Score/Command.antt =====
-- bot/domain/commands/score.py: `,placar`. The answer of the scoreboard's service is an argument, none
-- where the request raises, and so is the clock.
use resenhazord.Prelude.{
  ℕ, String, Bool, true, false, not, ◌&&◌, ◌||◌, Option, none, some, List, [], ◌∷◌, ◌++◌,
  if◌then◌else◌, string_eq, nat_eq, pair_eq,
}
use resenhazord.Text.{Unicode}
use resenhazord.Text.Split.{join}
use resenhazord.Command.{CommandConfig, CommandData, default_config, all}
use resenhazord.Command
use resenhazord.Command.Run.{ParsedCommand, unexpected, Result, ok, raised, contains}
use resenhazord.Message.{BotMessage, reply_text}
use resenhazord.Score.{
  MatchStatus, not_started, finished, TmLiveMatch, Clock, is_live, is_within_upcoming_window,
  format_live_row, format_upcoming_row, format_finished_row, apply_soft_cap, build_section,
}

-- ScoreCommand.config
abbrev pub score_config : CommandConfig
score_config = record (default_config "placar") {
  aliases = "score" ∷ [];
  flags = "past" ∷ "now" ∷ "next" ∷ [];
  category = some Command.information;
  platforms = all ∷ [];
}

-- _resolve_flags: past, now and next
unfoldable pub resolve_flags : ParsedCommand → Bool × Bool × Bool
unfolding contains
resolve_flags parsed =
    let show_past = contains "past" parsed.flags in
    let show_now = contains "now" parsed.flags in
    let show_next = contains "next" parsed.flags in
    if not (show_past || show_now || show_next)
    then (true, true, true)
    else (show_past, show_now, show_next)

abbrev is_not_started : MatchStatus → Bool
is_not_started not_started = true
is_not_started _ = false

abbrev is_finished : MatchStatus → Bool
is_finished finished = true
is_finished _ = false

unfoldable pub live_matches : List TmLiveMatch → List TmLiveMatch
live_matches [] = []
live_matches (m ∷ matches) =
    let rest = live_matches matches in if is_live m.status then m ∷ rest else rest

unfoldable pub finished_matches : List TmLiveMatch → List TmLiveMatch
finished_matches [] = []
finished_matches (m ∷ matches) =
    let rest = finished_matches matches in if is_finished m.status then m ∷ rest else rest

abbrev upcoming_window_hours : ℕ
upcoming_window_hours = 6

abbrev section_soft_cap : ℕ
section_soft_cap = 7

abbrev is_empty : List TmLiveMatch → Bool
is_empty [] = true
is_empty (m ∷ matches) = false

module _ (u : Unicode) (clock : Clock) where
  abbrev is_upcoming : TmLiveMatch → Option Bool
  is_upcoming m =
      if is_not_started m.status
      then is_within_upcoming_window u clock m.match_time upcoming_window_hours
      else some false

  -- _upcoming_matches: none where a time raises
  unfoldable pub upcoming_matches : List TmLiveMatch → Option (List TmLiveMatch)
  unfolding is_within_upcoming_window
  upcoming_matches [] = some []
  upcoming_matches (m ∷ matches) =
      let later = upcoming_matches matches in
      elim (is_upcoming m) [
        | none ↦ none
        | some soon ↦ elim later [
          | none ↦ none
          | some rest ↦ some (if soon then m ∷ rest else rest)
        ]
      ]

  abbrev section : String → List TmLiveMatch → (TmLiveMatch → String) → List String
  section title matches row_formatter =
      if is_empty matches then [] else build_section title matches row_formatter

  unfoldable pub build_sections :
      List TmLiveMatch → List TmLiveMatch → List TmLiveMatch → List String
  unfolding build_section format_live_row format_upcoming_row format_finished_row
  build_sections live' upcoming finished' =
      section "🔥 *Ao Vivo*\n" live' format_live_row
      ++ section "📅 *Próximos Jogos*\n" upcoming (format_upcoming_row u clock)
      ++ section "✅ *Encerrados*\n" finished' format_finished_row

  -- The answer, once the matches of each section are there.
  unfoldable pub score_reply :
      CommandData → List TmLiveMatch → List TmLiveMatch → List TmLiveMatch → List BotMessage
  unfolding apply_soft_cap build_sections join
  score_reply d live' upcoming finished' =
      let capped_live = apply_soft_cap live' section_soft_cap in
      let capped_upcoming = apply_soft_cap upcoming section_soft_cap in
      let capped_finished = apply_soft_cap finished' section_soft_cap in
      if is_empty capped_live && is_empty capped_upcoming && is_empty capped_finished
      then reply_text d "Nenhum jogo ao vivo agora. ✨" ∷ []
      else record (reply_text d
          (join "\n" (build_sections capped_live capped_upcoming capped_finished))) {
            quoted_message_id = d.quoted_message_id;
          }
        ∷ []

  unfoldable pub execute :
      Option (List TmLiveMatch) → CommandData → ParsedCommand → Result (List BotMessage)
  unfolding resolve_flags live_matches finished_matches upcoming_matches score_reply
  execute none d parsed = raised unexpected
  execute (some matches) d parsed =
      let (show_past, show_now, show_next) = resolve_flags parsed in
      let live' = if show_now then live_matches matches else [] in
      let finished' = if show_past then finished_matches matches else [] in
      elim (if show_next then upcoming_matches matches else some []) [
        | none ↦ raised unexpected
        | some upcoming ↦ ok (score_reply d live' upcoming finished')
      ]
