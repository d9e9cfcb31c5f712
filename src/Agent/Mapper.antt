-- ===== src/Agent/Mapper.antt =====
-- bot/application/llm_command_mapper.py: what the answer of the language model decides. The prompt
-- and the provider are parameters; `float(value) >= 0.7` is one too.
use Prim.Native.Char.{Char, code}
use resenhazord.Prelude.{
  ℕ, String, Bool, true, false, ◌||◌, Option, none, some, List, if◌then◌else◌, ◌==◌, string_eq,
  nat_eq, pair_eq,
}
use resenhazord.Prelude.Dict
use resenhazord.Prelude.Dict.{Dict}
use resenhazord.Text.{Unicode, strip, concat}
use resenhazord.CommandText.{agent_menu_hint}
use resenhazord.Command.{CommandData}
use resenhazord.Registry.{Registry}
use resenhazord.Agent.{
  AgentOutcome, command, confirm, clarify, suggest, unresolvable, unavailable, over_budget,
  AgentDecision, RetrievedExample,
}
use resenhazord.Agent.Graph.{plain_decision, unresolvable_message}
use resenhazord.Agent.Translator.{
  Value, str_of, lstrip_of, strip_of, is_quote, normalize_flags, compose,
}

pub record ToolCall : Type 0 where
  pub name : String
  pub arguments : String

-- LLMResponse, and the parts of it that the code reads
pub record LlmResponse : Type 0 where
  pub content : String
  pub provider : String
  pub tool_call : Option ToolCall
  pub tokens : ℕ

pub record Parts (W : Type 0) : Type 0 where
  pub unicode : Unicode
  pub registry : Registry W
  -- json.loads, and whether a confidence reaches 0.7, none where `float` raises
  pub loads : String → Option (Dict String Value)
  pub is_sure : Value → Option Bool
  -- the budget: when it refills, if it is spent, as the text of an hour
  pub refill_at : W → CommandData → Option String × W
  pub spend : W → CommandData → ℕ → W
  -- the version of the system prompt, none where the registry raises
  pub prompt_version : Option String
  -- the answer of the provider, none where it raises
  pub complete : W → CommandData → List RetrievedExample → Option LlmResponse × W

abbrev pub unresolved : AgentDecision
unresolved = plain_decision unresolvable "" unresolvable_message

abbrev pub unavailable_decision : String → AgentDecision
unavailable_decision version =
    record (plain_decision unavailable ""
      (concat "🤖 IA indisponível no momento. " agent_menu_hint)) { prompt_version = version }

abbrev pub over_budget_decision : String → AgentDecision
over_budget_decision hour =
    plain_decision over_budget ""
      (concat "🤖 Limite de IA atingido, volta às " (concat hour (concat ". " agent_menu_hint)))

abbrev pub is_backquote : Char → Bool
is_backquote c = code c == 96

abbrev pub is_command_mark : Char → Bool
is_command_mark c = code c == b',' || code c == b'/'

abbrev pub starts_command : String → Bool
starts_command String.[] = false
starts_command (String.◌∷◌ c s) = is_command_mark c

abbrev pub or_sure : Option Bool → Bool
or_sure none = true
or_sure (some sure) = sure

module _ {W : Type 0} (parts : Parts W) where
  -- _confidence against the threshold: 1.0 where there is none, or none that can be read
  abbrev pub confident : String → Bool
  confident arguments = elim (parts.loads arguments) [
    | none ↦ true
    | some d ↦ elim (Dict.get d "confidence") [ none ↦ true | some v ↦ or_sure (parts.is_sure v) ]
  ]

  -- _tool_arg
  unfoldable pub tool_arg : String → String → String
  tool_arg arguments key = elim (parts.loads arguments) [
    | none ↦ ""
    | some d ↦ elim (Dict.get d key) [ none ↦ "" | some v ↦ strip (str_of v) ]
  ]

  -- _meta
  unfoldable pub meta : AgentOutcome → String → AgentDecision
  meta outcome text = if text == "" then unresolved else plain_decision outcome "" text

  abbrev pub by_confidence : Bool → String → AgentDecision
  by_confidence true text = plain_decision command text ""
  by_confidence false text =
      let proposed = normalize_flags parts.unicode text in
      plain_decision confirm proposed (concat "Você quis dizer `" (concat proposed "`?"))

  -- _route_tool_call: none where composing raises
  unfoldable pub route_tool_call : ToolCall → Option AgentDecision
  unfolding tool_arg meta
  route_tool_call call =
      if call.name == "clarify"
      then some (meta clarify (tool_arg call.arguments "question"))
      else if call.name == "suggest"
      then some (meta suggest (tool_arg call.arguments "message"))
      else elim (compose parts.unicode parts.registry parts.loads call.name call.arguments) [
        | none ↦ none
        | some text ↦ some (by_confidence (confident call.arguments) text)
      ]

  abbrev pub clean : String → String
  clean content =
      normalize_flags parts.unicode
        (strip (strip_of is_quote (strip_of is_backquote (strip content))))

  -- _interpret, of a text
  unfoldable pub interpret_text : String → AgentDecision
  unfolding lstrip_of strip_of
  interpret_text content =
      let text = clean content in
      if starts_command text
      then plain_decision command (concat "," (strip_of is_quote (lstrip_of is_command_mark text)))
          ""
      else unresolved

  unfoldable pub interpret : LlmResponse → Option AgentDecision
  unfolding route_tool_call interpret_text
  interpret response = elim response.tool_call [
    | some call ↦ route_tool_call call
    | none ↦ some (interpret_text response.content)
  ]

  abbrev pub signed : String → String → Option AgentDecision → Option AgentDecision
  signed provider version none = none
  signed provider version (some decision) =
      some (record decision { provider = provider; prompt_version = version })

  -- The call of the provider, with the version of the prompt it was made with.
  unfoldable pub ask_provider :
      W → CommandData → List RetrievedExample → String → Option AgentDecision × W
  unfolding interpret
  ask_provider w d examples version =
      let (answer, w') = parts.complete w d examples in
      elim answer [
        | none ↦ (some (unavailable_decision version), w')
        | some response ↦ (
          signed response.provider version (interpret response),
          parts.spend w' d response.tokens,
        )
      ]

  -- LLMCommandMapper.map
  unfoldable pub map_request : W → CommandData → List RetrievedExample → Option AgentDecision × W
  unfolding ask_provider
  map_request w d examples =
      let (refill, w') = parts.refill_at w d in
      elim refill [
        | some hour ↦ (some (over_budget_decision hour), w')
        | none ↦ elim parts.prompt_version [
          | none ↦ (some (unavailable_decision ""), w')
          | some version ↦ ask_provider w' d examples version
        ]
      ]
