-- ===== src/Lib.antt =====
-- The bot: a WhatsApp, Discord and Telegram bot whose core is written in Python under bot/. A message
-- becomes a CommandData; the command handler finds its command, asks the gate, and runs it; a message
-- in plain words goes through the agent, which asks a language model for the command it means. On
-- WhatsApp the messages come from a broker, and the answers go back through it.
--
-- The files, with the code they model:
--   Command, Command/Run: bot/domain/commands/base.py, bot/domain/models/command_data.py and
--     bot/domain/exceptions.py. A command is a record of its configuration, its parser and its
--     `execute`, which acts on a world `W`; `run` is Command.run.
--   Message: bot/domain/models/message.py, its contents and bot/domain/builders/reply.py. Message/Wire
--     writes a reply as bot/adapters/broker/command_envelope.py does, and Gateway reads it as
--     gateway/src/bridge/ReplyDeserializer.ts does.
--   Parser, Parser/Build: bot/domain/parsers/command_parser.py and command_parser_regex.py.
--   Text, Text/Regex, Text/Split: what the code uses of `str` and `re`. The tables of Unicode are the
--     record `Unicode`; Text/Examples instantiates it on ASCII.
--   Jid: bot/domain/jid.py.
--   Config: bot/domain/models/chat_config.py, with ConfigService in Config/Service, the port as the
--     interface `ConfigStore` with its `StoreLaws` in Config/Store, the tables of
--     bot/infrastructure/config_store.py in Config/Sql and the cache in Config/Cache; its calls follow one
--     another in Config/Cache/Refinement and overlap, wait by wait, in Config/Cache/Overlap.
--   Editor: bot/application/config_editor.py, over any store that has the port.
--   Registry: bot/application/command_registry.py. DevList and Gate: bot/domain/services/dev_list.py
--     and bot/application/command_gate.py.
--   CommandText, AgentRouting, Handler: bot/application/command_text.py, agent_routing.py,
--     throttled_agent.py and command_handler.py; `handle` is CommandHandler.handle.
--   Agent: bot/domain/models/conversation.py. Agent/Confirmation classifies a reply, Agent/Graph is
--     bot/infrastructure/llm/agent_graph_nodes.py with the edges of graph_orchestrator.py,
--     Agent/Translator and Agent/Redirect are bot/application/agent_response.py, Agent/Mapper is
--     bot/application/llm_command_mapper.py, and Agent/Examples is
--     bot/application/example_selector.py.
--   Broker: bot/adapters/broker/delivery_guard.py and retry_router.py, with
--     bot/infrastructure/command_inbox.py; Broker/Consumer is command_consumer.py as a step relation, one
--     step for each stretch between two waits. Redis and publications may fail in it.
--   SelfTime: bot/infrastructure/self_time.py. Supervisor: bot/infrastructure/platform_supervisor.py.
--   Lineup: bot/domain/services/lineup_assigner.py. Birthday: bot/domain/services/
--     birthday_calendar.py, birthday_book.py, bot/application/birthday_scheduler.py and
--     bot/domain/commands/birthday.py. GroupAdmin: bot/domain/services/group_admin.py with the commands
--     ban, adm and config of bot/domain/commands/. TeamMatcher: bot/domain/services/team_name_matcher.py.
--   Score: bot/domain/services/score_formatter.py; Score/Command is bot/domain/commands/score.py. The
--     answer of the service and the reads of the clock are arguments.
--   Mentions, with Service, Texts and Command: the mention lists, bot/domain/services/mentions/ with
--     bot/domain/commands/group_mentions.py. The requests to the database are written out; others may
--     write between two requests of one call.
--   Limits: bot/infrastructure/agent_rate_limiter.py and idempotent_counter.py.
--   Prelude holds the shared helpers: tests on numbers, equality as an interface, lists, counting, and
--     Python's `dict` as the list of its items. Tests holds runs at concrete inputs.
--
-- State is passed on explicitly: an operation returns its result with the new state. An exception is a
-- value of `Result`, or none where the code lets it escape. Times are whole numbers of a unit that
-- each file names.
--
-- Fuel: a turn of the graph passes at most four nodes, so `turn` runs with four. A failing command is
-- delivered at most three times, so three runs reach the dead letters. All other loops are structural.
--
-- Parameters: the Unicode tables, `json.loads` on texts that hold an object, `float`, the language
-- model with its prompt and its budget, the retriever of examples, `re.compile` of the patterns that a
-- configuration holds, base64, the likeness of two club names, and what each command does. Not
-- modelled: most of the single commands, which call web services; the adapters of the chat platforms,
-- the rest of the gateway in TypeScript, metrics, logs and traces; the
-- checkpointer of the conversations and its failures; a crash of the process, which the broker
-- answers by a redelivery.
pub mod Prelude
pub mod Command
pub mod Message
pub mod Config
pub mod Text
pub mod Jid
pub mod Registry
pub mod DevList
pub mod Distinct
pub mod Gate
pub mod Gateway
pub mod CommandText
pub mod AgentRouting
pub mod Handler
pub mod Agent
pub mod Broker
pub mod Editor
pub mod Score
pub mod SelfTime
pub mod Supervisor
pub mod Lineup
pub mod Mentions
pub mod Birthday
pub mod GroupAdmin
pub mod TeamMatcher
pub mod Limits
pub mod Parser
mod Tests
