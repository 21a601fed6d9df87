-- ===== src/Lib.antt =====
-- A verification library for the agent runtime: an LLM-driven Plan-Execute coordinator with
-- durable recovery.
--
-- The program's parts and the files that model them:
--   memory/state.py        State.antt (plans, step executions), State/Context.antt (contexts and
--                          outcomes), State/Agent.antt (the agent state and its two updates),
--                          State/Codec.antt (serialize_agent_state, deserialize_agent_state).
--   agent/agent.py         Agent.antt: recovery decisions and `Agent.run`.
--   agent/recovery.py      Recovery.antt (attempts and snapshots), Recovery/Memory.antt and
--                          Recovery/Mysql.antt (the two stores).
--   agent/registry.py      Registry.antt (run records), Registry/Memory.antt and
--                          Registry/Mysql.antt (the two registries).
--   agent/conversation.py  Conversation.antt (turns), Conversation/Memory.antt and
--                          Conversation/Mysql.antt (the two stores), Conversation/Service.antt
--                          (the service over a store).
--   llm/line_protocol.py   LineProtocol.antt (blocks), LineProtocol/Lines.antt (lines and regular
--                          expressions), LineProtocol/Parser.antt, LineProtocol/Codecs.antt (the
--                          registry), LineProtocol/Decode.antt, LineProtocol/Plans.antt and
--                          LineProtocol/Progress.antt (the decoders), and
--                          LineProtocol/NoTool.antt (`normalize_no_tool`).
--   llm/text_stream.py     TextStream.antt: `validated_text`.
--   agent/planner.py       Planner.antt: `Planner.plan`.
--   agent/task_analyzer.py TaskAnalyzer.antt (`route`), TaskAnalyzer/Parse.antt (`_parse_analysis`)
--                          and TaskAnalyzer/Router.antt (the analyzer and the router).
--   agent/durable.py       Durable.antt (the state, the nodes and the routing of the graph),
--                          Durable/Recover.antt and Durable/Runs.antt (`DurableAgent.run` and
--                          `interrupt`), and
--                          Durable/Answers.antt (the adapter to conversations).
-- A coordinator run calls the Planner for a plan, the Executor for each step, and writes every
-- outcome into the agent state. The recovery stores keep one record for each change of a step
-- execution, and the registry decides which process may work on a run. The conversation service
-- appends a turn, has a runner execute it, and writes how it ended.
--
-- How code becomes definitions: an exception is a value of `Error` in `Result` (Base/Errors.antt),
-- a JSON document is a `Json` (Base/Json.antt), and an `async` method that calls out of the program
-- is an action over a world `W` (Base/Effect.antt). Constructors that check their arguments are
-- functions `new_...` into `Result`. A store is its list of records: `record_attempt`, `restore`
-- and the others take it and return it. The MySQL definitions take the table's rows; a
-- SELECT ... FOR UPDATE and the INSERT after it are one step, while `record` of the recovery store,
-- which takes no lock, has the rows that its SELECT saw apart from those of its INSERT. Times are
-- microseconds.
--
-- Fuel: `Agent.run` loops over plan revisions, and the model's loop runs on fuel. The third
-- revision is the last one, so three rounds are enough. A walk through the durable graph runs on
-- fuel as well: each revision marks and executes every step at most once, so that a bound on the
-- steps of a plan bounds the super-steps.
--
-- Parameters: the Planner and the Executor, the fingerprint of a configuration, and choices of the
-- database: whether it reports an update that writes the values that a row already has, which texts
-- its collation takes for the same, which rows its column types refuse, and which row it answers
-- to a query without an order. The Executor is
-- assumed to answer for the step that it was given (`IsHonest` in Agent/Steps.antt), and where the
-- super-steps of the durable graph are counted, plans are bounded too (`IsPrompt` in
-- Durable/Ranks.antt). What the graph needs of a recovery store is `IsVersioned` in
-- Durable/Saves.antt. The checkpointer of the graph is the state after the last super-step that
-- returned.
--
-- The conversation service takes its runners, new identifiers, the mode selection and the stored
-- results of runs as parameters over a world that they share; they do not write the store.
--
-- `loads` is `json.loads`, which returns a value or raises, and `dumps` is `json.dumps`; a model is an
-- action that answers a text to instructions. A float is its bit pattern.
--
-- Not modelled: the snapshot of a configuration and the removal of its secrets, the lifecycle
-- around a durable run, the step executor, the runtime context, the execution modes above these
-- parts, the model clients, tracing, configuration and the command line.
pub mod Base
pub mod State
pub mod Agent
pub mod Recovery
pub mod Registry
pub mod Conversation
pub mod LineProtocol
pub mod TextStream
pub mod Planner
pub mod TaskAnalyzer
pub mod Durable
mod Examples
