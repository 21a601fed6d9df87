-- ===== src/State/Codec.antt =====
-- memory/state.py: `serialize_agent_state` and `deserialize_agent_state`.
pub mod RoundTrip
use codex_py.Base.{
  Bool, Option, Result, String, false, if◌then◌else◌, map, nat_eq, none, ok, some, string_eq,
  traverse, ◌==◌, ◌>>=◌, ◌>>◌,
}
use codex_py.Base.Json.{
  Json, Fields, null, int, pos, str, arr, obj, nil, end, field, items, index, index_or, iterate,
}
use codex_py.State.{
  PlanStep, Plan, StepExecution, Status, status_name, is_completed, new_plan_step, new_plan,
  new_step_execution, require_text, require_optional_text,
}
use codex_py.State.Agent.{AgentState, new_agent_state}

abbrev pub optional_text : Option String → Json
optional_text none = null
optional_text (some s) = str s

abbrev pub step_json : PlanStep → Json
step_json s = obj (
    field "id" (str s.id) (
      field "intent" (str s.intent)
        (field "completion_criterion" (str s.completion_criterion) end)))

abbrev pub plan_json : Plan → Json
plan_json p = obj (
    field "revision" (int (pos p.revision))
      (field "goal" (str p.goal) (field "steps" (arr (items (map step_json p.steps))) end)))

-- The evidence is written for completed executions only.
abbrev pub evidence_field : Status → Option String → Fields
evidence_field status none = end
evidence_field status (some evidence) =
    if is_completed status then field "completion_evidence" (str evidence) end else end

abbrev pub execution_json : StepExecution → Json
execution_json e = obj (
    field "revision" (int (pos e.revision)) (
      field "step_id" (str e.step_id) (
        field "status" (str (status_name e.status)) (
          field "result" (optional_text e.result) (
            field "error" (optional_text e.error)
              (evidence_field e.status e.completion_evidence))))))

unfoldable pub serialize_agent_state : AgentState → Json
serialize_agent_state s = obj (
    field "goal" (str s.goal) (
      field "memory_summary" (optional_text s.memory_summary) (
        field "plan_history" (arr (items (map plan_json s.plan_history)))
          (field "step_executions" (arr (items (map execution_json s.step_executions))) end))))

step_of_json : Json → Result PlanStep
step_of_json item = do
  id ← index item "id"
  intent ← index item "intent"
  criterion ← index item "completion_criterion"
  new_plan_step id intent criterion

plan_of_json : Json → Result Plan
plan_of_json item = do
  revision ← index item "revision"
  goal ← index item "goal"
  steps ← index item "steps"
  step_items ← iterate steps
  steps' ← traverse step_of_json step_items
  new_plan revision goal steps'

-- value == "completed"
abbrev is_completed_text : Json → Bool
is_completed_text (str s) = s == "completed"
is_completed_text _ = false

execution_of_json : Json → Result StepExecution
execution_of_json item = do
  revision ← index item "revision"
  step_id ← index item "step_id"
  status ← index item "status"
  result ← index_or item "result" null
  error ← index_or item "error" null
  evidence ← if is_completed_text status then index_or item "completion_evidence" null else ok null
  new_step_execution revision step_id status result error evidence

unfoldable pub deserialize_agent_state : Json → Result AgentState
unfolding step_of_json plan_of_json execution_of_json
deserialize_agent_state payload = do
  history ← index_or payload "plan_history" (arr nil)
  plan_items ← iterate history
  plans ← traverse plan_of_json plan_items
  recorded ← index_or payload "step_executions" (arr nil)
  execution_items ← iterate recorded
  executions ← traverse execution_of_json execution_items
  goal ← index payload "goal"
  summary ← index_or payload "memory_summary" null
  goal' ← require_text goal "agent state goal"
  state ← new_agent_state goal' plans executions none
  summary' ← require_optional_text summary "memory summary must be a string or None"
  ok (record state { memory_summary = summary' })
