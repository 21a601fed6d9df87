-- ===== src/Planner.antt =====
-- agent/planner.py: `Planner.plan`. The request of a text (streamed or completed by the model), the
-- reader of JSON literals and `json.dumps` are parameters; the trace is left out.
use codex_py.Base.{
  Option, Result, String, Error, err, if◌then◌else◌, length, line_protocol_error, ltb, map, none,
  ok, planning_error, some, ℕ, ◌+◌,
}
use codex_py.LineProtocol.Plans.{plan_instructions, decode_plan}
use codex_py.State.Codec.{plan_json, optional_text}
use codex_py.Base.Json.{items, arr, pos, int, str, end, field, Fields, obj, Json}
use codex_py.State.{status_name, Plan, StepExecution}
use codex_py.TextStream.{validated_text}
use codex_py.Base.Effect.{Run, ◌>>=◌, ◌>>◌}
use codex_py.State.Agent.{AgentState}
pub mod Plans

-- _state_payload; the conversation input is its JSON object. `dumps` sorts the keys.
abbrev pub execution_payload : StepExecution → Json
execution_payload e = obj (
    field "revision" (int (pos e.revision)) (
      field "step_id" (str e.step_id) (
        field "status" (str (status_name e.status)) (
          field "result" (optional_text e.result) (
            field "error" (optional_text e.error)
              (field "completion_evidence" (optional_text e.completion_evidence) end))))))

abbrev pub input_field : Option Json → Fields
input_field none = end
input_field (some input) = field "conversation_input" input end

unfoldable pub state_payload : AgentState → Option Json → Json
state_payload s input = obj (
    field "goal" (str s.goal) (
      field "memory_summary" (optional_text s.memory_summary) (
        field "plan_history" (arr (items (map plan_json s.plan_history))) (
          field "step_executions" (arr (items (map execution_payload s.step_executions)))
            (input_field input)))))

-- except LineProtocolError as error: raise PlanningValidationError(str(error))
abbrev pub as_planning : Error → Error
as_planning (line_protocol_error e) = planning_error e
as_planning e = e

abbrev pub translated {ℓ} : {A : Type ℓ} → Result A → Result A
translated (ok a) = ok a
translated (err e) = err (as_planning e)

module _ {W : Type 0} (loads : String → Result Json) (dumps : Json → String)
    (request : String → String → Run W String) (on_retry : Error → Run W (Unit {0})) where
  unfoldable pub requested_plan : AgentState → Option Json → ℕ → Run W Plan
  unfolding validated_text decode_plan state_payload
  requested_plan s input expected =
      validated_text (λ t. dumps (str t)) (request (dumps (state_payload s input)))
        plan_instructions (λ output. decode_plan loads output s.goal expected) on_retry

  unfoldable pub plan : AgentState → Option Json → Run W Plan
  unfolding requested_plan
  plan s input w =
      let expected = length s.plan_history + 1 in
      let (r, u) = requested_plan s input expected w in
      if ltb 3 expected
      then (err (planning_error "planning cannot exceed the three-revision goal budget"), w)
      else (translated r, u)
