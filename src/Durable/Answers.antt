-- ===== src/Durable/Answers.antt =====
-- agent/durable.py: `_durable_answer` and `DurableConversationRunner`; agent/execution.py: the message
-- of a failed run. The HTTP status of a provider's error is a parameter.
use codex_py.Base.{
  Option, Error, List, Result, String, [], err, if◌then◌else◌, is_empty, keep, last, nat_eq, none,
  ok, planning_error, some, string_eq, ℕ, ◌<>◌, ◌==◌, ◌>>=◌ as bind_result,
}
use codex_py.Durable.{GraphState, GraphStatus, StepExecutor, RecoveryStore, decimal}
use codex_py.Durable.Runs.{RunResult, run}
use codex_py.TaskAnalyzer.Router.{is_exception}
use codex_py.Conversation.{ExecutionAnswer, ConversationStatus, new_execution_answer}
use codex_py.State.{Plan, StepExecution, is_completed}
use codex_py.State.Agent.{AgentState, new_agent_state}
use codex_py.State.Codec.{deserialize_agent_state}
use codex_py.Base.Json.{Json}
use codex_py.Base.Effect.{Run}

abbrev pub no_handoff : Result ExecutionAnswer
no_handoff =
    new_execution_answer none ConversationStatus.failed
      (some "plan-execute run completed without a step handoff")

-- if completed is not None and completed.result
unfoldable pub handed_off : Option StepExecution → Result ExecutionAnswer
unfolding new_execution_answer
handed_off none = no_handoff
handed_off (some e) = elim e.result [
  | none ↦ no_handoff
  | some text ↦
      if is_empty text
      then no_handoff
      else new_execution_answer (some text) ConversationStatus.completed none
]

-- next((item for item in reversed(executions) if item.status == "completed"), None)
abbrev pub last_completed : List StepExecution → Option StepExecution
last_completed es = last (keep (λ (e : StepExecution). is_completed e.status) es)

unfoldable pub answer_from : Option Json → Result ExecutionAnswer
unfolding handed_off deserialize_agent_state
answer_from none = handed_off none
answer_from (some document) =
    bind_result (deserialize_agent_state document)
      (λ s. handed_off (last_completed s.step_executions))

-- _durable_answer
unfoldable pub durable_answer : RunResult → Result ExecutionAnswer
unfolding answer_from new_execution_answer
durable_answer r = elim r.status [
  | GraphStatus.blocked ↦
      new_execution_answer none ConversationStatus.blocked (some "plan-execute run blocked")
  | GraphStatus.completed ↦ answer_from r.state
  | _ ↦
      new_execution_answer none ConversationStatus.failed (some "plan-execute run did not complete")
]

-- _plan_execute_failure_message
unfoldable pub plan_execute_failure_message : (Error → Option ℕ) → Error → String
plan_execute_failure_message status_code (planning_error e) = "planning failed: " <> e
plan_execute_failure_message status_code e = elim (status_code e) [
  | none ↦ "plan-execute execution failed"
  | some code ↦
      "plan-execute execution failed: provider returned HTTP "
      <> (decimal code <> (if code == 402 then " (Insufficient Balance)" else ""))
]

-- except Exception as error
unfoldable pub answer_after :
    (Error → Option ℕ) → Result (Option RunResult) → Result (Option ExecutionAnswer)
unfolding durable_answer plan_execute_failure_message new_execution_answer
answer_after status_code (ok none) = ok none
answer_after status_code (ok (some r)) = bind_result (durable_answer r) (λ a. ok (some a))
answer_after status_code (err e) =
    if is_exception e
    then bind_result
        (new_execution_answer none ConversationStatus.failed
          (some (plan_execute_failure_message status_code e)))
        (λ a. ok (some a))
    else err e

module _ {W : Type 0} (planner : AgentState → Option Json → Run W Plan) (executor : StepExecutor W)
    (store : Option (RecoveryStore W)) (status_code : Error → Option ℕ) where
  -- DurableConversationRunner.run; a rejected goal raises inside the `try`.
  unfoldable pub run_turn :
      ℕ → String → String → Json → Run (GraphState × W) (Option ExecutionAnswer)
  unfolding answer_after run new_agent_state
  run_turn fuel run_id current_input input th = elim (new_agent_state current_input [] [] none) [
    | err e ↦ (answer_after status_code (err e), th)
    | ok s ↦
        (let (r, th') = run planner executor store fuel run_id (some s) none (some input) th in
          (answer_after status_code r, th'))
  ]

  -- DurableConversationRunner.resume
  unfoldable pub resume_turn :
      ℕ → String → Option String → Run (GraphState × W) (Option ExecutionAnswer)
  unfolding answer_after run
  resume_turn fuel run_id recovery th =
      let (r, th') = run planner executor store fuel run_id none recovery none th in
      (answer_after status_code r, th')
