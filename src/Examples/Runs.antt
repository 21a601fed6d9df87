-- ===== src/Examples/Runs.antt =====
-- agent/agent.py with a Planner that numbers its plans and an Executor that completes each step.
use codex_py.Base.{
  Option, String, false, true, [], arith, is_blank, length, none, ok, refl, some, suc, ℕ, ◌+◌, ◌∷◌,
  ◌≡◌, ◌≢◌,
}
use codex_py.State.{new_step_execution, StepExecution, running, failed, Plan, completed}
use codex_py.Agent.Results.{run-Meaning, Meaning, run-ne-none}
use codex_py.Agent.Decision.{apply_recovery_decision-ok}
use codex_py.Agent.{AgentResult, apply_recovery_decision, finished, run}
use codex_py.State.Agent.Valid.{IsValid}
use codex_py.State.Agent.{new_agent_state, with_step_execution, with_plan, AgentState}
use codex_py.State.Context.{empty_context, ExecutionOutcome}
use codex_py.Base.Effect.{Run}
use codex_py.Agent.Steps.{IsHonest}
use codex_py.Examples.States.{plan, execution, started, started-IsValid}

-- The world counts the calls.
planner : AgentState → Run ℕ Plan
planner s calls = (ok (plan (suc (length s.plan_history))), calls + 1)

executor : AgentState → ℕ → String → Run ℕ ExecutionOutcome
executor s revision id calls = (
  ok (record { execution = execution revision id completed; context_update = some empty_context }),
  calls + 1,
)

executor-IsHonest : IsHonest executor
unfolding executor
executor-IsHonest = record { answers = λ s r i w h. ground arith }

abbrev final : AgentResult
final = record {
  status = finished;
  state = record started {
    plan_history = plan 1 ∷ plan 2 ∷ [];
    step_executions =
        execution 1 "a" completed
        ∷ execution 1 "b" failed
        ∷ execution 2 "a" completed
        ∷ execution 2 "b" completed
        ∷ [];
  };
}

-- The failed step leads to a second plan, whose two steps are executed: three calls.
run_example_result : run planner executor 3 started none 0 ≡ (ok (some final), 3)
unfolding run planner executor with_plan with_step_execution new_agent_state is_blank
run_example_result = refl

run-ne-none_example : run planner executor 3 started none 0 ≢ (ok none, 3)
run-ne-none_example =
    run-ne-none planner executor executor-IsHonest 3 started none 0 3 started-IsValid (omega arith)
      (omega arith)

run-Meaning_example : Meaning none final
run-Meaning_example =
    run-Meaning planner executor executor-IsHonest 3 started none final 0 3 started-IsValid
      run_example_result

-- A state whose step was running when the process ended, and the same after a `fail` decision.
abbrev stale : AgentState
stale = record started { step_executions = execution 1 "a" running ∷ [] }

abbrev settled_step : StepExecution
settled_step = record {
  revision = 1;
  step_id = "a";
  status = failed;
  result = none;
  error = some "Step execution was interrupted before recovery";
  completion_evidence = none;
}

abbrev settled : AgentState
settled = record started { step_executions = settled_step ∷ [] }

abbrev fail_decision : Option String
fail_decision = some "fail"

stale-IsValid : IsValid stale
unfolding is_blank
stale-IsValid = record {
  goal_given = refl;
  sequential = refl;
  goals_match = refl;
  keys_distinct = refl;
  planned = refl;
}

apply_recovery_decision-ok_example :
    IsValid settled
    × (settled.plan_history ≡ stale.plan_history)
    × (false ≡ true → fail_decision ≡ some "abort")
unfolding apply_recovery_decision with_step_execution new_agent_state is_blank new_step_execution
apply_recovery_decision-ok_example =
    apply_recovery_decision-ok stale fail_decision settled false stale-IsValid refl
