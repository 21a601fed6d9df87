-- ===== src/Examples/States.antt =====
-- memory/state.py on a run with one plan.
use codex_py.Base.{ℕ, ◌∷◌, String, ◌≡◌, [], false, is_blank, none, ok, refl, some, true}
use codex_py.State.Agent.Update.{
  execution_for-with_step_execution, updated, with_step_execution_lem, planned_state, with_plan_lem,
}
use codex_py.State.Agent.{
  execution_for, AgentState, new_agent_state, with_plan, with_step_execution,
}
use codex_py.State.Agent.Valid.{IsValid}
use codex_py.State.{
  new_step_execution, new_plan_step, StepExecution, new_plan, Plan, PlanStep, Status, completed,
  failed,
}
use codex_py.State.Context.{is_unsafe_path}
use codex_py.State.Codec.RoundTrip.{restored, deserialize_agent_state-serialize_agent_state}
use codex_py.State.Codec.{serialize_agent_state, deserialize_agent_state}

abbrev pub step : String → PlanStep
step id = record { id = id; intent = "do"; completion_criterion = "done" }

abbrev pub plan : ℕ → Plan
plan revision = record { revision = revision; goal = "ship"; steps = step "a" ∷ step "b" ∷ [] }

abbrev pub execution : ℕ → String → Status → StepExecution
execution revision id status = record {
  revision = revision;
  step_id = id;
  status = status;
  result = some "ok";
  error = none;
  completion_evidence = some "seen";
}

abbrev pub started : AgentState
started = record {
  goal = "ship";
  plan_history = plan 1 ∷ [];
  step_executions = execution 1 "a" completed ∷ execution 1 "b" failed ∷ [];
  memory_summary = none;
}

pub started-IsValid : IsValid started
unfolding is_blank
started-IsValid = record {
  goal_given = refl;
  sequential = refl;
  goals_match = refl;
  keys_distinct = refl;
  planned = refl;
}

with_step_execution_example :
    with_step_execution started (execution 1 "b" completed)
    ≡ ok (updated started (execution 1 "b" completed))
with_step_execution_example =
    with_step_execution_lem started (execution 1 "b" completed) started-IsValid

execution_for-with_step_execution_example :
    execution_for (updated started (execution 1 "b" completed)) 1 "b"
    ≡ some (execution 1 "b" completed)
execution_for-with_step_execution_example =
    execution_for-with_step_execution started (updated started (execution 1 "b" completed))
      (execution 1 "b" completed) 1 "b" with_step_execution_example

with_plan_example : with_plan started (plan 2) ≡ ok (planned_state started (plan 2))
with_plan_example = with_plan_lem started (plan 2) started-IsValid

round_trip_example : deserialize_agent_state (serialize_agent_state started) ≡ ok (restored started)
unfolding is_blank
round_trip_example = deserialize_agent_state-serialize_agent_state started started-IsValid refl refl

-- The same by evaluation.
round_trip_run : deserialize_agent_state (serialize_agent_state started) ≡ ok (restored started)
unfolding deserialize_agent_state serialize_agent_state new_agent_state new_plan new_plan_step
    new_step_execution is_blank
round_trip_run = refl

-- A path that leaves the repository is refused.
path_runs :
    (is_unsafe_path "src/../etc" ≡ true)
    × (is_unsafe_path "/etc/passwd" ≡ true)
    × (is_unsafe_path "src//a.py" ≡ true)
    × (is_unsafe_path "C:x" ≡ true)
    × (is_unsafe_path "src/a.py" ≡ false)
unfolding is_unsafe_path
path_runs = (refl, refl, refl, refl, refl)
