-- ===== src/Examples/Graphs.antt =====
-- agent/durable.py with a Planner of one-step plans, an Executor that completes each step and the
-- in-memory recovery store. The world counts the calls of the Executor.
use codex_py.Base.{
  last, sym, Option, arith, length, subst, true, ◌≤◌, Result, err, is_blank, version_mismatch, ◌≡◌,
  [], false, none, ok, refl, some, ℕ, ◌+◌, ◌∷◌,
}
use codex_py.Durable.Handoff.{durable_answer-result_of}
use codex_py.Durable.Answers.{durable_answer}
use codex_py.Durable.Runs.{result_of, Stop, run, RunResult, walk, invoke}
use codex_py.Conversation.{ConversationStatus}
use codex_py.Durable.Fuel.{walk-is_over, is_over}
use codex_py.Durable.Ranks.{IsPrompt, MayStart}
use codex_py.State.Agent.Valid.{IsValid}
use codex_py.State.Agent.{with_plan, new_agent_state, with_step_execution, AgentState}
use codex_py.State.{new_step_execution, Plan, PlanStep, Status}
use codex_py.Durable.{GraphState, GraphStatus, plan, StepExecutor}
use codex_py.Durable.Walks.{walk-IsAt}
use codex_py.Durable.Places.{IsAt}
use codex_py.Durable.Restores.{
  walk-restore, RestoredAfter, memory_store, planner_beside, executor_beside, Stored,
}
use codex_py.Examples.States.{execution}
use codex_py.Base.Effect.{Run}
use codex_py.Base.Json.{Json}

abbrev one_step : PlanStep
one_step = record { id = "a"; intent = "read"; completion_criterion = "read" }

abbrev one_plan : Plan
one_plan = record { revision = 1; goal = "read"; steps = one_step ∷ [] }

planner : AgentState → Option Json → Run ℕ Plan
planner s input calls = (ok one_plan, calls)

executor : StepExecutor ℕ
executor s revision id c active attempt calls = (
  ok (record { execution = execution revision id Status.completed; context_update = some c }),
  calls + 1,
)

abbrev new_state : AgentState
new_state = record { goal = "read"; plan_history = []; step_executions = []; memory_summary = none }

new_state-IsValid : IsValid new_state
unfolding is_blank
new_state-IsValid = record {
  goal_given = refl;
  sequential = refl;
  goals_match = refl;
  keys_distinct = refl;
  planned = refl;
}

no_plan : (s : AgentState) (p : Plan) → some new_state ≡ some s → ¬ (last s.plan_history ≡ some p)
no_plan s p held newest =
    let same : new_state ≡ s = ground (arith, held) in
    let newest' = subst (λ x. last x.plan_history ≡ some p) (sym same) newest in cc

same_state : (s : AgentState) → some new_state ≡ some s → new_state ≡ s
same_state s held = ground (arith, held)

abbrev fresh : GraphState
fresh = record {
  agent_state = some new_state;
  conversation_input = none;
  status = some GraphStatus.resuming;
  run_id = "r";
  files_modified = [];
  files_read = [];
  observations = [];
  persistence_version = 0;
  recovery_attempt = none;
  recovery_active = false;
}

abbrev final : GraphState
final = record fresh {
  agent_state = some (record {
    goal = "read";
    plan_history = one_plan ∷ [];
    step_executions = execution 1 "a" Status.completed ∷ [];
    memory_summary = none;
  });
  status = some GraphStatus.completed;
  persistence_version = 2;
}

walk-IsAt_example :
    IsAt
      (walk planner executor none 9 plan fresh 0).0.node
      (walk planner executor none 9 plan fresh 0).0.checkpoint
unfolding IsAt
walk-IsAt_example = walk-IsAt planner executor none 9 plan fresh 0 refl

-- The graph returns its checkpoint.
invoke_run : invoke planner executor none 9 (λ g. fresh) (fresh, 0) ≡ (ok (some final), (final, 1))
unfolding invoke planner executor with_plan new_agent_state is_blank new_step_execution
    with_step_execution
invoke_run = refl

walk-restore_example : RestoredAfter planner executor 9 plan fresh [] 0
walk-restore_example = walk-restore planner executor 9 plan fresh [] 0 refl

executor-IsPrompt : IsPrompt planner executor 1
unfolding planner executor
executor-IsPrompt = record {
  plans = λ s input w asked. ground arith;
  answers = λ s r i c active attempt w asked. ground arith;
}

fresh-MayStart : MayStart 1 fresh
unfolding is_blank
fresh-MayStart = record {
  valid = λ s held. subst IsValid (ground (arith, held)) new_state-IsValid;
  short = λ s held. subst (λ x. length x.plan_history ≤ 3) (same_state s held) (omega arith);
  small = λ s p held newest. absurd (no_plan s p held newest);
}

walk-is_over_example : is_over (walk planner executor none 17 plan fresh 0).0 ≡ true
walk-is_over_example =
    walk-is_over planner executor none 1 executor-IsPrompt 17 fresh 0 fresh-MayStart (omega arith)

-- The process ends while the step is executed, and the run is aborted when it is resumed.
killed : Stop × Stored ℕ
killed =
    walk (planner_beside planner executor) (executor_beside planner executor) (some memory_store) 2
      plan fresh ([], 0)

aborted : Result (Option RunResult) × (GraphState × Stored ℕ)
unfolding killed
aborted =
    run (planner_beside planner executor) (executor_beside planner executor) (some memory_store) 9
      "r" none (some "abort") none (killed.0.checkpoint, killed.1)

-- The abort has added a record that the checkpoint does not count: the result of the run cannot be
-- read again.
aborted_run :
    (run
      (planner_beside planner executor)
      (executor_beside planner executor)
      (some memory_store)
      9
      "r"
      none
      none
      none
      aborted.1).0
    ≡ err version_mismatch
unfolding aborted run planner executor with_plan new_agent_state is_blank new_step_execution
    with_step_execution memory_store
aborted_run = refl

abbrev final_state : AgentState
final_state = record new_state {
  plan_history = one_plan ∷ [];
  step_executions = execution 1 "a" Status.completed ∷ [];
}

final_state-IsValid : IsValid final_state
unfolding is_blank
final_state-IsValid = record {
  goal_given = refl;
  sequential = refl;
  goals_match = refl;
  keys_distinct = refl;
  planned = refl;
}

durable_answer-result_of_example :
    durable_answer (result_of "r" final)
    ≡ ok (record { answer = some "ok"; status = ConversationStatus.completed; error = none })
unfolding is_blank
durable_answer-result_of_example =
    durable_answer-result_of "r" final final_state (execution 1 "a" Status.completed) "ok" refl refl
      final_state-IsValid refl refl refl refl refl
