-- ===== src/State/Agent/Valid.antt =====
-- memory/state.py: what `AgentState.__post_init__` admits, as an invariant.
use codex_py.Base.{
  Option, String, arith, false, is_blank, nat_eq, ok, refl, string_eq, true, ◌==◌, ◌≡◌,
}
use codex_py.Base.{all}
use codex_py.Base.{arith, true}
use codex_py.Base.{false, ok}
use codex_py.Base.{◌≡◌}
use codex_py.Base.{Option}
use codex_py.Base.{List}
use codex_py.Base.{String, is_blank}
use codex_py.State.{Plan, StepExecution}
use codex_py.State.Agent.{AgentState, sequential_from, distinct_keys, all_planned, new_agent_state}

pub record IsValid (s : AgentState) : Type 0 where
  pub goal_given : is_blank s.goal ≡ false
  pub sequential : sequential_from 1 s.plan_history ≡ true
  pub goals_match : all (λ (p : Plan). p.goal == s.goal) s.plan_history ≡ true
  pub keys_distinct : distinct_keys s.step_executions ≡ true
  pub planned : all_planned s.plan_history s.step_executions ≡ true

abbrev pub state_of : String → List Plan → List StepExecution → Option String → AgentState
state_of goal plans executions summary = record {
  goal = goal;
  plan_history = plans;
  step_executions = executions;
  memory_summary = summary;
}

pub new_agent_state_of_valid :
    (s : AgentState)
    → IsValid s
    → new_agent_state s.goal s.plan_history s.step_executions s.memory_summary ≡ ok s
unfolding new_agent_state
new_agent_state_of_valid s v =
    rw (v.goal_given, v.sequential, v.goals_match, v.keys_distinct, v.planned) refl

-- The constructor returns a state exactly when it satisfies the invariant.
pub new_agent_state-IsValid :
    (goal : String) (plans : List Plan) (executions : List StepExecution) (summary : Option String)
    {s : AgentState}
    → new_agent_state goal plans executions summary ≡ ok s
    → IsValid s × (s ≡ state_of goal plans executions summary)
unfolding new_agent_state
new_agent_state-IsValid goal plans executions summary h = ground arith
