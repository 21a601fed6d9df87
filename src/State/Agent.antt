-- ===== src/State/Agent.antt =====
-- memory/state.py: `AgentState`, the plans of a goal and the latest execution of each Plan step.
pub mod Valid
pub mod Update
use codex_py.Base.{ℕ, suc, String, Bool, true, not, ◌&&◌, Option, List, [], ◌∷◌, ◌++◌}
use codex_py.Base.{◌==◌, nat_eq, string_eq, all, any, keep, find}
use codex_py.Base.{Result, ok, value_error, ◌>>◌, guard}
use codex_py.Base.Json.{str}
use codex_py.State.{PlanStep, Plan, StepExecution, require_text}

pub record AgentState : Type 0 where
  pub goal : String
  pub plan_history : List Plan
  pub step_executions : List StepExecution
  pub memory_summary : Option String

-- (revision, step_id) == (item.revision, item.step_id)
abbrev pub has_key : ℕ → String → StepExecution → Bool
has_key revision step_id item = item.revision == revision && item.step_id == step_id

-- [plan.revision for plan in plans] == list(range(n, n + len(plans)))
abbrev pub sequential_from : ℕ → List Plan → Bool
sequential_from n [] = true
sequential_from n (p ∷ ps) = p.revision == n && sequential_from (suc n) ps

-- len({(e.revision, e.step_id) for e in executions}) == len(executions)
abbrev pub distinct_keys : List StepExecution → Bool
distinct_keys [] = true
distinct_keys (e ∷ es) = not (any (has_key e.revision e.step_id) es) && distinct_keys es

abbrev pub plan_has : ℕ → String → Plan → Bool
plan_has revision step_id p =
    p.revision == revision && any (λ (s : PlanStep). s.id == step_id) p.steps

-- (revision, step_id) in {(plan.revision, step.id) for plan in plans for step in plan.steps}
abbrev pub is_planned : List Plan → ℕ → String → Bool
is_planned plans revision step_id = any (plan_has revision step_id) plans

abbrev pub all_planned : List Plan → List StepExecution → Bool
all_planned plans = all (λ (e : StepExecution). is_planned plans e.revision e.step_id)

unfoldable pub new_agent_state :
    String → List Plan → List StepExecution → Option String → Result AgentState
unfolding require_text
new_agent_state goal plans executions summary = do
  require_text (str goal) "agent state goal"
  guard (sequential_from 1 plans) (value_error "plan revisions must be sequential")
  guard (all (λ (p : Plan). p.goal == goal) plans)
      (value_error "plan goal must match agent state goal")
  guard (distinct_keys executions) (value_error "step executions must be uniquely associated")
  guard (all_planned plans executions)
      (value_error "step execution must be associated with a plan step")
  ok (record {
    goal = goal;
    plan_history = plans;
    step_executions = executions;
    memory_summary = summary;
  })

unfoldable pub with_plan : AgentState → Plan → Result AgentState
with_plan s plan =
    new_agent_state s.goal (s.plan_history ++ (plan ∷ [])) s.step_executions s.memory_summary

-- The executions of the other steps, in their order.
abbrev pub other_executions : StepExecution → List StepExecution → List StepExecution
other_executions e = keep (λ item. not (has_key e.revision e.step_id item))

unfoldable pub with_step_execution : AgentState → StepExecution → Result AgentState
with_step_execution s e =
    new_agent_state s.goal s.plan_history (other_executions e s.step_executions ++ (e ∷ []))
      s.memory_summary

-- agent/agent.py: _execution_for
abbrev pub execution_for : AgentState → ℕ → String → Option StepExecution
execution_for s revision step_id = find (has_key revision step_id) s.step_executions
