-- ===== src/Agent.antt =====
-- agent/agent.py: the serial Plan-Execute coordinator and the recovery decisions.
-- The Planner and the Executor are parameters: actions over a world `W` that they share.
pub mod Steps
pub mod Walk
pub mod Rounds
pub mod Decision
pub mod Results
use codex_py.Base.{
  Bool, List, Option, Result, String, [], all, any, err, false, find, if◌then◌else◌, is_empty, last,
  nat_eq, none, not, ok, other_error, recovery_decision_error, some, string_eq, suc, true, zero, ℕ,
  ◌<>◌, ◌==◌, ◌∷◌, ◌>>=◌ as bind_result,
}
use codex_py.Base.Effect.{Run, pure, lift, ◌>>=◌}
use codex_py.Base.Json.{null, int, pos, str}
use codex_py.State.{
  PlanStep, Plan, StepExecution, Status, running, interrupted, failed, is_completed, is_failed,
  is_nil, new_step_execution, status_name,
}
use codex_py.State.Context.{ExecutionOutcome}
use codex_py.State.Agent.{AgentState, with_plan, with_step_execution, execution_for}

abbrev pub is_running : StepExecution → Bool
is_running e = elim e.status [ running ↦ true | _ ↦ false ]

abbrev pub is_interrupted : StepExecution → Bool
is_interrupted e = elim e.status [ interrupted ↦ true | _ ↦ false ]

-- value or default
abbrev pub text_or : Option String → String → String
text_or none d = d
text_or (some s) d = if is_empty s then d else s

abbrev pub ended : StepExecution → Status → String → Result StepExecution
ended e status message =
    new_step_execution (int (pos e.revision)) (str e.step_id) (str (status_name status)) null
      (str (text_or e.error message)) null

pub replace_ended : AgentState → StepExecution → Status → String → Result AgentState
replace_ended s e status message =
    bind_result (ended e status message) (λ e'. with_step_execution s e')

pub mark : AgentState → Option StepExecution → Result AgentState
unfolding replace_ended
mark s none = ok s
mark s (some e) = replace_ended s e interrupted "Step execution was interrupted before recovery"

unfoldable pub mark_stale_execution_interrupted : AgentState → Result AgentState
unfolding mark
mark_stale_execution_interrupted s = mark s (find is_running s.step_executions)

-- The decision on a state whose running execution is already marked.
pub decide : Option String → AgentState → StepExecution → Result (AgentState × Bool)
unfolding replace_ended
decide none s e = err (recovery_decision_error "an interrupted Step execution requires --recovery")
decide (some recovery) s e =
    if recovery == "abort"
    then ok (s, true)
    else if not (recovery == "fail")
    then err (recovery_decision_error ("invalid recovery decision: " <> recovery))
    else bind_result (replace_ended s e failed "Step execution was interrupted")
        (λ t. ok (t, false))

pub settle : Option String → AgentState → Option StepExecution → Result (AgentState × Bool)
unfolding decide
settle recovery s none = ok (s, false)
settle recovery s (some e) = decide recovery s e

unfoldable pub apply_recovery_decision : AgentState → Option String → Result (AgentState × Bool)
unfolding mark_stale_execution_interrupted settle
apply_recovery_decision s recovery =
    bind_result (mark_stale_execution_interrupted s)
      (λ t. settle recovery t (find is_interrupted t.step_executions))

pub data AgentStatus : Type 0 where
  finished blocked : AgentStatus

pub record AgentResult : Type 0 where
  pub status : AgentStatus
  pub state : AgentState

-- One round of the `while True` loop returns a result or goes round again.
pub data Turn : Type 0 where
  done : AgentResult → Turn
  again : AgentState → Turn

abbrev pub status_of : AgentState → Plan → PlanStep → Option StepExecution
status_of s plan step = execution_for s plan.revision step.id

abbrev pub has_failed : Option StepExecution → Bool
has_failed none = false
has_failed (some e) = is_failed e.status

abbrev pub has_completed : Option StepExecution → Bool
has_completed none = false
has_completed (some e) = is_completed e.status

abbrev pub step_failed : AgentState → Plan → PlanStep → Bool
step_failed s plan step = has_failed (status_of s plan step)

abbrev pub step_completed : AgentState → Plan → PlanStep → Bool
step_completed s plan step = has_completed (status_of s plan step)

-- plan_history[-1]
abbrev pub last_plan : AgentState → Result Plan
last_plan s = elim (last s.plan_history) [
  | none ↦ err (other_error "list index out of range")
  | some p ↦ ok p
]

module _ {W : Type 0} where
  -- `break` on a failure
  abbrev pub unless_stopped :
      (AgentState → Run W (Bool × AgentState)) → Bool × AgentState → Run W (Bool × AgentState)
  unless_stopped rest (true, t) = pure (true, t)
  unless_stopped rest (false, t) = rest t

  abbrev pub unless_done :
      (AgentState → Run W (Option AgentResult)) → Turn → Run W (Option AgentResult)
  unless_done rest (done r) = pure (some r)
  unless_done rest (again t) = rest t

module _ {W : Type 0} (planner : AgentState → Run W Plan)
    (executor : AgentState → ℕ → String → Run W ExecutionOutcome) where
  pub append_plan : AgentState → Run W AgentState
  append_plan s = do plan ← planner s; lift (with_plan s plan)

  -- _replan_after_failure
  pub replan_after_failure : AgentState → Plan → Run W Turn
  unfolding append_plan
  replan_after_failure s plan =
      if plan.revision == 3
      then pure (done (record { status = blocked; state = s }))
      else do t ← append_plan s; pure (again t)

  pub execute_step : AgentState → Plan → PlanStep → Run W (Bool × AgentState)
  execute_step s plan step = do
    outcome ← executor s plan.revision step.id
    t ← lift (with_step_execution s outcome.execution)
    pure (is_failed outcome.execution.status, t)

  pub visit_step : AgentState → Plan → PlanStep → Run W (Bool × AgentState)
  unfolding execute_step
  visit_step s plan step =
      if step_completed s plan step
      then pure (false, s)
      else if step_failed s plan step
      then pure (true, s)
      else execute_step s plan step

  -- `for step in plan.steps`; the flag is `failed`, which ends the loop
  pub run_steps : Plan → List PlanStep → AgentState → Run W (Bool × AgentState)
  unfolding visit_step
  run_steps plan [] s = pure (false, s)
  run_steps plan (step ∷ steps) s = do
    visited ← visit_step s plan step
    unless_stopped (run_steps plan steps) visited

  pub after_steps : Plan → Bool × AgentState → Run W Turn
  unfolding replan_after_failure
  after_steps plan (stop, s) =
      if stop
      then replan_after_failure s plan
      else if all (step_completed s plan) plan.steps
      then pure (done (record { status = finished; state = s }))
      else pure (again s)

  pub ensure_plan : AgentState → Run W AgentState
  unfolding append_plan
  ensure_plan s = if is_nil s.plan_history then append_plan s else pure s

  pub round_from : AgentState → Plan → Run W Turn
  unfolding after_steps run_steps
  round_from s plan =
      if any (step_failed s plan) plan.steps
      then replan_after_failure s plan
      else do ended ← run_steps plan plan.steps s; after_steps plan ended

  pub round : AgentState → Run W Turn
  unfolding ensure_plan round_from
  round s = do t ← ensure_plan s; plan ← lift (last_plan t); round_from t plan

  -- `while True` on fuel; `none` means that the fuel ran out
  pub loop : ℕ → AgentState → Run W (Option AgentResult)
  unfolding round
  loop zero s = pure none
  loop (suc fuel) s = do turn ← round s; unless_done (loop fuel) turn

  -- Agent.run
  unfoldable pub run : ℕ → AgentState → Option String → Run W (Option AgentResult)
  unfolding loop apply_recovery_decision
  run fuel s recovery = do
    (t, abort) ← lift (apply_recovery_decision s recovery)
    if abort then pure (some (record { status = blocked; state = t })) else loop fuel t
