-- ===== src/Agent/Steps.antt =====
-- agent/agent.py: what the loop over the steps of a Plan leaves in the state.
use codex_py.State.Agent.Update.{
  with_step_execution-IsValid, updated, execution_for-updated, with_step_execution_lem,
}
use codex_py.Agent.{
  visit_step, execute_step, has_completed, has_failed, step_completed, step_failed,
}
use codex_py.Base.{
  Bool-cases, inl, inr, subst, subst₂, Bool, eq_iff, refl, sym, ap, false, ◌||◌, String, ◌≡◌, arith,
  if◌then◌else◌, ok, true, ℕ,
}
use codex_py.Base.Effect.{pure, lift, bind-eq-ok, Run}
use codex_py.State.{Status, PlanStep, is_failed, Plan, is_completed, StepExecution}
use codex_py.State.Agent.{with_step_execution, AgentState, has_key}
use codex_py.State.Agent.Valid.{IsValid}
use codex_py.State.Context.{ExecutionOutcome}

-- What `agent.py` relies on: an Executor answers for the step that it was given, and has ended it.
pub record IsHonest {W : Type 0} (executor : AgentState → ℕ → String → Run W ExecutionOutcome)
    : Type 0 where
  pub answers :
      (s : AgentState) (r : ℕ) (i : String) (w : W) {o : ExecutionOutcome} {w' : W}
      → executor s r i w ≡ (ok o, w')
      → (o.execution.revision ≡ r)
        × (o.execution.step_id ≡ i)
        × ((is_completed o.execution.status || is_failed o.execution.status) ≡ true)

with_step_execution-ok :
    (s : AgentState) (e : StepExecution) {t : AgentState}
    → IsValid s
    → with_step_execution s e ≡ ok t
    → t ≡ updated s e
with_step_execution-ok s e v h = ground (arith, with_step_execution_lem s e v)

step_completed-updated :
    (s : AgentState) (e : StepExecution) (plan : Plan) (step : PlanStep)
    → step_completed (updated s e) plan step ≡ (
        if has_key plan.revision step.id e
        then is_completed e.status
        else step_completed s plan step)
step_completed-updated s e plan step =
    ground (arith, ap has_completed (execution_for-updated s e plan.revision step.id))

step_failed-updated :
    (s : AgentState) (e : StepExecution) (plan : Plan) (step : PlanStep)
    → step_failed (updated s e) plan step
      ≡ (if has_key plan.revision step.id e then is_failed e.status else step_failed s plan step)
step_failed-updated s e plan step =
    ground (arith, ap has_failed (execution_for-updated s e plan.revision step.id))

is_failed-is_completed : (x : Status) → is_failed x ≡ true → is_completed x ≡ false
is_failed-is_completed x h = ground arith

-- What one step leaves: the flag says whether the step failed or is completed, a completed step
-- stays completed, and the plans are untouched.
pub record Visited (s t : AgentState) (plan : Plan) (step : PlanStep) (stop : Bool) : Type 0 where
  pub valid : IsValid t
  pub history : t.plan_history ≡ s.plan_history
  pub kept :
      (other : PlanStep)
      → step_completed s plan other ≡ true
      → stop ≡ false
      → step_completed t plan other ≡ true
  pub flag : (if stop then step_failed t plan step else step_completed t plan step) ≡ true

has_key_intro :
    (r : ℕ) (i : String) (e : StepExecution) → e.revision ≡ r → e.step_id ≡ i → has_key r i e ≡ true
has_key_intro r i e p q = ground (arith, eq_iff e.step_id i)

updated-Visited :
    (s : AgentState) (e : StepExecution) (plan : Plan) (step : PlanStep)
    → IsValid (updated s e)
    → has_key plan.revision step.id e ≡ true
    → (is_completed e.status || is_failed e.status) ≡ true
    → Visited s (updated s e) plan step (is_failed e.status)
updated-Visited s e plan step v key ends = record {
  valid = v;
  history = refl;
  kept = λ other done going. ground (arith, step_completed-updated s e plan other);
  flag = ground (arith, step_completed-updated s e plan step, step_failed-updated s e plan step);
}

with_step_execution-Visited :
    (s t : AgentState) (e : StepExecution) (plan : Plan) (step : PlanStep) (stop : Bool)
    → IsValid s
    → with_step_execution s e ≡ ok t
    → is_failed e.status ≡ stop
    → has_key plan.revision step.id e ≡ true
    → (is_completed e.status || is_failed e.status) ≡ true
    → Visited s t plan step stop
with_step_execution-Visited s t e plan step stop v wrote flag key ends =
    let same = with_step_execution-ok s e v wrote in
    subst₂ (λ x y. Visited s x plan step y) (sym same) flag
      (updated-Visited s e plan step (subst IsValid same (with_step_execution-IsValid s e wrote))
        key ends)

stay-Visited :
    (s : AgentState) (plan : Plan) (step : PlanStep) (stop : Bool)
    → IsValid s
    → (if stop then step_failed s plan step else step_completed s plan step) ≡ true
    → Visited s s plan step stop
stay-Visited s plan step stop v h = record {
  valid = v;
  history = refl;
  kept = λ other done going. done;
  flag = h;
}

module _ {W : Type 0} (planner : AgentState → Run W Plan)
    (executor : AgentState → ℕ → String → Run W ExecutionOutcome) (honest : IsHonest executor) where
  same_state :
      (s t : AgentState) (plan : Plan) (step : PlanStep) (flag stop : Bool) (w w' : W)
      → IsValid s
      → pure {W = W} {A = Bool × AgentState} (flag, s) w ≡ (ok (stop, t), w')
      → (if flag then step_failed s plan step else step_completed s plan step) ≡ true
      → Visited s t plan step stop
  same_state s t plan step flag stop w w' v h held =
      subst₂ (λ x y. Visited s x plan step y) (cc) (cc) (stay-Visited s plan step flag v held)

  execute_step-Visited :
      (s t : AgentState) (plan : Plan) (step : PlanStep) (stop : Bool) (w w' : W)
      → IsValid s
      → execute_step planner executor s plan step w ≡ (ok (stop, t), w')
      → Visited s t plan step stop
  unfolding execute_step
  execute_step-Visited s t plan step stop w w' v h =
      let (o, u, called, rest) = bind-eq-ok (executor s plan.revision step.id) _ w h in
      let (r, i, ends) = honest.answers s plan.revision step.id w called in
      let (t', u', wrote, result) =
        bind-eq-ok (lift (with_step_execution s o.execution)) _ u rest in
      with_step_execution-Visited s t o.execution plan step stop v (cc) (cc)
        (has_key_intro plan.revision step.id o.execution r i) ends

  pub visit_step-Visited :
      (s t : AgentState) (plan : Plan) (step : PlanStep) (stop : Bool) (w w' : W)
      → IsValid s
      → visit_step planner executor s plan step w ≡ (ok (stop, t), w')
      → Visited s t plan step stop
  unfolding visit_step
  visit_step-Visited s t plan step stop w w' v h = elim (Bool-cases (step_completed s plan step)) [
    | inl done ↦ let h' = rw done at h in same_state s t plan step false stop w w' v (h') done
    | inr pending ↦ elim (Bool-cases (step_failed s plan step)) [
      | inl lost ↦
          let h' = rw (pending, lost) at h in same_state s t plan step true stop w w' v (h') lost
      | inr fresh ↦ execute_step-Visited s t plan step stop w w' v (rw (pending, fresh) at h)
    ]
  ]
