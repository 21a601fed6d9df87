-- ===== src/Durable/Written.antt =====
-- agent/durable.py: what a recorded execution does to the number of open steps.
use codex_py.Base.{
  eq_iff, true, ◌*◌, ◌||◌, ◌≤◌, String, [], ap, arith, false, inl, inr, last, length, none, ok,
  some, subst, subst₂, suc, sym, ℕ, ◌++◌, ◌+◌, ◌∙◌, ◌∷◌, ◌≡◌,
}
use codex_py.Durable.{
  mark_running, GraphState, Node, after, execute, next_step, open_in, first_open, last_execution,
}
use codex_py.State.{
  require_revision, Plan, is_failed, is_completed, StepExecution, new_step_execution, running,
}
use codex_py.Durable.Open.{
  open_count, open_count_mono, open_count_of_closed, first_open-open, has_completed-written,
  kept_completed,
}
use codex_py.Durable.Nodes.{with_step_execution-plan_history}
use codex_py.Durable.Ranks.{Stands, Fits, steps_left, after_execute-Fits}
use codex_py.Durable.Saves.{with_step_execution-last, last_execution-eq}
use codex_py.Agent.{has_completed}
use codex_py.Recovery.Durable.{typed_execution-ok}
use codex_py.State.Agent.{AgentState, with_plan, with_step_execution, execution_for}
use codex_py.State.Agent.Valid.{new_agent_state-IsValid}
use codex_py.Base.Json.{int, pos, str, null}

pub with_plan-plan_history :
    (s t : AgentState) (p : Plan)
    → with_plan s p ≡ ok t
    → t.plan_history ≡ s.plan_history ++ (p ∷ [])
unfolding with_plan
with_plan-plan_history s t p h =
    ap (λ x. x.plan_history)
      (new_agent_state-IsValid s.goal (s.plan_history ++ (p ∷ [])) s.step_executions
        s.memory_summary h).1

-- The plans stay when an execution is recorded.
pub written-Stands :
    (g g' : GraphState) (l o o' : ℕ) (here : Stands g l o) (t : AgentState) (e : StepExecution)
    → with_step_execution here.planned.state e ≡ ok t
    → open_count t here.planned.plan here.planned.plan.steps ≤ o'
    → g'.agent_state ≡ some t
    → Stands g' l o'
written-Stands g g' l o o' here t e wrote few held =
    let same = with_step_execution-plan_history here.planned.state t e wrote in
    let longer = ap length same in
    record {
      planned = record {
        state = t;
        plan = here.planned.plan;
        held = held;
        newest = ap last same ∙ here.planned.newest;
      };
      revision = here.revision ∙ sym longer;
      budget = omega (arith, here.budget, longer);
      few = few;
    }

-- No step is opened when an execution of an open step is recorded.
pub written-open_count :
    (g : GraphState) (l o : ℕ) (here : Stands g l o) (t : AgentState) (e : StepExecution)
    → with_step_execution here.planned.state e ≡ ok t
    → has_completed (execution_for here.planned.state e.revision e.step_id) ≡ false
    → open_count t here.planned.plan here.planned.plan.steps ≤ o
written-open_count g l o here t e wrote waiting =
    let s = here.planned.state in
    let p = here.planned.plan in
    omega
      (arith, here.few, open_count_mono s t p p.steps (kept_completed s t e p wrote (inr waiting)))

-- The next step is the first open one of the last plan.
pub next_step-first_open :
    (s : AgentState) (p : Plan) (k : ℕ × String)
    → last s.plan_history ≡ some p
    → next_step s ≡ some k
    → first_open s p p.steps ≡ some k
unfolding next_step
next_step-first_open s p k newest h = ap (open_in s) (sym newest) ∙ h

pub still_open :
    (s s' : AgentState) (r : ℕ) (i : String) (e : StepExecution)
    → s ≡ s'
    → e.revision ≡ r
    → e.step_id ≡ i
    → has_completed (execution_for s r i) ≡ false
    → has_completed (execution_for s' e.revision e.step_id) ≡ false
still_open s s' r i e same same_revision same_step waiting =
    subst₂ (λ x y. has_completed (execution_for s' x y) ≡ false) (sym same_revision) (sym same_step)
      (subst (λ x. has_completed (execution_for x r i) ≡ false) same waiting)

pub null-refused :
    (e : StepExecution) → ¬ (new_step_execution null null (str "running") null null null ≡ ok e)
unfolding new_step_execution require_revision
null-refused e h = cc

pub running-key :
    (r : ℕ) (i : String) (e : StepExecution)
    → new_step_execution (int (pos r)) (str i) (str "running") null null null ≡ ok e
    → (e.revision ≡ r) × (e.step_id ≡ i)
running-key r i e made =
    let same = typed_execution-ok r i running none none none e made in
    (ap (λ x. x.revision) same, ap (λ x. x.step_id) same)

pub still_completed :
    (t : AgentState) (e e' : StepExecution)
    → last t.step_executions ≡ some e
    → last_execution t ≡ ok e'
    → (is_completed e.status || is_failed e.status) ≡ true
    → is_failed e'.status ≡ false
    → is_completed e.status ≡ true
still_completed t e e' newest newest' ends going =
    let same : e ≡ e' = ground (arith, last_execution-eq t e newest, newest') in
    ground (arith, ends, subst (λ x. is_failed x.status ≡ false) (sym same) going)

-- A completed execution of the next step leaves one open step less.
pub closed-Fits :
    (size fuel : ℕ) (g g' : GraphState) (t : AgentState) (e : StepExecution) (l o : ℕ)
    (here : Stands g l o)
    → with_step_execution here.planned.state e ≡ ok t
    → first_open here.planned.state here.planned.plan here.planned.plan.steps
      ≡ some (e.revision, e.step_id)
    → is_completed e.status ≡ true
    → steps_left size l + 2 * o + 3 ≤ suc fuel
    → g'.agent_state ≡ some t
    → Fits size fuel mark_running g'
unfolding Fits
closed-Fits size fuel g g' t e l o here wrote found done room held =
    let s = here.planned.state in
    let p = here.planned.plan in
    let open_now = open_count t p p.steps in
    let written = has_completed-written s t e e.revision e.step_id wrote in
    let fewer =
      open_count_of_closed s t p p.steps e.revision e.step_id
        (kept_completed s t e p wrote (inl done))
        (ground (arith, written, done, eq_iff e.step_id e.step_id)) found in
    (
      l,
      open_now,
      written-Stands g g' l o open_now here t e wrote (omega arith) held,
      omega (arith, fewer, here.few, room),
    )

-- The routing after the execution of the next step is recorded.
pub recorded-Fits :
    (size fuel : ℕ) (g g' : GraphState) (n : Node) (t : AgentState) (e : StepExecution) (l o : ℕ)
    (here : Stands g l o)
    → with_step_execution here.planned.state e ≡ ok t
    → next_step here.planned.state ≡ some (e.revision, e.step_id)
    → (is_completed e.status || is_failed e.status) ≡ true
    → steps_left size l + 2 * o + 3 ≤ suc fuel
    → g'.agent_state ≡ some t
    → after execute g' ≡ ok n
    → Fits size fuel n g'
recorded-Fits size fuel g g' n t e l o here wrote first ends room held went =
    let s = here.planned.state in
    let p = here.planned.plan in
    let found = next_step-first_open s p (e.revision, e.step_id) here.planned.newest first in
    let waiting = first_open-open s p p.steps e.revision e.step_id found in
    let few = written-open_count g l o here t e wrote waiting in
    after_execute-Fits size fuel l o g' n (written-Stands g g' l o o here t e wrote few held)
      (omega (arith, room))
      (λ t' e' held' newest going.
        let same : t ≡ t' = ground (arith, held, held') in
        let last_t = subst (λ x. last_execution x ≡ ok e') (sym same) newest in
        inr (
          closed-Fits size fuel g g' t e l o here wrote found
            (still_completed t e e' (with_step_execution-last s t e wrote) last_t ends going) room
            held))
      went
