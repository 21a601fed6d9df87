-- ===== src/Durable/Ranks.antt =====
-- agent/durable.py: how many super-steps the graph still needs at most at each node.
use codex_py.Base.{
  Option, >>=-eq-ok, Bool, String, arith, false, if◌then◌else◌, inl, inr, last, length, none, ok,
  refl, some, subst, suc, sym, true, zero, ℕ, ◌*◌, ◌+◌, ◌||◌, ◌≡◌, ◌≤◌, ◌⊎◌,
}
use codex_py.Durable.{
  GraphState, Node, StepExecutor, after, plan, mark_running, execute, replan, finished, or_complete,
  unless_done, next_step, last_execution,
}
use codex_py.Durable.Places.{HasPlan}
use codex_py.Durable.Open.{open_count}
use codex_py.Agent.{has_failed}
use codex_py.State.{Plan, is_failed, is_completed, StepExecution}
use codex_py.State.Context.{ExecutionOutcome, StepContext}
use codex_py.State.Agent.{AgentState}
use codex_py.State.Agent.Valid.{IsValid}
use codex_py.Base.Json.{Json}
use codex_py.Base.Effect.{Run}

-- What the graph relies on: plans of at most `size` steps, and an Executor that answers for the step
-- that it was given and has ended it.
pub record IsPrompt {W : Type 0} (planner : AgentState → Option Json → Run W Plan)
    (executor : StepExecutor W) (size : ℕ) : Type 0 where
  pub plans :
      (s : AgentState) (input : Option Json) (w : W) {p : Plan} {w' : W}
      → planner s input w ≡ (ok p, w')
      → length p.steps ≤ size
  pub answers :
      (s : AgentState) (r : ℕ) (i : String) (c : StepContext) (active : Bool) (attempt : Option ℕ)
      (w : W) {o : ExecutionOutcome} {w' : W}
      → executor s r i c active attempt w ≡ (ok o, w')
      → (o.execution.revision ≡ r)
        × (o.execution.step_id ≡ i)
        × ((is_completed o.execution.status || is_failed o.execution.status) ≡ true)

-- A state with `left` revisions to go and at most `waiting` open steps of the last plan.
pub record Stands (g : GraphState) (left waiting : ℕ) : Type 0 where
  pub planned : HasPlan g
  pub revision : planned.plan.revision ≡ length planned.state.plan_history
  pub budget : left + length planned.state.plan_history ≡ 3
  pub few : open_count planned.state planned.plan planned.plan.steps ≤ waiting

-- The super-steps of the revisions to go.
abbrev pub steps_left : ℕ → ℕ → ℕ
steps_left size zero = 0
steps_left size (suc left) = 2 * size + 3 + steps_left size left

-- A state that a run may start from.
pub record MayStart (size : ℕ) (g : GraphState) : Type 0 where
  pub valid : (s : AgentState) → g.agent_state ≡ some s → IsValid s
  pub short : (s : AgentState) → g.agent_state ≡ some s → length s.plan_history ≤ 3
  pub small :
      (s : AgentState) (p : Plan)
      → g.agent_state ≡ some s
      → last s.plan_history ≡ some p
      → length p.steps ≤ size

-- The graph needs at most `fuel` super-steps more.
unfoldable pub Fits : ℕ → ℕ → Node → GraphState → Type 0
Fits size fuel plan g = MayStart size g × (6 * size + 11 ≤ fuel)
Fits size fuel mark_running g =
    (l : ℕ) × (o : ℕ) × Stands g l o × (steps_left size l + 2 * o + 4 ≤ fuel)
Fits size fuel execute g = (l : ℕ) × (o : ℕ) × Stands g l o × (steps_left size l + 2 * o + 3 ≤ fuel)
Fits size fuel replan g = (l : ℕ) × (o : ℕ) × Stands g l o × (steps_left size l + 2 ≤ fuel)
Fits size fuel finished g = 0 ≤ fuel
Fits size fuel _ g = 1 ≤ fuel

or_complete-Fits :
    (size fuel : ℕ) (g : GraphState) (n : Node) (next : Option (ℕ × String))
    → 1 ≤ fuel
    → Fits size fuel n g
    → Fits size fuel (or_complete next n) g
unfolding Fits
or_complete-Fits size fuel g n none more here = more
or_complete-Fits size fuel g n (some k) more here = here

or_replan-Fits :
    (size fuel : ℕ) (g : GraphState) (n : Node) (failed : Bool)
    → (failed ≡ true → Fits size fuel replan g)
    → (failed ≡ false → Fits size fuel n g)
    → Fits size fuel (if failed then replan else n) g
unfolding Fits
or_replan-Fits size fuel g n true again here = again refl
or_replan-Fits size fuel g n false again here = here refl

pub after_plan-Fits :
    (size fuel l o : ℕ) (g : GraphState) (n : Node)
    → Stands g l o
    → steps_left size l + 2 * o + 4 ≤ fuel
    → after plan g ≡ ok n
    → Fits size fuel n g
unfolding after Fits
after_plan-Fits size fuel l o g n here within h =
    let h' = rw here.planned.held at h in
    subst (λ x. Fits size fuel x g) (ground (arith, h'))
      (or_complete-Fits size fuel g mark_running (next_step here.planned.state)
        (omega (arith, within)) (l, o, here, within))

pub after_mark_running-Fits :
    (size fuel l o : ℕ) (g : GraphState) (n : Node)
    → Stands g l o
    → steps_left size l + 2 * o + 3 ≤ fuel
    → after mark_running g ≡ ok n
    → Fits size fuel n g
unfolding after Fits
after_mark_running-Fits size fuel l o g n here within h =
    let h' = rw here.planned.held at h in
    subst (λ x. Fits size fuel x g) (ground (arith, h'))
      (or_replan-Fits size fuel g (unless_done here.planned.state execute)
        (has_failed (last here.planned.state.step_executions))
        (λ _. (l, o, here, omega (arith, within)))
        (λ _.
          or_complete-Fits size fuel g execute (next_step here.planned.state)
            (omega (arith, within)) (l, o, here, within)))

-- An execution that has not failed has closed a step, or nothing is open.
pub after_execute-Fits :
    (size fuel l o : ℕ) (g : GraphState) (n : Node) (here : Stands g l o)
    → steps_left size l + 2 ≤ fuel
    → ((s : AgentState) (e : StepExecution)
        → g.agent_state ≡ some s
        → last_execution s ≡ ok e
        → is_failed e.status ≡ false
        → (next_step s ≡ none) ⊎ Fits size fuel mark_running g)
    → after execute g ≡ ok n
    → Fits size fuel n g
unfolding after Fits
after_execute-Fits size fuel l o g n here within closed h =
    let h' = rw here.planned.held at h in
    let (e, newest, h₁) = >>=-eq-ok (last_execution here.planned.state) _ h' in
    subst (λ x. Fits size fuel x g) (ground (arith, h₁))
      (or_replan-Fits size fuel g (unless_done here.planned.state mark_running) (is_failed e.status)
        (λ _. (l, o, here, within))
        (λ going. elim (closed here.planned.state e here.planned.held newest going) [
          | inl over ↦
              subst (λ x. Fits size fuel (or_complete x mark_running) g) (sym over)
                (omega (arith, within))
          | inr room ↦
              or_complete-Fits size fuel g mark_running (next_step here.planned.state)
                (omega (arith, within)) room
        ]))
