-- ===== src/Durable/Open.antt =====
-- agent/durable.py: how many steps of the last plan are open.
use codex_py.Base.{
  List, Bool-cases, String, [], ap, arith, eq_iff, false, if◌then◌else◌, inl, inr, length, ok, some,
  subst₂, suc, sym, true, ℕ, ◌+◌, ◌∙◌, ◌∷◌, ◌≡◌, ◌≤◌, ◌⊎◌,
}
use codex_py.Durable.{first_open}
use codex_py.Agent.{has_completed, step_completed}
use codex_py.State.{Plan, PlanStep, StepExecution, is_completed}
use codex_py.State.Agent.{AgentState, with_step_execution, execution_for, has_key}
use codex_py.State.Agent.Update.{with_step_execution-updated, execution_for-updated}

abbrev pub open_count : AgentState → Plan → List PlanStep → ℕ
open_count s p [] = 0
open_count s p (step ∷ steps) =
    let rest = open_count s p steps in if step_completed s p step then rest else suc rest

pub open_count-length :
    (s : AgentState) (p : Plan) (steps : List PlanStep) → open_count s p steps ≤ length steps
open_count-length s p [] = omega arith
open_count-length s p (step ∷ steps) = ground (arith, open_count-length s p steps)

-- The executions of another state are completed where those of this one are.
pub open_count_mono :
    (s t : AgentState) (p : Plan) (steps : List PlanStep)
    → ((step : PlanStep) → step_completed s p step ≡ true → step_completed t p step ≡ true)
    → open_count t p steps ≤ open_count s p steps
open_count_mono s t p [] h = omega arith
open_count_mono s t p (step ∷ steps) h = ground (arith, open_count_mono s t p steps h, h step)

pub open_count_of_closed :
    (s t : AgentState) (p : Plan) (steps : List PlanStep) (r : ℕ) (i : String)
    → ((step : PlanStep) → step_completed s p step ≡ true → step_completed t p step ≡ true)
    → has_completed (execution_for t r i) ≡ true
    → first_open s p steps ≡ some (r, i)
    → open_count t p steps + 1 ≤ open_count s p steps
unfolding first_open
open_count_of_closed s t p [] r i h closed found = cc
open_count_of_closed s t p (step ∷ steps) r i h closed found =
    elim (Bool-cases (step_completed s p step)) [
      | inl done ↦ ground (
        arith,
        done,
        h step done,
        open_count_of_closed s t p steps r i h closed (rw done at found),
      )
      | inr waiting ↦
          let found' = rw waiting at found in
          let same_revision : p.revision ≡ r = ground (arith, found') in
          let same_step : step.id ≡ i = ground (arith, found') in
          let closed' =
            subst₂ (λ x y. has_completed (execution_for t x y) ≡ true) (sym same_revision)
              (sym same_step) closed in
          ground (arith, waiting, closed', open_count_mono s t p steps h)
    ]

pub first_open-open :
    (s : AgentState) (p : Plan) (steps : List PlanStep) (r : ℕ) (i : String)
    → first_open s p steps ≡ some (r, i)
    → has_completed (execution_for s r i) ≡ false
unfolding first_open
first_open-open s p [] r i found = cc
first_open-open s p (step ∷ steps) r i found = elim (Bool-cases (step_completed s p step)) [
  | inl done ↦ first_open-open s p steps r i (rw done at found)
  | inr waiting ↦
      let found' = rw waiting at found in
      subst₂ (λ x y. has_completed (execution_for s x y) ≡ false) (ground (arith, found'))
        (ground (arith, found')) waiting
]

-- The steps that are completed after an execution is recorded.
pub has_completed-written :
    (s t : AgentState) (e : StepExecution) (r : ℕ) (i : String)
    → with_step_execution s e ≡ ok t
    → has_completed (execution_for t r i)
      ≡ (if has_key r i e then is_completed e.status else has_completed (execution_for s r i))
has_completed-written s t e r i wrote =
    ap (λ x. has_completed (execution_for x r i)) (with_step_execution-updated s t e wrote)
    ∙ (ap has_completed (execution_for-updated s e r i) ∙ ground arith)

-- An execution that is completed, or that belongs to a step that was open, keeps the others done.
pub kept_completed :
    (s t : AgentState) (e : StepExecution) (p : Plan)
    → with_step_execution s e ≡ ok t
    → (is_completed e.status ≡ true)
      ⊎ (has_completed (execution_for s e.revision e.step_id) ≡ false)
    → (step : PlanStep) → step_completed s p step ≡ true
    → step_completed t p step ≡ true
kept_completed s t e p wrote (inl closed) step done =
    ground (arith, has_completed-written s t e p.revision step.id wrote, closed, done)
kept_completed s t e p wrote (inr waiting) step done =
    elim (Bool-cases (has_key p.revision step.id e)) [
      | inl same ↦
          let here =
            subst₂ (λ x y. has_completed (execution_for s x y) ≡ false) {x = e.revision}
              {y = p.revision} {u = e.step_id} {v = step.id} (ground (arith, same))
              (ground (arith, same, eq_iff e.step_id step.id)) waiting in
          ground (arith, done, here)
      | inr other ↦
          ground (arith, has_completed-written s t e p.revision step.id wrote, other, done)
    ]
