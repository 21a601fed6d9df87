-- ===== src/Durable/Places.antt =====
-- agent/durable.py: where a walk through the graph can be, and what is true there.
use codex_py.Durable.{
  open_in, or_complete, GraphState, GraphStatus, Node, blocked, completed, first_open, next_step,
  unless_done, plan, mark_running, execute, replan, complete, finished, interrupted,
}
use codex_py.Base.{
  String, subst, ℕ, Bool, List, Option, [], all, arith, false, last, none, refl, some, true, ◌∷◌,
  ◌≡◌, ◌⊎◌,
}
use codex_py.Agent.{step_completed}
use codex_py.State.{Plan, PlanStep}
use codex_py.State.Agent.{AgentState}

abbrev pub is_blocked : Option GraphStatus → Bool
is_blocked none = false
is_blocked (some status) = elim status [ blocked ↦ true | _ ↦ false ]

-- There is a state with a last plan.
pub record HasPlan (g : GraphState) : Type 0 where
  pub state : AgentState
  pub plan : Plan
  pub held : g.agent_state ≡ some state
  pub newest : last state.plan_history ≡ some plan

pub record Moving (g : GraphState) : Type 0 where
  pub planned : HasPlan g
  pub free : is_blocked g.status ≡ false

-- Every step of the last plan is completed.
pub record Done (g : GraphState) : Type 0 where
  pub planned : HasPlan g
  pub every : all (step_completed planned.state planned.plan) planned.plan.steps ≡ true

-- The last plan is the third revision.
pub record AtLimit (g : GraphState) : Type 0 where
  pub planned : HasPlan g
  pub third : planned.plan.revision ≡ 3

-- What holds when the walk has ended.
abbrev pub Ended : GraphState → Type 0
Ended g = ((g.status ≡ some completed) × Done g) ⊎ ((g.status ≡ some blocked) × AtLimit g)

unfoldable pub IsAt : Node → GraphState → Type 0
IsAt plan g = is_blocked g.status ≡ false
IsAt mark_running g = Moving g
IsAt execute g = Moving g
IsAt replan g = Moving g
IsAt complete g = Done g
IsAt finished g = Ended g
IsAt Node.blocked g = ⊥
IsAt interrupted g = ⊥

first_open-none :
    (s : AgentState) (p : Plan) (steps : List PlanStep)
    → first_open s p steps ≡ none
    → all (step_completed s p) steps ≡ true
unfolding first_open
first_open-none s p [] h = refl
first_open-none s p (step ∷ steps) h = ground (arith, first_open-none s p steps)

next_step-none :
    (s : AgentState) (p : Plan) (newest : Option Plan)
    → newest ≡ some p
    → open_in s newest ≡ none
    → all (step_completed s p) p.steps ≡ true
next_step-none s p none same h = cc
next_step-none s p (some q) same h =
    let same' : q ≡ p = ground (arith, same) in
    subst (λ x. all (step_completed s x) x.steps ≡ true) same' (first_open-none s q q.steps h)

or_complete-IsAt :
    (g : GraphState) (n : Node) (o : Option (ℕ × String))
    → IsAt n g
    → (o ≡ none → Done g)
    → IsAt (or_complete o n) g
unfolding IsAt
or_complete-IsAt g n none here done = done refl
or_complete-IsAt g n (some k) here done = here

pub unless_done-IsAt :
    (g : GraphState) (n : Node) (m : Moving g) → IsAt n g → IsAt (unless_done m.planned.state n) g
unfolding next_step
unless_done-IsAt g n m here = or_complete-IsAt g n (next_step m.planned.state) here (λ h. record {
  planned = m.planned;
  every =
      next_step-none m.planned.state m.planned.plan (last m.planned.state.plan_history)
        m.planned.newest h;
})
