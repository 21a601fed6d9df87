-- ===== src/Agent/Walk.antt =====
-- agent/agent.py: what the whole loop over the steps of a Plan leaves in the state.
use codex_py.Agent.Steps.{visit_step-Visited, IsHonest, Visited}
use codex_py.Agent.{visit_step, unless_stopped, run_steps, step_failed, step_completed}
use codex_py.Base.Effect.{bind-eq-ok, Run}
use codex_py.State.Context.{ExecutionOutcome}
use codex_py.Base.{
  String, List, ℕ, Bool, [], all, any, arith, false, if◌then◌else◌, ok, refl, subst₂, true, ◌∙◌,
  ◌∷◌, ◌≡◌,
}
use codex_py.State.{PlanStep, Plan}
use codex_py.State.Agent.Valid.{IsValid}
use codex_py.State.Agent.{AgentState}

pub record Walked (s t : AgentState) (plan : Plan) (steps : List PlanStep) (stop : Bool)
    : Type 0 where
  pub valid : IsValid t
  pub history : t.plan_history ≡ s.plan_history
  pub kept :
      (other : PlanStep)
      → step_completed s plan other ≡ true
      → stop ≡ false
      → step_completed t plan other ≡ true
  pub flag :
      (if stop then any (step_failed t plan) steps else all (step_completed t plan) steps) ≡ true

start-Walked : (s : AgentState) (plan : Plan) → IsValid s → Walked s s plan [] false
start-Walked s plan v = record {
  valid = v;
  history = refl;
  kept = λ other done going. done;
  flag = refl;
}

stopped-Walked :
    (s t : AgentState) (plan : Plan) (step : PlanStep) (steps : List PlanStep)
    → Visited s t plan step true
    → Walked s t plan (step ∷ steps) true
stopped-Walked s t plan step steps v = record {
  valid = v.valid;
  history = v.history;
  kept = v.kept;
  flag = ground (arith, v.flag);
}

next-Walked :
    (s m t : AgentState) (plan : Plan) (step : PlanStep) (steps : List PlanStep) (stop : Bool)
    → Visited s m plan step false
    → Walked m t plan steps stop
    → Walked s t plan (step ∷ steps) stop
next-Walked s m t plan step steps stop v w = record {
  valid = w.valid;
  history = w.history ∙ v.history;
  kept = λ other done going. w.kept other (v.kept other done refl) going;
  flag = ground (arith, w.flag, w.kept step v.flag);
}

module _ {W : Type 0} (planner : AgentState → Run W Plan)
    (executor : AgentState → ℕ → String → Run W ExecutionOutcome) (honest : IsHonest executor) where
  after_visit-Walked :
      (plan : Plan) (step : PlanStep) (steps : List PlanStep) (s m t : AgentState)
      (flag stop : Bool) (u w' : W)
      → Visited s m plan step flag
      → ((u' : W)
          → run_steps planner executor plan steps m u' ≡ (ok (stop, t), w')
          → Walked m t plan steps stop)
      → unless_stopped (run_steps planner executor plan steps) (flag, m) u ≡ (ok (stop, t), w')
      → Walked s t plan (step ∷ steps) stop
  after_visit-Walked plan step steps s m t true stop u w' v ih h =
      subst₂ (λ x y. Walked s x plan (step ∷ steps) y) (cc) (cc)
        (stopped-Walked s m plan step steps v)
  after_visit-Walked plan step steps s m t false stop u w' v ih h =
      next-Walked s m t plan step steps stop v (ih u h)

  pub run_steps-Walked :
      (plan : Plan) (steps : List PlanStep) (s t : AgentState) (stop : Bool) (w w' : W)
      → IsValid s
      → run_steps planner executor plan steps s w ≡ (ok (stop, t), w')
      → Walked s t plan steps stop
  unfolding run_steps
  run_steps-Walked plan [] s t stop w w' v h =
      subst₂ (λ x y. Walked s x plan [] y) (cc) (cc) (start-Walked s plan v)
  run_steps-Walked plan (step ∷ steps) s t stop w w' v h =
      let ((flag, m), u, visited, rest) =
        bind-eq-ok (visit_step planner executor s plan step) _ w h in
      let seen = visit_step-Visited planner executor honest s m plan step flag w u v visited in
      after_visit-Walked plan step steps s m t flag stop u w' seen
        (λ u'. run_steps-Walked plan steps m t stop u' w' seen.valid) rest
