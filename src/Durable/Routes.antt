-- ===== src/Durable/Routes.antt =====
-- agent/durable.py: the routing functions and the nodes keep the places of the walk.
use codex_py.Base.{
  Bool-cases, refl, some, sym, ◌∙◌, Result, ap, err, inl, inr, nat_eq, string_eq, subst₂, true,
  ◌==◌, Option, ◌≡◌, >>=-eq-ok, Bool, arith, false, if◌then◌else◌, last, ok, subst,
}
use codex_py.Durable.{
  GraphStatus, interrupted, agent_state_of, finished, complete, replan_node, node, step,
  RecoveryStore, StepExecutor, GraphState, Node, after, plan, mark_running, execute, replan,
  last_execution, unless_done,
}
use codex_py.Durable.Places.{Done, Ended, is_blocked, IsAt, Moving, unless_done-IsAt}
use codex_py.Durable.Nodes.{
  returned-eq, execute_node-Moving, mark_running_node-Moving, plan_node-Moving, append_plan-Moving,
  held-eq,
}
use codex_py.Agent.{last_plan, has_failed}
use codex_py.Base.Effect.{Run, bind-eq-ok, lift}
use codex_py.State.{Plan, is_failed}
use codex_py.Base.Json.{Json}
use codex_py.State.Agent.{AgentState}

after_plan-IsAt : (g : GraphState) (n : Node) → Moving g → after plan g ≡ ok n → IsAt n g
unfolding after IsAt
after_plan-IsAt g n m h =
    let h' = rw m.planned.held at h in
    subst (λ x. IsAt x g) (ground (arith, h')) (unless_done-IsAt g mark_running m m)

or_replan-IsAt :
    (g : GraphState) (n : Node) (failed : Bool)
    → Moving g
    → IsAt n g
    → IsAt (if failed then replan else n) g
unfolding IsAt
or_replan-IsAt g n true m here = m
or_replan-IsAt g n false m here = here

after_mark_running-IsAt :
    (g : GraphState) (n : Node) → Moving g → after mark_running g ≡ ok n → IsAt n g
unfolding after IsAt
after_mark_running-IsAt g n m h =
    let h' = rw m.planned.held at h in
    subst (λ x. IsAt x g) (ground (arith, h'))
      (or_replan-IsAt g (unless_done m.planned.state execute)
        (has_failed (last m.planned.state.step_executions)) m (unless_done-IsAt g execute m m))

after_execute-IsAt : (g : GraphState) (n : Node) → Moving g → after execute g ≡ ok n → IsAt n g
unfolding after IsAt
after_execute-IsAt g n m h =
    let h' = rw m.planned.held at h in
    let (e, _, h₁) = >>=-eq-ok (last_execution m.planned.state) _ h' in
    subst (λ x. IsAt x g) (ground (arith, h₁))
      (or_replan-IsAt g (unless_done m.planned.state mark_running) (is_failed e.status) m
        (unless_done-IsAt g mark_running m m))

after_replan-free :
    (g : GraphState) → is_blocked g.status ≡ false → after replan g ≡ ok mark_running
unfolding after
after_replan-free g free = ground (arith, free)

pub last_plan-eq : (s : AgentState) (p : Plan) → last_plan s ≡ ok p → last s.plan_history ≡ some p
last_plan-eq s p h = ground arith

limited-IsAt :
    (g g' : GraphState) (n' : Node) (m : Moving g) (p : Plan)
    → last_plan m.planned.state ≡ ok p
    → (p.revision == 3) ≡ true
    → record g { status = some GraphStatus.blocked } ≡ g'
    → after replan g' ≡ ok n'
    → IsAt n' g'
unfolding IsAt after
limited-IsAt g g' n' m p newest third same went =
    subst (λ x. after replan x ≡ ok n' → IsAt n' x) same
      (λ stopped.
        subst (λ x. IsAt x (record g { status = some GraphStatus.blocked })) {x = finished}
          (ground (arith, stopped))
          (inr (
            refl,
            record {
              planned = record {
                state = m.planned.state;
                plan = p;
                held = m.planned.held;
                newest = last_plan-eq m.planned.state p newest;
              };
              third = ground (arith, third);
            },
          )))
      went

IsAt-finished : (n n' : Node) (g : GraphState) → Ended g → n ≡ n' → n ≡ finished → IsAt n' g
unfolding IsAt
IsAt-finished n n' g ended same is_finished = subst (λ x. IsAt x g) (sym is_finished ∙ same) ended

completed-Ended :
    (g g' : GraphState) → Done g → record g { status = some GraphStatus.completed } ≡ g' → Ended g'
completed-Ended g g' d same = subst Ended same (
    inl (
      refl,
      record {
        planned = record {
          state = d.planned.state;
          plan = d.planned.plan;
          held = d.planned.held;
          newest = d.planned.newest;
        };
        every = d.every;
      },
    ))

abbrev state_of : Result (Node × GraphState) → GraphState → GraphState
state_of (ok (n, g)) other = g
state_of (err e) other = other

abbrev node_of : Result (Node × GraphState) → Node → Node
node_of (ok (n, g)) other = n
node_of (err e) other = other

module _ {W : Type 0} (planner : AgentState → Option Json → Run W Plan) (executor : StepExecutor W)
    (store : Option (RecoveryStore W)) where
  -- The routing after a node.
  pub routed :
      (n n' : Node) (g g' : GraphState) (w w' : W)
      → step planner executor store n g w ≡ (ok (n', g'), w')
      → (v : W) × (node planner executor store n g w ≡ (ok g', v)) × (after n g' ≡ ok n')
  unfolding step
  routed n n' g g' w w' h =
      let (g'', v, ran, h₁) = bind-eq-ok (node planner executor store n g) _ w h in
      let (n'', v₁, went, h₂) = bind-eq-ok (lift (after n g'')) _ v h₁ in
      let same_state : g'' ≡ g' = ap (λ r. state_of r g'') (ap (λ x. x.0) h₂) in
      let same_node : n'' ≡ n' = ap (λ r. node_of r n'') (ap (λ x. x.0) h₂) in
      (
        v,
        subst (λ x. node planner executor store n g w ≡ (ok x, v)) same_state ran,
        subst₂ (λ x y. after n x ≡ ok y) same_state same_node (ap (λ x. x.0) went),
      )

  replanned-IsAt :
      (n' : Node) (g g' : GraphState) (w w' : W)
      → Moving g
      → replan_node planner executor store g w ≡ (ok g', w')
      → after replan g' ≡ ok n'
      → IsAt n' g'
  unfolding replan_node IsAt after
  replanned-IsAt n' g g' w w' m h went =
      let (s, v, held, h₁) = bind-eq-ok (lift (agent_state_of g)) _ w h in
      let (p, v₁, newest, h₂) = bind-eq-ok (lift (last_plan s)) _ v h₁ in
      elim (Bool-cases (p.revision == 3)) [
        | inl third ↦
            limited-IsAt g g' n' m p
              (ap last_plan (held-eq g m.planned s (ap (λ x. x.0) held)) ∙ ap (λ x. x.0) newest)
              third (returned-eq _ _ v₁ w' (rw third at h₂)) went
        | inr more ↦
            let m' =
              append_plan-Moving planner executor store g g' s v₁ w' m.free (rw more at h₂) in
            subst (λ x. IsAt x g') {x = mark_running}
              (ground (arith, went, after_replan-free g' m'.free)) m'
      ]

  -- The walk keeps its place.
  pub step-IsAt :
      (n n' : Node) (g g' : GraphState) (w w' : W)
      → IsAt n g
      → step planner executor store n g w ≡ (ok (n', g'), w')
      → IsAt n' g'
  unfolding IsAt node after
  step-IsAt plan n' g g' w w' here h =
      let (v, ran, went) = routed plan n' g g' w w' h in
      after_plan-IsAt g' n' (plan_node-Moving planner executor store g g' w v here ran) went
  step-IsAt mark_running n' g g' w w' here h =
      let (v, ran, went) = routed mark_running n' g g' w w' h in
      after_mark_running-IsAt g' n'
        (mark_running_node-Moving planner executor store g g' w v here ran) went
  step-IsAt execute n' g g' w w' here h =
      let (v, ran, went) = routed execute n' g g' w w' h in
      after_execute-IsAt g' n' (execute_node-Moving planner executor store g g' w v here ran) went
  step-IsAt replan n' g g' w w' here h =
      let (v, ran, went) = routed replan n' g g' w w' h in replanned-IsAt n' g g' w v here ran went
  step-IsAt complete n' g g' w w' here h =
      let (v, ran, went) = routed complete n' g g' w w' h in
      IsAt-finished finished n' g' (completed-Ended g g' here (returned-eq _ _ w v ran))
        (ground (arith, went)) refl
  step-IsAt finished n' g g' w w' here h =
      let (v, ran, went) = routed finished n' g g' w w' h in
      IsAt-finished finished n' g' (subst Ended (returned-eq _ _ w v ran) here)
        (ground (arith, went)) refl
  step-IsAt Node.blocked n' g g' w w' here h = absurd here
  step-IsAt interrupted n' g g' w w' here h = absurd here
