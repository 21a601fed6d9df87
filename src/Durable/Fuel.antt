-- ===== src/Durable/Fuel.antt =====
-- agent/durable.py: the graph ends.
use codex_py.Base.{
  Result, err, last, nat_eq, none, refl, some, string_eq, subst₂, ◌==◌, ◌≢◌, Option, Bool,
  Bool-cases, List, [], ap, arith, false, inl, inr, is_some, length, ok, subst, suc, true, zero, ℕ,
  ◌*◌, ◌+◌, ◌-◌, ◌||◌, ◌∷◌, ◌≡◌, ◌≤◌,
}
use codex_py.Durable.Places.{is_blocked}
use codex_py.Durable.{
  GraphState, GraphStatus, Node, StepExecutor, RecoveryStore, after, plan, mark_running, execute,
  replan, complete, finished, interrupted, agent_state_of, append_plan, plan_node, replan_node,
  node, step,
}
use codex_py.Durable.Open.{open_count-length}
use codex_py.Durable.Nodes.{returned-eq, held-eq, agent_state_of-eq, last-some}
use codex_py.Durable.Ranks.{
  IsPrompt, Stands, MayStart, Fits, steps_left, after_plan-Fits, after_mark_running-Fits,
}
use codex_py.Durable.Progress.{append_plan-Stands, mark_running_node-Stands, execute_node-Fits}
use codex_py.Durable.Routes.{routed, last_plan-eq}
use codex_py.Durable.Runs.{walk, Stop, continue_walk}
use codex_py.Agent.{last_plan}
use codex_py.Agent.Rounds.{last_revision}
use codex_py.State.{Plan, is_nil}
use codex_py.State.Agent.{AgentState}
use codex_py.Base.Json.{Json}
use codex_py.Base.Effect.{Run, bind-eq-ok, lift}

-- The walk is at END, or a node has raised.
abbrev pub is_over : Stop → Bool
is_over s = is_some s.raised || elim s.node [ finished ↦ true | _ ↦ false ]

steps_left_few : (size l : ℕ) → l ≤ 2 → steps_left size l ≤ 4 * size + 6
steps_left_few size zero h = omega arith
steps_left_few size (suc zero) h = omega arith
steps_left_few size (suc (suc zero)) h = omega arith
steps_left_few size (suc (suc (suc l))) h = absurd (omega (arith, h))

some_plan-length : (ps : List Plan) → is_nil ps ≡ false → 1 ≤ length ps
some_plan-length [] h = cc
some_plan-length (p ∷ ps) h = omega arith

after_replan-Fits :
    (size fuel l o : ℕ) (g : GraphState) (n : Node)
    → Stands g l o
    → steps_left size l + 2 * o + 4 ≤ fuel
    → after replan g ≡ ok n
    → Fits size fuel n g
unfolding after Fits
after_replan-Fits size fuel l o g n here room went = elim (Bool-cases (is_blocked g.status)) [
  | inl stopped ↦
      subst (λ x. Fits size fuel x g) {x = finished} (ground (arith, went, stopped)) (omega arith)
  | inr free ↦
      subst (λ x. Fits size fuel x g) {x = mark_running} (ground (arith, went, free))
        (l, o, here, room)
]

module _ {W : Type 0} (planner : AgentState → Option Json → Run W Plan) (executor : StepExecutor W)
    (store : Option (RecoveryStore W)) (size : ℕ) (prompt : IsPrompt planner executor size) where
  plan_node-Fits :
      (fuel : ℕ) (g g' : GraphState) (n : Node) (w w' : W)
      → MayStart size g
      → 6 * size + 11 ≤ suc fuel
      → plan_node planner executor store g w ≡ (ok g', w')
      → after plan g' ≡ ok n
      → Fits size fuel n g'
  unfolding plan_node
  plan_node-Fits fuel g g' n w w' start room h went =
      let (s, v, held, h₁) = bind-eq-ok (lift (agent_state_of g)) _ w h in
      let is_held = agent_state_of-eq g s (ap (λ x. x.0) held) in
      elim (Bool-cases (is_nil s.plan_history)) [
        | inl fresh ↦
            let here =
              append_plan-Stands planner executor store size prompt g g' s 2 v w'
                (ground (arith, fresh)) (rw fresh at h₁) in
            after_plan-Fits size fuel 2 size g' n here (omega (arith, room)) went
        | inr planned ↦
            let h₂ = rw planned at h₁ in
            let (p, newest) = last-some s.plan_history planned in
            let some_plan = some_plan-length s.plan_history planned in
            let short = start.short s is_held in
            let left = 3 - length s.plan_history in
            let here : Stands g left size = record {
              planned = record { state = s; plan = p; held = is_held; newest = newest };
              revision = last_revision s p (start.valid s is_held) newest;
              budget = omega (arith, short);
              few = omega (arith, open_count-length s p p.steps, start.small s p is_held newest);
            } in
            subst (λ x. after plan x ≡ ok n → Fits size fuel n x) (returned-eq _ _ v w' (h₂))
              (after_plan-Fits size fuel left size g n here
                (omega (arith, room, steps_left_few size left (omega (arith, some_plan)))))
              went
      ]

  again-Fits :
      (fuel : ℕ) (g g' : GraphState) (n : Node) (s : AgentState) (l : ℕ) (w w' : W)
      → l + length s.plan_history ≡ 3
      → ¬ (l ≡ 0)
      → steps_left size l + 2 ≤ suc fuel
      → append_plan planner executor store g s w ≡ (ok g', w')
      → after replan g' ≡ ok n
      → Fits size fuel n g'
  again-Fits fuel g g' n s zero w w' budget more room h went = absurd (more refl)
  again-Fits fuel g g' n s (suc l) w w' budget more room h went =
      let here = append_plan-Stands planner executor store size prompt g g' s l w w' budget h in
      after_replan-Fits size fuel l size g' n here (omega (arith, room)) went

  replan_node-Fits :
      (fuel : ℕ) (g g' : GraphState) (n : Node) (l o : ℕ) (w w' : W)
      → Stands g l o
      → steps_left size l + 2 ≤ suc fuel
      → replan_node planner executor store g w ≡ (ok g', w')
      → after replan g' ≡ ok n
      → Fits size fuel n g'
  unfolding replan_node after Fits
  replan_node-Fits fuel g g' n l o w w' here room h went =
      let (s, v, held, h₁) = bind-eq-ok (lift (agent_state_of g)) _ w h in
      let (p, v₁, newest, h₂) = bind-eq-ok (lift (last_plan s)) _ v h₁ in
      let same = held-eq g here.planned s (ap (λ x. x.0) held) in
      let newest' = last_plan-eq s p (ap (λ x. x.0) newest) in
      let same_plan : here.planned.plan ≡ p =
        ground (arith, here.planned.newest, newest', ap (λ x. last x.plan_history) same) in
      let revision =
        subst₂ (λ x y. x.revision ≡ length y.plan_history) same_plan same here.revision in
      let budget = subst (λ x. l + length x.plan_history ≡ 3) same here.budget in
      elim (Bool-cases (p.revision == 3)) [
        | inl third ↦
            let stopped : GraphState = record g { status = some GraphStatus.blocked } in
            subst (λ x. after replan x ≡ ok n → Fits size fuel n x) {x = stopped}
              (returned-eq _ _ v₁ w' (rw third at h₂))
              (λ ended.
                subst (λ x. Fits size fuel x stopped) {x = finished} (ground (arith, ended))
                  (omega arith))
              went
        | inr fresh ↦
            let not_third : p.revision ≢ 3 = ground (arith, fresh) in
            again-Fits fuel g g' n s l v₁ w' budget (omega (arith, budget, revision, not_third))
              room (rw fresh at h₂) went
      ]

  step-Fits :
      (fuel : ℕ) (n n' : Node) (g g' : GraphState) (w w' : W)
      → Fits size (suc fuel) n g
      → step planner executor store n g w ≡ (ok (n', g'), w')
      → Fits size fuel n' g'
  unfolding Fits node after
  step-Fits fuel plan n' g g' w w' (start, room) h =
      let (v, ran, went) = routed planner executor store plan n' g g' w w' h in
      plan_node-Fits fuel g g' n' w v start room ran went
  step-Fits fuel mark_running n' g g' w w' (l, o, here, room) h =
      let (v, ran, went) = routed planner executor store mark_running n' g g' w w' h in
      after_mark_running-Fits size fuel l o g' n'
        (mark_running_node-Stands planner executor store size prompt g g' l o w v here ran)
        (omega (arith, room)) went
  step-Fits fuel execute n' g g' w w' (l, o, here, room) h =
      let (v, ran, went) = routed planner executor store execute n' g g' w w' h in
      execute_node-Fits planner executor store size prompt fuel g g' n' l o w v here room ran went
  step-Fits fuel replan n' g g' w w' (l, o, here, room) h =
      let (v, ran, went) = routed planner executor store replan n' g g' w w' h in
      replan_node-Fits fuel g g' n' l o w v here room ran went
  step-Fits fuel complete n' g g' w w' room h =
      let (v, ran, went) = routed planner executor store complete n' g g' w w' h in
      subst (λ x. Fits size fuel x g') {x = finished} (ground (arith, went)) (omega arith)
  step-Fits fuel finished n' g g' w w' room h =
      let (v, ran, went) = routed planner executor store finished n' g g' w w' h in
      subst (λ x. Fits size fuel x g') {x = finished} (ground (arith, went)) (omega arith)
  step-Fits fuel Node.blocked n' g g' w w' room h =
      let (v, ran, went) = routed planner executor store Node.blocked n' g g' w w' h in
      subst (λ x. Fits size fuel x g') {x = finished} (ground (arith, went)) (omega arith)
  step-Fits fuel interrupted n' g g' w w' room h =
      let (v, ran, went) = routed planner executor store interrupted n' g g' w w' h in
      subst (λ x. Fits size fuel x g') {x = finished} (ground (arith, went)) (omega arith)

  no_fuel-is_over :
      (n : Node) (g : GraphState)
      → Fits size 0 n g
      → is_over (record { node = n; checkpoint = g; raised = none }) ≡ true
  unfolding Fits
  no_fuel-is_over plan g (start, room) = absurd (omega (arith, room))
  no_fuel-is_over mark_running g (l, o, here, room) = absurd (omega (arith, room))
  no_fuel-is_over execute g (l, o, here, room) = absurd (omega (arith, room))
  no_fuel-is_over replan g (l, o, here, room) = absurd (omega (arith, room))
  no_fuel-is_over complete g room = absurd (omega (arith, room))
  no_fuel-is_over finished g room = refl
  no_fuel-is_over Node.blocked g room = absurd (omega (arith, room))
  no_fuel-is_over interrupted g room = absurd (omega (arith, room))

  continue_walk-is_over :
      (n : Node) (g : GraphState) (rest : Node → GraphState → W → Stop × W)
      (r : Result (Node × GraphState) × W)
      → ((n' : Node) (g' : GraphState) (w' : W)
          → r ≡ (ok (n', g'), w')
          → is_over (rest n' g' w').0 ≡ true)
      → is_over (continue_walk planner executor store n g rest r).0 ≡ true
  continue_walk-is_over n g rest (err e, w) next = refl
  continue_walk-is_over n g rest (ok (n', g'), w) next = next n' g' w refl

  walk_of_Fits :
      (fuel : ℕ) (n : Node) (g : GraphState) (w : W)
      → Fits size fuel n g
      → is_over (walk planner executor store fuel n g w).0 ≡ true
  unfolding walk
  walk_of_Fits zero n g w fits = no_fuel-is_over n g fits
  walk_of_Fits (suc fuel) n g w fits =
      continue_walk-is_over n g (walk planner executor store fuel)
        (step planner executor store n g w)
        (λ n' g' w' stepped.
          walk_of_Fits fuel n' g' w' (step-Fits fuel n n' g g' w w' fits stepped))

  -- When plans have at most `size` steps, those of the start included, the Executor ends the step
  -- that it is given, and the start has a valid state of at most three plans, if any, the graph ends
  -- or raises within 6 * size + 11 super-steps, whatever the Planner, the Executor and the store do.
  pub walk-is_over :
      (fuel : ℕ) (g : GraphState) (w : W)
      → MayStart size g
      → 6 * size + 11 ≤ fuel
      → is_over (walk planner executor store fuel plan g w).0 ≡ true
  unfolding Fits
  walk-is_over fuel g w start room = walk_of_Fits fuel plan g w (start, room)
