-- ===== src/Durable/Progress.antt =====
-- agent/durable.py: what the nodes do to the number of open steps and of revisions to go.
use codex_py.Durable.Written.{
  with_plan-plan_history, written-Stands, written-open_count, next_step-first_open, still_open,
  null-refused, running-key, recorded-Fits,
}
use codex_py.Base.{
  true, ◌*◌, ◌||◌, ◌≤◌, Option, Bool-cases, String, [], ap, arith, false, inl, inr, length,
  length-append, none, ok, refl, some, subst, subst₂, suc, sym, ℕ, ◌+◌, ◌∷◌, ◌≡◌,
}
use codex_py.Durable.{
  GraphState, GraphStatus, Node, StepExecutor, RecoveryStore, after, execute, next_step,
  last_execution, agent_state_of, append_plan, write_running, mark_step, mark_running_node,
  write_outcome, execute_step, execute_node, save_in, step_progress, resuming,
}
use codex_py.State.{Plan, is_failed, is_completed, StepExecution, new_step_execution}
use codex_py.Durable.Open.{open_count-length, first_open-open}
use codex_py.Durable.Nodes.{returned-eq, held-eq, with_plan-last}
use codex_py.Durable.Ranks.{IsPrompt, Stands, Fits, steps_left, after_execute-Fits}
use codex_py.Agent.{has_failed, has_completed}
use codex_py.Agent.Rounds.{last_revision}
use codex_py.Recovery.{texts}
use codex_py.State.Context.{ExecutionOutcome, new_step_context}
use codex_py.State.Agent.{AgentState, with_plan, with_step_execution, execution_for}
use codex_py.State.Agent.Update.{with_plan-IsValid}
use codex_py.Base.Json.{Json, int, pos, str, null}
use codex_py.Base.Effect.{Run, bind-eq-ok, lift}

module _ {W : Type 0} (planner : AgentState → Option Json → Run W Plan) (executor : StepExecutor W)
    (store : Option (RecoveryStore W)) (size : ℕ) (prompt : IsPrompt planner executor size) where
  pub append_plan-Stands :
      (g g' : GraphState) (s : AgentState) (l : ℕ) (w w' : W)
      → suc l + length s.plan_history ≡ 3
      → append_plan planner executor store g s w ≡ (ok g', w')
      → Stands g' l size
  append_plan-Stands g g' s l w w' room h =
      let (p, u, asked, h₁) = bind-eq-ok (planner s g.conversation_input) _ w h in
      let (t, v, added, h₂) = bind-eq-ok (lift (with_plan s p)) _ u h₁ in
      let added' = ap (λ x. x.0) added in
      let newest = with_plan-last s t p added' in
      let longer = ap length (with_plan-plan_history s t p added') in
      let one = length-append s.plan_history (p ∷ []) in
      subst (λ x. Stands x l size) (returned-eq _ _ v w' h₂)
        (record {
          planned = record { state = t; plan = p; held = refl; newest = newest };
          revision = last_revision t p (with_plan-IsValid s p added') newest;
          budget = omega (arith, room, longer, one);
          few =
              omega
                (arith, open_count-length t p p.steps, prompt.plans s g.conversation_input w asked);
        })

  write_running-Stands :
      (g g' : GraphState) (s : AgentState) (e : StepExecution) (l o : ℕ) (w w' : W)
      (here : Stands g l o)
      → here.planned.state ≡ s
      → has_completed (execution_for s e.revision e.step_id) ≡ false
      → write_running planner executor store g s e w ≡ (ok g', w')
      → Stands g' l o
  unfolding write_running
  write_running-Stands g g' s e l o w w' here same waiting h =
      let (t, v, wrote, h₁) = bind-eq-ok (lift (with_step_execution s e)) _ w h in
      let (latest, v₁, _, h₂) = bind-eq-ok (lift (last_execution t)) _ v h₁ in
      let (_, v₂, _, h₃) =
        bind-eq-ok (save_in store g.run_id latest none false (g.persistence_version + 1)) _ v₁ h₂ in
      subst (λ x. Stands x l o) (returned-eq _ _ v₂ w' h₃)
        (let wrote' =
            subst (λ x. with_step_execution x e ≡ ok t) (sym same) (ap (λ x. x.0) wrote) in
          let waiting' =
            subst (λ x. has_completed (execution_for x e.revision e.step_id) ≡ false) (sym same)
              waiting in
          written-Stands g _ l o o here t e wrote'
            (written-open_count g l o here t e wrote' waiting') refl)

  mark_step-Stands :
      (g g' : GraphState) (s : AgentState) (next : Option (ℕ × String)) (l o : ℕ) (w w' : W)
      (here : Stands g l o)
      → here.planned.state ≡ s
      → next_step here.planned.state ≡ next
      → mark_step planner executor store g s next w ≡ (ok g', w')
      → Stands g' l o
  unfolding mark_step
  mark_step-Stands g g' s none l o w w' here same first h =
      let (e, _, made, _) =
        bind-eq-ok (lift (new_step_execution null null (str "running") null null null)) _ w h in
      absurd (null-refused e (ap (λ x. x.0) made))
  mark_step-Stands g g' s (some (r, i)) l o w w' here same first h =
      elim (Bool-cases (has_failed (execution_for s r i))) [
        | inl lost ↦
            let h' = rw lost at h in subst (λ x. Stands x l o) (returned-eq _ _ w w' (h')) here
        | inr fresh ↦
            let h' = rw fresh at h in
            let made = new_step_execution (int (pos r)) (str i) (str "running") null null null in
            let (e, v, is_made, h₁) = bind-eq-ok (lift made) _ w h' in
            let (same_revision, same_step) = running-key r i e (ap (λ x. x.0) is_made) in
            let waiting =
              first_open-open here.planned.state here.planned.plan here.planned.plan.steps r i (
                next_step-first_open here.planned.state here.planned.plan (r, i) here.planned.newest
                  first) in
            write_running-Stands g g' s e l o v w' here same
              (still_open here.planned.state s r i e same same_revision same_step waiting) h₁
      ]

  pub mark_running_node-Stands :
      (g g' : GraphState) (l o : ℕ) (w w' : W)
      → Stands g l o
      → mark_running_node planner executor store g w ≡ (ok g', w')
      → Stands g' l o
  unfolding mark_running_node
  mark_running_node-Stands g g' l o w w' here h =
      let (s, v, held, h₁) = bind-eq-ok (lift (agent_state_of g)) _ w h in
      let same = held-eq g here.planned s (ap (λ x. x.0) held) in
      mark_step-Stands g g' s (next_step s) l o v w' here same (ap next_step same) h₁

  -- After the outcome of a step is written.
  write_outcome-Fits :
      (fuel : ℕ) (g g' : GraphState) (n : Node) (s : AgentState) (r : ℕ) (i : String)
      (outcome : ExecutionOutcome) (l o : ℕ) (w w' : W) (here : Stands g l o)
      → here.planned.state ≡ s
      → next_step here.planned.state ≡ some (r, i)
      → outcome.execution.revision ≡ r
      → outcome.execution.step_id ≡ i
      → (is_completed outcome.execution.status || is_failed outcome.execution.status) ≡ true
      → steps_left size l + 2 * o + 3 ≤ suc fuel
      → write_outcome planner executor store g s r i outcome w ≡ (ok g', w')
      → after execute g' ≡ ok n
      → Fits size fuel n g'
  unfolding write_outcome
  write_outcome-Fits fuel g g' n s r i outcome l o w w' here same first same_revision same_step ends
        room h went =
      let e = outcome.execution in
      let (t, v, wrote, h₁) = bind-eq-ok (lift (with_step_execution s e)) _ w h in
      let (_, v₁, _, h₂) =
        bind-eq-ok
          (save_in store g.run_id e outcome.context_update
            (elim g.status [ some resuming ↦ true | _ ↦ false ]) (g.persistence_version + 1))
          _ v h₁ in
      let wrote' = subst (λ x. with_step_execution x e ≡ ok t) (sym same) (ap (λ x. x.0) wrote) in
      subst (λ x. after execute x ≡ ok n → Fits size fuel n x) (returned-eq _ _ v₁ w' h₂)
        (recorded-Fits size fuel g _ n t e l o here wrote'
          (subst₂ (λ x y. next_step here.planned.state ≡ some (x, y)) (sym same_revision)
            (sym same_step) first)
          ends room refl)
        went

  execute_step-Fits :
      (fuel : ℕ) (g g' : GraphState) (n : Node) (s : AgentState) (next : Option (ℕ × String))
      (l o : ℕ) (w w' : W) (here : Stands g l o)
      → here.planned.state ≡ s
      → next_step here.planned.state ≡ next
      → steps_left size l + 2 * o + 3 ≤ suc fuel
      → execute_step planner executor store g s next w ≡ (ok g', w')
      → after execute g' ≡ ok n
      → Fits size fuel n g'
  unfolding execute_step
  execute_step-Fits fuel g g' n s none l o w w' here same first room h went =
      let unchanged : GraphState = record g { status = some GraphStatus.completed } in
      subst (λ x. after execute x ≡ ok n → Fits size fuel n x) {x = unchanged}
        (returned-eq _ _ w w' h)
        (after_execute-Fits size fuel l o unchanged n
          (record {
            planned = record {
              state = here.planned.state;
              plan = here.planned.plan;
              held = here.planned.held;
              newest = here.planned.newest;
            };
            revision = here.revision;
            budget = here.budget;
            few = here.few;
          })
          (omega (arith, room))
          (λ t e held newest going.
            let same_state : here.planned.state ≡ t = ground (arith, here.planned.held, held) in
            inl (subst (λ x. next_step x ≡ none) same_state first)))
        went
  execute_step-Fits fuel g g' n s (some (r, i)) l o w w' here same first room h went =
      let (_, v, _, h₁) = bind-eq-ok (lift (step_progress s r i)) _ w h in
      let context =
        new_step_context (texts g.files_read) (texts g.files_modified) (texts g.observations) in
      let (c, v₁, _, h₂) = bind-eq-ok (lift context) _ v h₁ in
      let (outcome, v₂, asked, h₃) =
        bind-eq-ok (executor s r i c g.recovery_active g.recovery_attempt) _ v₁ h₂ in
      let (same_revision, same_step, ends) =
        prompt.answers s r i c g.recovery_active g.recovery_attempt v₁ asked in
      write_outcome-Fits fuel g g' n s r i outcome l o v₂ w' here same first same_revision same_step
        ends room h₃ went

  pub execute_node-Fits :
      (fuel : ℕ) (g g' : GraphState) (n : Node) (l o : ℕ) (w w' : W)
      → Stands g l o
      → steps_left size l + 2 * o + 3 ≤ suc fuel
      → execute_node planner executor store g w ≡ (ok g', w')
      → after execute g' ≡ ok n
      → Fits size fuel n g'
  unfolding execute_node
  execute_node-Fits fuel g g' n l o w w' here room h went =
      let (s, v, held, h₁) = bind-eq-ok (lift (agent_state_of g)) _ w h in
      let same = held-eq g here.planned s (ap (λ x. x.0) held) in
      execute_step-Fits fuel g g' n s (next_step s) l o v w' here same (ap next_step same) room h₁
        went
