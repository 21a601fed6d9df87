-- ===== src/Durable/Nodes.antt =====
-- agent/durable.py: what the nodes of the graph leave in the state.
use codex_py.Recovery.{texts}
use codex_py.State.Context.{new_step_context, ExecutionOutcome, ContextUpdate}
use codex_py.Durable.{
  is_nil, step_progress, execute_node, execute_step, plan_node, next_step, GraphState,
  agent_state_of, last_execution, StepExecutor, RecoveryStore, write_running, mark_step,
  mark_running_node, write_outcome, append_plan, save_in, merge_context, resuming,
}
use codex_py.Base.{
  List, Option, Bool-cases, String, [], ap, arith, false, inl, inr, last, last-append, none, ok,
  refl, some, subst, sym, true, ℕ, ◌++◌, ◌+◌, ◌∙◌, ◌∷◌, ◌≡◌,
}
use codex_py.Agent.{has_failed}
use codex_py.Durable.Places.{Moving, HasPlan, is_blocked}
use codex_py.State.{Plan, StepExecution, new_step_execution}
use codex_py.State.Agent.{
  AgentState, with_plan, with_step_execution, execution_for, other_executions,
}
use codex_py.State.Agent.Valid.{new_agent_state-IsValid}
use codex_py.Base.Json.{int, pos, str, null, Json}
use codex_py.Base.Effect.{Run, bind-eq-ok, lift, pure}

pub with_step_execution-plan_history :
    (s t : AgentState) (e : StepExecution)
    → with_step_execution s e ≡ ok t
    → t.plan_history ≡ s.plan_history
unfolding with_step_execution
with_step_execution-plan_history s t e h =
    ap (λ x. x.plan_history)
      (new_agent_state-IsValid s.goal s.plan_history
        (other_executions e s.step_executions ++ (e ∷ [])) s.memory_summary h).1

pub with_plan-last :
    (s t : AgentState) (p : Plan) → with_plan s p ≡ ok t → last t.plan_history ≡ some p
unfolding with_plan
with_plan-last s t p h =
    ap (λ x. last x.plan_history)
      (new_agent_state-IsValid s.goal (s.plan_history ++ (p ∷ [])) s.step_executions
        s.memory_summary h).1
    ∙ last-append s.plan_history p

-- The plans stay when the executions of the state change.
moved :
    (g g' : GraphState) (m : Moving g) (t : AgentState)
    → g'.agent_state ≡ some t
    → t.plan_history ≡ m.planned.state.plan_history
    → is_blocked g'.status ≡ false
    → Moving g'
moved g g' m t held same free = record {
  planned = record {
    state = t;
    plan = m.planned.plan;
    held = held;
    newest = ap last same ∙ m.planned.newest;
  };
  free = free;
}

pub returned-eq :
    {A W : Type 0} (a b : A) (w w' : W) → pure {W = W} {A = A} a w ≡ (ok b, w') → a ≡ b
returned-eq a b w w' h = cc

pub held-eq :
    (g : GraphState) (p : HasPlan g) (s : AgentState) → agent_state_of g ≡ ok s → p.state ≡ s
held-eq g p s h = let h' = rw p.held at h in ground (arith, h')

pub agent_state_of-eq :
    (g : GraphState) (s : AgentState) → agent_state_of g ≡ ok s → g.agent_state ≡ some s
agent_state_of-eq g s h = ground (arith, h)

pub last-some {ℓ} : {A : Type ℓ} (xs : List A) → is_nil xs ≡ false → (x : A) × (last xs ≡ some x)
last-some [] h = cc
last-some (x ∷ []) h = (x, refl)
last-some (x ∷ y ∷ ys) h = last-some (y ∷ ys) refl

merge_context-status :
    (g : GraphState) (u : Option ContextUpdate) (r : ℕ) (i : String)
    → (merge_context g u r i).status ≡ g.status
unfolding merge_context
merge_context-status g none r i = refl
merge_context-status g (some u) r i = refl

module _ {W : Type 0} (planner : AgentState → Option Json → Run W Plan) (executor : StepExecutor W)
    (store : Option (RecoveryStore W)) where
  pub append_plan-Moving :
      (g g' : GraphState) (s : AgentState) (w w' : W)
      → is_blocked g.status ≡ false
      → append_plan planner executor store g s w ≡ (ok g', w')
      → Moving g'
  append_plan-Moving g g' s w w' free h =
      let (p, u, _, h₁) = bind-eq-ok (planner s g.conversation_input) _ w h in
      let (t, v, added, h₂) = bind-eq-ok (lift (with_plan s p)) _ u h₁ in
      subst Moving (returned-eq _ _ v w' h₂) (record {
        planned = record {
          state = t;
          plan = p;
          held = refl;
          newest = with_plan-last s t p (ap (λ x. x.0) added);
        };
        free = free;
      })

  write_running-Moving :
      (g g' : GraphState) (s : AgentState) (e : StepExecution) (w w' : W) (m : Moving g)
      → m.planned.state ≡ s
      → write_running planner executor store g s e w ≡ (ok g', w')
      → Moving g'
  unfolding write_running
  write_running-Moving g g' s e w w' m same h =
      let (t, v, wrote, h₁) = bind-eq-ok (lift (with_step_execution s e)) _ w h in
      let (latest, v₁, _, h₂) = bind-eq-ok (lift (last_execution t)) _ v h₁ in
      let (_, v₂, _, h₃) =
        bind-eq-ok (save_in store g.run_id latest none false (g.persistence_version + 1)) _ v₁ h₂ in
      subst Moving (returned-eq _ _ v₂ w' h₃) (
        moved g _ m t refl
          (with_step_execution-plan_history s t e (ap (λ x. x.0) wrote)
            ∙ ap (λ x. x.plan_history) (sym same))
          m.free)

  mark_step-Moving :
      (g g' : GraphState) (s : AgentState) (next : Option (ℕ × String)) (w w' : W) (m : Moving g)
      → m.planned.state ≡ s
      → mark_step planner executor store g s next w ≡ (ok g', w')
      → Moving g'
  unfolding mark_step
  mark_step-Moving g g' s none w w' m same h =
      let (e, v, _, h₁) =
        bind-eq-ok (lift (new_step_execution null null (str "running") null null null)) _ w h in
      write_running-Moving g g' s e v w' m same h₁
  mark_step-Moving g g' s (some (r, i)) w w' m same h =
      elim (Bool-cases (has_failed (execution_for s r i))) [
        | inl lost ↦ let h' = rw lost at h in subst Moving (returned-eq _ _ w w' (h')) m
        | inr fresh ↦
            let h' = rw fresh at h in
            let (e, v, _, h₁) =
              bind-eq-ok
                (lift (new_step_execution (int (pos r)) (str i) (str "running") null null null)) _ w
                h' in
            write_running-Moving g g' s e v w' m same h₁
      ]

  pub mark_running_node-Moving :
      (g g' : GraphState) (w w' : W)
      → Moving g
      → mark_running_node planner executor store g w ≡ (ok g', w')
      → Moving g'
  unfolding mark_running_node
  mark_running_node-Moving g g' w w' m h =
      let (s, v, held, h₁) = bind-eq-ok (lift (agent_state_of g)) _ w h in
      mark_step-Moving g g' s (next_step s) v w' m (held-eq g m.planned s (ap (λ x. x.0) held)) h₁

  write_outcome-Moving :
      (g g' : GraphState) (s : AgentState) (r : ℕ) (i : String) (o : ExecutionOutcome) (w w' : W)
      (m : Moving g)
      → m.planned.state ≡ s
      → write_outcome planner executor store g s r i o w ≡ (ok g', w')
      → Moving g'
  unfolding write_outcome
  write_outcome-Moving g g' s r i o w w' m same h =
      let (t, v, wrote, h₁) = bind-eq-ok (lift (with_step_execution s o.execution)) _ w h in
      let (_, v₁, _, h₂) =
        bind-eq-ok
          (save_in store g.run_id o.execution o.context_update
            (elim g.status [ some resuming ↦ true | _ ↦ false ]) (g.persistence_version + 1))
          _ v h₁ in
      subst Moving (returned-eq _ _ v₁ w' h₂) (
        moved g _ m t refl
          (with_step_execution-plan_history s t o.execution (ap (λ x. x.0) wrote)
            ∙ ap (λ x. x.plan_history) (sym same))
          (ap is_blocked (merge_context-status g o.context_update r i) ∙ m.free))

  execute_step-Moving :
      (g g' : GraphState) (s : AgentState) (next : Option (ℕ × String)) (w w' : W) (m : Moving g)
      → m.planned.state ≡ s
      → execute_step planner executor store g s next w ≡ (ok g', w')
      → Moving g'
  unfolding execute_step
  execute_step-Moving g g' s none w w' m same h =
      subst Moving (returned-eq _ _ w w' h) (moved g _ m m.planned.state m.planned.held refl refl)
  execute_step-Moving g g' s (some (r, i)) w w' m same h =
      let (_, v, _, h₁) = bind-eq-ok (lift (step_progress s r i)) _ w h in
      let (c, v₁, _, h₂) =
        bind-eq-ok
          (lift
            (new_step_context (texts g.files_read) (texts g.files_modified) (texts g.observations)))
          _ v h₁ in
      let (o, v₂, _, h₃) =
        bind-eq-ok (executor s r i c g.recovery_active g.recovery_attempt) _ v₁ h₂ in
      write_outcome-Moving g g' s r i o v₂ w' m same h₃

  pub execute_node-Moving :
      (g g' : GraphState) (w w' : W)
      → Moving g
      → execute_node planner executor store g w ≡ (ok g', w')
      → Moving g'
  unfolding execute_node
  execute_node-Moving g g' w w' m h =
      let (s, v, held, h₁) = bind-eq-ok (lift (agent_state_of g)) _ w h in
      execute_step-Moving g g' s (next_step s) v w' m (held-eq g m.planned s (ap (λ x. x.0) held))
        h₁

  pub plan_node-Moving :
      (g g' : GraphState) (w w' : W)
      → is_blocked g.status ≡ false
      → plan_node planner executor store g w ≡ (ok g', w')
      → Moving g'
  unfolding plan_node
  plan_node-Moving g g' w w' free h =
      let (s, v, held, h₁) = bind-eq-ok (lift (agent_state_of g)) _ w h in
      elim (Bool-cases (is_nil s.plan_history)) [
        | inl fresh ↦ append_plan-Moving g g' s v w' free (rw fresh at h₁)
        | inr planned ↦
            let h₂ = rw planned at h₁ in
            let (p, newest) = last-some s.plan_history planned in
            subst Moving (returned-eq _ _ v w' (h₂)) (record {
              planned = record {
                state = s;
                plan = p;
                held = agent_state_of-eq g s (ap (λ x. x.0) held);
                newest = newest;
              };
              free = free;
            })
      ]
