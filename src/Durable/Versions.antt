-- ===== src/Durable/Versions.antt =====
-- agent/durable.py: the version of the checkpoint and the version of the newest recovery record.
use codex_py.Base.{
  Bool-cases, is_ok, arith, if◌then◌else◌, inl, inr, nat_eq, string_eq, subst, suc, sym, true, zero,
  ◌==◌, err, ok, ◌≡◌, Option, Bool, Result, String, false, none, refl, some, ℕ, ◌+◌, ◌∙◌,
}
use codex_py.Durable.Saves.{
  After-otherwise, After-lift, with_step_execution-last, last_execution-eq, merge_context-run_id,
}
use codex_py.State.Agent.{AgentState, with_plan, with_step_execution, execution_for}
use codex_py.Durable.{
  plan, mark_running, execute, replan, complete, interrupted, finished, GraphStatus, GraphState,
  Node, StepExecutor, RecoveryStore, step, node, after, plan_node, write_running, mark_step,
  mark_running_node, write_outcome, execute_step, execute_node, replan_node, append_plan, save_in,
  step_progress, merge_context, resuming, agent_state_of, last_execution, next_step,
}
use codex_py.Base.Effect.{◌>>=◌, Run, lift, pure, After, After-bind, After-world}
use codex_py.State.Context.{StepContext, ExecutionOutcome, ContextUpdate, new_step_context}
use codex_py.Durable.Runs.{walk, Stop, continue_walk}
use codex_py.Recovery.{texts}
use codex_py.Agent.{has_failed, last_plan}
use codex_py.State.{Plan, is_nil, StepExecution, new_step_execution}
use codex_py.Base.Json.{int, pos, str, null, Json}

-- The version of the newest record of a run, zero when it has none, and what the calls of the graph
-- do to it.
pub record IsVersioned {W : Type 0} (planner : AgentState → Option Json → Run W Plan)
    (executor : StepExecutor W) (store : RecoveryStore W) : Type 0 where
  pub newest : String → W → ℕ
  pub saved :
      (run_id : String) (e : StepExecution) (update : Option ContextUpdate) (recovery : Bool)
      (version : ℕ) (w : W)
      → version ≡ newest run_id w + 1
      → After
          (λ a u. newest run_id u ≡ version)
          (λ u. newest run_id u ≡ newest run_id w)
          (store.save run_id e update recovery version w)
  pub planned :
      (run_id : String) (s : AgentState) (input : Option Json) (w : W)
      → newest run_id (planner s input w).1 ≡ newest run_id w
  pub executed :
      (run_id : String) (s : AgentState) (r : ℕ) (i : String) (c : StepContext) (active : Bool)
      (attempt : Option ℕ) (w : W)
      → newest run_id (executor s r i c active attempt w).1 ≡ newest run_id w

module _ {W : Type 0} (planner : AgentState → Option Json → Run W Plan) (executor : StepExecutor W)
    (store : RecoveryStore W) (versions : IsVersioned planner executor store) where
  -- The checkpoint has the version of the newest record.
  abbrev pub Aligned : GraphState → W → Type 0
  Aligned g w = versions.newest g.run_id w ≡ g.persistence_version

  -- What a node leaves when it is followed by its routing function: one that raises, or whose
  -- routing raises, leaves the version of the record as it was.
  abbrev Left : Node → GraphState → GraphState → W → Type 0
  Left n g g' u = Aligned g' u × (is_ok (after n g') ≡ false → Aligned g u)

  abbrev Keeps : Node → GraphState → Result GraphState × W → Type 0
  Keeps n g = After (Left n g) (Aligned g)

  append_plan-Keeps :
      (n : Node) (g : GraphState) (s : AgentState) (w : W)
      → Aligned g w
      → Keeps n g (append_plan planner executor (some store) g s w)
  append_plan-Keeps n g s w h =
      After-bind (λ _. Aligned g) (Left n g) (Aligned g) (planner s g.conversation_input w) _
        (After-world (Aligned g) (planner s g.conversation_input w)
          (versions.planned g.run_id s g.conversation_input w ∙ h))
        (λ p u k.
          After-bind (λ _. Aligned g) (Left n g) (Aligned g) (lift (with_plan s p) u) _
            (After-world (Aligned g) (lift (with_plan s p) u) k) (λ t v l. (l, λ _. l)))

  -- The newest record after a save.
  abbrev Next : GraphState → W → Type 0
  Next g u = versions.newest g.run_id u ≡ g.persistence_version + 1

  save_in-Keeps :
      (g : GraphState) (e : StepExecution) (update : Option ContextUpdate) (recovery : Bool) (w : W)
      → Aligned g w
      → After
          (λ _. Next g)
          (Aligned g)
          (save_in (some store) g.run_id e update recovery (g.persistence_version + 1) w)
  save_in-Keeps g e update recovery w h =
      let version = g.persistence_version + 1 in
      After-bind (λ _. Next g) (λ _. Next g) (Aligned g)
        (store.save g.run_id e update recovery version w) _
        (After-otherwise (λ _. Next g)
          (λ u. versions.newest g.run_id u ≡ versions.newest g.run_id w) (Aligned g)
          (store.save g.run_id e update recovery version w)
          (versions.saved g.run_id e update recovery version w (omega (arith, h)))
          (λ u same. same ∙ h))
        (λ _ u k. k)

  write_running-Keeps :
      (g : GraphState) (s : AgentState) (e : StepExecution) (w : W)
      → Aligned g w
      → Keeps mark_running g (write_running planner executor (some store) g s e w)
  unfolding write_running after
  write_running-Keeps g s e w h =
      After-bind (λ _. Aligned g) (Left mark_running g) (Aligned g)
        (lift (with_step_execution s e) w) _
        (After-world (Aligned g) (lift (with_step_execution s e) w) h)
        (λ t u k.
          After-bind (λ _. Aligned g) (Left mark_running g) (Aligned g) (lift (last_execution t) u)
            _ (After-world (Aligned g) (lift (last_execution t) u) k)
            (λ latest v l.
              After-bind (λ _. Next g) (Left mark_running g) (Aligned g)
                (save_in (some store) g.run_id latest none false (g.persistence_version + 1) v) _
                (save_in-Keeps g latest none false v l) (λ _ x m. (m, λ stuck. cc))))

  mark_step-Keeps :
      (g : GraphState) (s : AgentState) (next : Option (ℕ × String)) (w : W)
      → Aligned g w
      → Keeps mark_running g (mark_step planner executor (some store) g s next w)
  unfolding mark_step
  mark_step-Keeps g s none w h =
      let made = new_step_execution null null (str "running") null null null in
      After-bind (λ _. Aligned g) (Left mark_running g) (Aligned g) (lift made w) _
        (After-world (Aligned g) (lift made w) h) (λ e u k. write_running-Keeps g s e u k)
  mark_step-Keeps g s (some (r, i)) w h = elim (Bool-cases (has_failed (execution_for s r i))) [
    | inl lost ↦ rw lost (h, λ _. h)
    | inr fresh ↦
        let made = new_step_execution (int (pos r)) (str i) (str "running") null null null in
        rw fresh (
          After-bind (λ _. Aligned g) (Left mark_running g) (Aligned g) (lift made w) _
            (After-world (Aligned g) (lift made w) h) (λ e u k. write_running-Keeps g s e u k))
  ]

  merge_context-Aligned :
      (g : GraphState) (t : AgentState) (o : ExecutionOutcome) (r : ℕ) (i : String) (u : W)
      → Next g u
      → Aligned
          (record (merge_context g o.context_update r i) {
            agent_state = some t;
            persistence_version = g.persistence_version + 1;
            recovery_active = false;
          })
          u
  merge_context-Aligned g t o r i u k =
      subst (λ x. versions.newest x u ≡ g.persistence_version + 1)
        (sym (merge_context-run_id g o.context_update r i)) k

  write_outcome-Keeps :
      (g : GraphState) (s : AgentState) (r : ℕ) (i : String) (o : ExecutionOutcome) (w : W)
      → Aligned g w
      → Keeps execute g (write_outcome planner executor (some store) g s r i o w)
  unfolding write_outcome after
  write_outcome-Keeps g s r i o w h =
      After-bind (λ t u. (with_step_execution s o.execution ≡ ok t) × Aligned g u) (Left execute g)
        (Aligned g) (lift (with_step_execution s o.execution) w) _
        (After-lift (Aligned g) (with_step_execution s o.execution) w h)
        (λ t u (wrote, k).
          let resumed : Bool = elim g.status [ some resuming ↦ true | _ ↦ false ] in
          After-bind (λ _. Next g) (Left execute g) (Aligned g)
            (save_in (some store) g.run_id o.execution o.context_update resumed
              (g.persistence_version + 1) u)
            _ (save_in-Keeps g o.execution o.context_update resumed u k)
            (λ _ x m. (
              merge_context-Aligned g t o r i x m,
              λ stuck.
                  let e =
                    last_execution-eq t o.execution
                      (with_step_execution-last s t o.execution wrote) in
                  let stuck' = rw e at stuck in cc,
            )))

  execute_step-Keeps :
      (g : GraphState) (s : AgentState) (next : Option (ℕ × String)) (w : W)
      → Aligned g w
      → Keeps execute g (execute_step planner executor (some store) g s next w)
  unfolding execute_step
  execute_step-Keeps g s none w h = (h, λ _. h)
  execute_step-Keeps g s (some (r, i)) w h =
      let context =
        new_step_context (texts g.files_read) (texts g.files_modified) (texts g.observations) in
      After-bind (λ _. Aligned g) (Left execute g) (Aligned g) (lift (step_progress s r i) w) _
        (After-world (Aligned g) (lift (step_progress s r i) w) h)
        (λ _ u k.
          After-bind (λ _. Aligned g) (Left execute g) (Aligned g) (lift context u) _
            (After-world (Aligned g) (lift context u) k)
            (λ c v l.
              let answered = executor s r i c g.recovery_active g.recovery_attempt v in
              After-bind (λ _. Aligned g) (Left execute g) (Aligned g) answered _
                (After-world (Aligned g) answered
                  (versions.executed g.run_id s r i c g.recovery_active g.recovery_attempt v ∙ l))
                (λ o x m. write_outcome-Keeps g s r i o x m)))

  -- A node whose first step reads the state of the graph.
  from_state :
      (n : Node) (g : GraphState) (f : AgentState → Run W GraphState) (w : W)
      → Aligned g w
      → ((s : AgentState) (u : W) → Aligned g u → Keeps n g (f s u))
      → Keeps n g ((lift (agent_state_of g) >>= f) w)
  from_state n g f w h k =
      After-bind (λ _. Aligned g) (Left n g) (Aligned g) (lift (agent_state_of g) w) f
        (After-world (Aligned g) (lift (agent_state_of g) w) h) k

  replan_from-Keeps :
      (g : GraphState) (s : AgentState) (p : Plan) (w : W)
      → Aligned g w
      → Keeps replan g (
          (if p.revision == 3
              then pure (record g { status = some GraphStatus.blocked })
              else append_plan planner executor (some store) g s)
            w)
  replan_from-Keeps g s p w h = elim (Bool-cases (p.revision == 3)) [
    | inl third ↦ rw third (h, λ _. h)
    | inr more ↦ rw more (append_plan-Keeps replan g s w h)
  ]

  plan_from-Keeps :
      (g : GraphState) (s : AgentState) (w : W)
      → Aligned g w
      → Keeps plan g (
          (if is_nil s.plan_history then append_plan planner executor (some store) g s else pure g)
            w)
  plan_from-Keeps g s w h = elim (Bool-cases (is_nil s.plan_history)) [
    | inl fresh ↦ rw fresh (append_plan-Keeps plan g s w h)
    | inr more ↦ rw more (h, λ _. h)
  ]

  node-Keeps :
      (n : Node) (g : GraphState) (w : W)
      → Aligned g w
      → Keeps n g (node planner executor (some store) n g w)
  unfolding node plan_node mark_running_node execute_node replan_node
  node-Keeps plan g w h = from_state plan g _ w h (plan_from-Keeps g)
  node-Keeps mark_running g w h =
      from_state mark_running g _ w h (λ s. mark_step-Keeps g s (next_step s))
  node-Keeps execute g w h = from_state execute g _ w h (λ s. execute_step-Keeps g s (next_step s))
  node-Keeps replan g w h = from_state replan g _ w h (λ s u k.
      After-bind (λ _. Aligned g) (Left replan g) (Aligned g) (lift (last_plan s) u) _
        (After-world (Aligned g) (lift (last_plan s) u) k) (λ p. replan_from-Keeps g s p))
  node-Keeps complete g w h = (h, λ _. h)
  node-Keeps Node.blocked g w h = (h, λ _. h)
  node-Keeps interrupted g w h = (h, λ _. h)
  node-Keeps finished g w h = (h, λ _. h)

  continue_walk-Aligned :
      (n : Node) (g : GraphState) (rest : Node → GraphState → W → Stop × W)
      (r : Result (Node × GraphState) × W)
      → After (λ x. Aligned x.1) (Aligned g) r
      → ((n' : Node) (g' : GraphState) (u : W)
          → Aligned g' u
          → Aligned (rest n' g' u).0.checkpoint (rest n' g' u).1)
      → Aligned
          (continue_walk planner executor (some store) n g rest r).0.checkpoint
          (continue_walk planner executor (some store) n g rest r).1
  continue_walk-Aligned n g rest (ok (n', g'), u) h k = k n' g' u h
  continue_walk-Aligned n g rest (err e, u) h k = h

  routed-Aligned :
      (g g' : GraphState) (r : Result Node) (u : W)
      → Aligned g' u
      → (is_ok r ≡ false → Aligned g u)
      → After {A = Node × GraphState}
          (λ x. Aligned x.1)
          (Aligned g)
          ((lift {W = W} r >>= λ n'. pure (n', g')) u)
  routed-Aligned g g' (ok n) u h stuck = h
  routed-Aligned g g' (err e) u h stuck = stuck refl

  step-Aligned :
      (n : Node) (g : GraphState) (w : W)
      → Aligned g w
      → After (λ x. Aligned x.1) (Aligned g) (step planner executor (some store) n g w)
  unfolding step
  step-Aligned n g w h =
      After-bind (Left n g) (λ x. Aligned x.1) (Aligned g)
        (node planner executor (some store) n g w) _ (node-Keeps n g w h)
        (λ g' u (k, stuck). routed-Aligned g g' (after n g') u k stuck)

  -- Wherever a walk of the graph stops, with or without an exception, its checkpoint has the version
  -- of the newest recovery record when it had that version at the start.
  pub walk-Aligned :
      (fuel : ℕ) (n : Node) (g : GraphState) (w : W)
      → Aligned g w
      → Aligned
          (walk planner executor (some store) fuel n g w).0.checkpoint
          (walk planner executor (some store) fuel n g w).1
  unfolding walk
  walk-Aligned zero n g w h = h
  walk-Aligned (suc fuel) n g w h =
      continue_walk-Aligned n g (walk planner executor (some store) fuel)
        (step planner executor (some store) n g w) (step-Aligned n g w h)
        (λ n' g' u. walk-Aligned fuel n' g' u)
