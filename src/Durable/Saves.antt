-- ===== src/Durable/Saves.antt =====
-- agent/durable.py: what the saves of the graph do to the version of the newest record.
use codex_py.Base.{
  [], ap, last, last-append, ◌++◌, ◌∷◌, arith, nat_eq, string_eq, err, ok, ◌≡◌, Option, Bool,
  Result, String, none, refl, some, ℕ, ◌+◌, ◌∙◌,
}
use codex_py.State.Agent.{other_executions, AgentState, with_step_execution}
use codex_py.State.Agent.Valid.{new_agent_state-IsValid}
use codex_py.Durable.{GraphState, StepExecutor, RecoveryStore, merge_context, last_execution}
use codex_py.Base.Effect.{Run, lift, After}
use codex_py.State.Context.{StepContext, ContextUpdate}
use codex_py.State.{Plan, StepExecution}
use codex_py.Base.Json.{Json}

-- The version of the newest record of a run, zero when it has none, and what the calls of the graph
-- do to it.
pub record IsVersioned {W : Type 0} (planner : AgentState → Option Json → Run W Plan)
    (executor : StepExecutor W) (store : RecoveryStore W) : Type 0 where
  pub newest : String → W → ℕ
  pub saved :
      (run_id : String) (e : StepExecution) (update : Option ContextUpdate) (recovery : Bool)
      (version : ℕ) (w : W)
      → version ≡ newest run_id w + 1
      → After
          (λ a u. newest run_id u ≡ version)
          (λ u. newest run_id u ≡ newest run_id w)
          (store.save run_id e update recovery version w)
  pub planned :
      (run_id : String) (s : AgentState) (input : Option Json) (w : W)
      → newest run_id (planner s input w).1 ≡ newest run_id w
  pub executed :
      (run_id : String) (s : AgentState) (r : ℕ) (i : String) (c : StepContext) (active : Bool)
      (attempt : Option ℕ) (w : W)
      → newest run_id (executor s r i c active attempt w).1 ≡ newest run_id w

pub After-otherwise {ℓ κ} :
    {W : Type ℓ} {A : Type κ} (returned : A → W → Type 0) (raised raised' : W → Type 0)
    (r : Result A × W)
    → After returned raised r
    → ((w : W) → raised w → raised' w)
    → After returned raised' r
After-otherwise returned raised raised' (ok a, w) h f = h
After-otherwise returned raised raised' (err e, w) h f = f w h

pub After-lift :
    {W A : Type 0} (kept : W → Type 0) (r : Result A) (w : W)
    → kept w
    → After (λ a u. (r ≡ ok a) × kept u) kept (lift r w)
After-lift kept (ok a) w h = (refl, h)
After-lift kept (err e) w h = h

pub with_step_execution-last :
    (s t : AgentState) (e : StepExecution)
    → with_step_execution s e ≡ ok t
    → last t.step_executions ≡ some e
unfolding with_step_execution
with_step_execution-last s t e h =
    ap (λ x. last x.step_executions)
      (new_agent_state-IsValid s.goal s.plan_history
        (other_executions e s.step_executions ++ (e ∷ [])) s.memory_summary h).1
    ∙ last-append (other_executions e s.step_executions) e

pub last_execution-eq :
    (s : AgentState) (e : StepExecution) → last s.step_executions ≡ some e → last_execution s ≡ ok e
last_execution-eq s e h = ground (arith, h)

pub merge_context-run_id :
    (g : GraphState) (u : Option ContextUpdate) (r : ℕ) (i : String)
    → (merge_context g u r i).run_id ≡ g.run_id
unfolding merge_context
merge_context-run_id g none r i = refl
merge_context-run_id g (some u) r i = refl
