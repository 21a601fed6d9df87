-- ===== src/Durable.antt =====
-- agent/durable.py: the checkpointed graph, its nodes and its routing. The Planner, the Executor and
-- the recovery store are actions over a world `W`; the trace is left out.
pub mod Recovered
pub mod Recover
pub mod Runs
pub mod Places
pub mod Routes
pub mod Nodes
pub mod Walks
pub mod Saves
pub mod Versions
pub mod Restores
pub mod Open
pub mod Ranks
pub mod Written
pub mod Progress
pub mod Fuel
pub mod Answers
pub mod Handoff
use codex_py.Base.{
  not, Bool, false, map, true, ◌++◌, ◌>>=◌ as bind_result, List, Option, Result, String, [], err,
  find, if◌then◌else◌, key_error, last, length, ltb, nat_eq, none, ok, other_error, some, string_eq,
  suc, zero, ℕ, ◌+◌, ◌<>◌, ◌==◌, ◌∷◌,
}
use Prim.Native.Nat.{◌/◌, ◌%◌}
use codex_py.Recovery.{RecoveryAttempt, RecoverySnapshot, append_unique, texts}
use codex_py.State.{Plan, PlanStep, StepExecution, new_step_execution, is_failed, is_nil}
use codex_py.State.Context.{StepContext, ContextUpdate, ExecutionOutcome, new_step_context}
use codex_py.State.Agent.{AgentState, with_plan, with_step_execution, execution_for}
use codex_py.Agent.{last_plan, has_completed, has_failed}
use codex_py.Base.Json.{Json, null, int, pos, str}
use codex_py.Base.Effect.{Run, pure, lift, ◌>>=◌, ◌>>◌}

pub data GraphStatus : Type 0 where
  resuming completed blocked interrupted : GraphStatus

-- An absent key is none, the empty list, zero, the empty text or false: the default that the code
-- gives where it reads the key.
pub record GraphState : Type 0 where
  pub agent_state : Option AgentState
  pub conversation_input : Option Json
  pub status : Option GraphStatus
  pub run_id : String
  pub files_modified : List String
  pub files_read : List String
  pub observations : List String
  pub persistence_version : ℕ
  pub recovery_attempt : Option ℕ
  pub recovery_active : Bool

-- The nodes, and END.
pub data Node : Type 0 where
  plan mark_running execute replan complete blocked interrupted finished : Node

-- state["agent_state"]
abbrev pub agent_state_of : GraphState → Result AgentState
agent_state_of g = elim g.agent_state [ none ↦ err (key_error "agent_state") | some s ↦ ok s ]

-- The loop of _next_step.
unfoldable pub first_open : AgentState → Plan → List PlanStep → Option (ℕ × String)
first_open s p [] = none
first_open s p (step ∷ steps) =
    let rest = first_open s p steps in
    if has_completed (execution_for s p.revision step.id) then rest else some (p.revision, step.id)

abbrev pub open_in : AgentState → Option Plan → Option (ℕ × String)
open_in s none = none
open_in s (some p) = first_open s p p.steps

-- _next_step; (None, None) is none
unfoldable pub next_step : AgentState → Option (ℕ × String)
unfolding first_open
next_step s = open_in s (last s.plan_history)

-- The one-based place of a step.
unfoldable pub place_of : String → ℕ → List PlanStep → Option ℕ
place_of step_id n [] = none
place_of step_id n (step ∷ steps) =
    let rest = place_of step_id (suc n) steps in if step.id == step_id then some n else rest

abbrev pub or_stop_iteration {ℓ} : {A : Type ℓ} → Option A → Result A
or_stop_iteration none = err (other_error "StopIteration")
or_stop_iteration (some a) = ok a

unfoldable pub step_progress : AgentState → ℕ → String → Result (ℕ × ℕ)
unfolding place_of
step_progress s revision step_id =
    bind_result (or_stop_iteration (find (λ (p : Plan). p.revision == revision) s.plan_history))
      (λ p.
        bind_result (or_stop_iteration (place_of step_id 1 p.steps)) (λ n. ok (n, length p.steps)))

-- step_executions[-1]
abbrev pub last_execution : AgentState → Result StepExecution
last_execution s = elim (last s.step_executions) [
  | none ↦ err (other_error "list index out of range")
  | some e ↦ ok e
]

abbrev digit : ℕ → String
digit n =
    if n == 0
    then "0"
    else if n == 1
    then "1"
    else if n == 2
    then "2"
    else if n == 3
    then "3"
    else if n == 4
    then "4"
    else if n == 5
    then "5"
    else if n == 6
    then "6"
    else if n == 7
    then "7"
    else if n == 8
    then "8"
    else "9"

-- str(n) of a number, on fuel: a number has at most as many digits as its value plus one.
unfoldable pub digits : ℕ → ℕ → String
digits zero n = ""
digits (suc fuel) n =
    let rest = digits fuel (n / 10) in if ltb n 10 then digit n else rest <> digit (n % 10)

abbrev pub decimal : ℕ → String
decimal n = digits (suc n) n

-- f"revision {revision}, step {step_id}: {observation}"
abbrev pub attributed : ℕ → String → String → String
attributed revision step_id observation =
    "revision " <> (decimal revision <> (", step " <> (step_id <> (": " <> observation))))

-- updates.update(_merge_context(...)), when the outcome has an update
unfoldable pub merge_context : GraphState → Option ContextUpdate → ℕ → String → GraphState
unfolding append_unique digits
merge_context g none revision step_id = g
merge_context g (some u) revision step_id = record g {
  files_read = append_unique g.files_read u.files_read;
  files_modified = append_unique g.files_modified u.files_modified;
  observations = g.observations ++ map (attributed revision step_id) u.observations;
}

-- _start_node
abbrev pub start_node : GraphState → Node
start_node g = elim g.status [
  | some blocked ↦ Node.blocked
  | some interrupted ↦ Node.interrupted
  | _ ↦ plan
]

abbrev pub or_complete : Option (ℕ × String) → Node → Node
or_complete none n = complete
or_complete (some k) n = n

abbrev pub unless_done : AgentState → Node → Node
unless_done s n = or_complete (next_step s) n

-- The routing functions of the graph, and its plain edges to END.
unfoldable pub after : Node → GraphState → Result Node
unfolding next_step
after plan g = bind_result (agent_state_of g) (λ s. ok (unless_done s mark_running))
after mark_running g =
    bind_result (agent_state_of g)
      (λ s. ok (if has_failed (last s.step_executions) then replan else unless_done s execute))
after execute g = bind_result (agent_state_of g) (λ s.
    bind_result (last_execution s)
      (λ e. ok (if is_failed e.status then replan else unless_done s mark_running)))
after replan g = ok (elim g.status [ some blocked ↦ finished | _ ↦ mark_running ])
after _ g = ok finished

-- The methods of the recovery store that the graph calls.
pub record RecoveryStore (W : Type 0) : Type 0 where
  pub save : String → StepExecution → Option ContextUpdate → Bool → ℕ → Run W RecoveryAttempt
  pub restore : String → ℕ → Run W RecoverySnapshot
  pub history : String → Run W (List RecoveryAttempt)

module _ {W : Type 0} where
  -- if self._recovery_store is not None: await self._recovery_store.record(...)
  abbrev pub save_in :
      Option (RecoveryStore W)
      → String
      → StepExecution
      → Option ContextUpdate
      → Bool
      → ℕ
      → Run W (Unit {0})
  save_in none run_id e update recovery version = pure tt
  save_in (some store) run_id e update recovery version = do
    store.save run_id e update recovery version
    pure tt

-- The Executor takes the context of the step, and whether and as which attempt it is recovered.
abbrev pub StepExecutor : Type 0 → Type 0
StepExecutor W = AgentState → ℕ → String → StepContext → Bool → Option ℕ → Run W ExecutionOutcome

module _ {W : Type 0} (planner : AgentState → Option Json → Run W Plan) (executor : StepExecutor W)
    (store : Option (RecoveryStore W)) where
  abbrev append_plan : GraphState → AgentState → Run W GraphState
  append_plan g s = do
    p ← planner s g.conversation_input
    t ← lift (with_plan s p)
    pure (record g { agent_state = some t })

  unfoldable pub plan_node : GraphState → Run W GraphState
  plan_node g = do
    s ← lift (agent_state_of g)
    if is_nil s.plan_history then append_plan g s else pure g

  unfoldable pub write_running : GraphState → AgentState → StepExecution → Run W GraphState
  write_running g s e = do
    t ← lift (with_step_execution s e)
    latest ← lift (last_execution t)
    save_in store g.run_id latest none false (g.persistence_version + 1)
    pure (record g { agent_state = some t; persistence_version = g.persistence_version + 1 })

  -- (None, None) reaches the constructor of StepExecution, which raises.
  unfoldable pub mark_step : GraphState → AgentState → Option (ℕ × String) → Run W GraphState
  unfolding write_running
  mark_step g s none = do
    e ← lift (new_step_execution null null (str "running") null null null)
    write_running g s e
  mark_step g s (some (revision, step_id)) =
      if has_failed (execution_for s revision step_id) then pure g else do
        e ←
            lift
              (new_step_execution (int (pos revision)) (str step_id) (str "running") null null null)
        write_running g s e

  unfoldable pub mark_running_node : GraphState → Run W GraphState
  unfolding next_step mark_step
  mark_running_node g = do s ← lift (agent_state_of g); mark_step g s (next_step s)

  -- What the execute node writes after the Executor has answered.
  unfoldable pub write_outcome :
      GraphState → AgentState → ℕ → String → ExecutionOutcome → Run W GraphState
  unfolding merge_context
  write_outcome g s revision step_id outcome = do
    t ← lift (with_step_execution s outcome.execution)
    save_in store g.run_id outcome.execution outcome.context_update
        (elim g.status [ some resuming ↦ true | _ ↦ false ]) (g.persistence_version + 1)
    pure (record (merge_context g outcome.context_update revision step_id) {
      agent_state = some t;
      persistence_version = g.persistence_version + 1;
      recovery_active = false;
    })

  unfoldable pub execute_step : GraphState → AgentState → Option (ℕ × String) → Run W GraphState
  unfolding step_progress new_step_context write_outcome
  execute_step g s none = pure (record g { status = some completed })
  execute_step g s (some (revision, step_id)) = do
    lift (step_progress s revision step_id)
    context ←
        lift (new_step_context (texts g.files_read) (texts g.files_modified) (texts g.observations))
    outcome ← executor s revision step_id context g.recovery_active g.recovery_attempt
    write_outcome g s revision step_id outcome

  unfoldable pub execute_node : GraphState → Run W GraphState
  unfolding next_step execute_step
  execute_node g = do s ← lift (agent_state_of g); execute_step g s (next_step s)

  unfoldable pub replan_node : GraphState → Run W GraphState
  replan_node g = do
    s ← lift (agent_state_of g)
    p ← lift (last_plan s)
    if p.revision == 3 then pure (record g { status = some blocked }) else append_plan g s

  unfoldable pub node : Node → GraphState → Run W GraphState
  unfolding plan_node mark_running_node execute_node replan_node
  node plan g = plan_node g
  node mark_running g = mark_running_node g
  node execute g = execute_node g
  node replan g = replan_node g
  node complete g = pure (record g { status = some completed })
  node blocked g = pure (record g { status = some blocked })
  node interrupted g = pure (record g { status = some interrupted })
  node finished g = pure g

  -- One super-step: the node, its checkpoint, and the edge to the next node.
  unfoldable pub step : Node → GraphState → Run W (Node × GraphState)
  unfolding node after
  step n g = do g' ← node n g; n' ← lift (after n g'); pure (n', g')
