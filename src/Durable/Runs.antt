-- ===== src/Durable/Runs.antt =====
-- agent/durable.py: `DurableAgent.run` and `DurableAgent.interrupt` over the graph and its
-- checkpoint. The graph saves the state after every super-step; what a node that raises has done
-- to its state is not saved.
use codex_py.Base.{
  other_error, Option, Bool, Error, Result, String, any, err, false, find, if◌then◌else◌, is_some,
  last, nat_eq, none, not, ok, some, string_eq, suc, true, zero, ℕ, ◌+◌,
}
use codex_py.Durable.Recover.{
  Recovered, next_number, version_after, recovered_from, as_saved, graph_input,
}
use codex_py.Durable.{
  interrupted, save_in, GraphState, GraphStatus, blocked, Node, finished, RecoveryStore,
  StepExecutor, start_node, step,
}
use codex_py.Base.Effect.{◌>>◌, raise, Run, pure, lift, ◌>>=◌}
use codex_py.State.{is_nil, Plan, StepExecution}
use mathlib.Core.Option
use codex_py.State.Agent.{AgentState}
use codex_py.State.Codec.{serialize_agent_state}
use codex_py.Agent.{
  apply_recovery_decision, mark_stale_execution_interrupted, is_interrupted, is_running,
}
use codex_py.Base.Json.{Json}

-- Where a walk through the graph stops: at a node that raised, or with no fuel left.
pub record Stop : Type 0 where
  pub node : Node
  pub checkpoint : GraphState
  pub raised : Option Error

pub record RunResult : Type 0 where
  pub run_id : String
  pub status : GraphStatus
  pub state : Option Json

-- values.get("status") in {"completed", "blocked"}
abbrev pub ended_status : GraphState → Option GraphStatus
ended_status g = elim g.status [
  | some GraphStatus.completed ↦ some GraphStatus.completed
  | some blocked ↦ some blocked
  | _ ↦ none
]

-- result.get("status", "completed")
abbrev pub status_or_completed : Option GraphStatus → GraphStatus
status_or_completed none = GraphStatus.completed
status_or_completed (some s) = s

abbrev pub result_of : String → GraphState → RunResult
result_of run_id g = record {
  run_id = run_id;
  status = status_or_completed g.status;
  state = Option.map serialize_agent_state g.agent_state;
}

module _ {W : Type 0} (planner : AgentState → Option Json → Run W Plan) (executor : StepExecutor W)
    (store : Option (RecoveryStore W)) where
  abbrev pub continue_walk :
      Node
      → GraphState
      → (Node → GraphState → W → Stop × W)
      → Result (Node × GraphState) × W
      → Stop × W
  continue_walk n g rest (err e, w) = (record { node = n; checkpoint = g; raised = some e }, w)
  continue_walk n g rest (ok (n', g'), w) = rest n' g' w

  unfoldable pub walk : ℕ → Node → GraphState → W → Stop × W
  unfolding step
  walk zero n g w = (record { node = n; checkpoint = g; raised = none }, w)
  walk (suc fuel) n g w = continue_walk n g (walk fuel) (step planner executor store n g w)

  -- The world of a run: the checkpoint of its thread, and what is outside.
  abbrev pub Thread : Type 0
  Thread = GraphState × W

  abbrev pub outside : {A : Type 0} → Run W A → Run Thread A
  outside m (g, w) = let (r, u) = m w in (r, (g, u))

  abbrev pub answer_of : Stop → Result (Option GraphState)
  answer_of s = elim s.raised [
    | some e ↦ err e
    | none ↦ elim s.node [ finished ↦ ok (some s.checkpoint) | _ ↦ ok none ]
  ]

  -- graph.ainvoke; none means that the fuel ran out.
  unfoldable pub invoke : ℕ → (GraphState → GraphState) → Run Thread (Option GraphState)
  unfolding walk
  invoke fuel update (g, w) =
      let (s, u) = walk fuel (start_node (update g)) (update g) w in
      (answer_of s, (s.checkpoint, u))

  -- The recovery store, when a run has no state of its own.
  unfoldable pub recovered : String → GraphState → Run W Recovered
  unfolding recovered_from
  recovered run_id g = elim store [
    | none ↦ pure (as_saved g)
    | some st ↦ (do
      snapshot ← st.restore run_id g.persistence_version
      elim g.agent_state [
        | none ↦ pure (as_saved g)
        | some s ↦
            if is_nil snapshot.latest_executions
            then pure (as_saved g)
            else lift (recovered_from s snapshot)
      ])
  ]

  -- The attempt that continues uncertain work.
  abbrev continued :
      String
      → Recovered
      → AgentState
      → Option StepExecution
      → Option String
      → Run W (Recovered × Bool)
  continued run_id r stale (some e) none = elim store [
    | none ↦ pure (record r { state = some stale; active = true }, false)
    | some st ↦ (do
      attempts ← st.history run_id
      pure (
        record r { state = some stale; active = true; attempt = some (next_number e attempts) },
        false,
      ))
  ]
  continued run_id r stale _ recovery = do
    (t, abort) ← lift (apply_recovery_decision stale recovery)
    pure (record r { state = some t }, abort)

  -- The record of work that was running when the process ended.
  abbrev noted : String → Option String → Bool → Option StepExecution → Recovered → Run W Recovered
  noted run_id recovery true (some e) r = elim store [
    | none ↦ pure r
    | some st ↦ (do
      attempts ← st.history run_id
      added ← st.save run_id e none false (version_after (last attempts))
      pure (record r { active = not (is_some recovery); attempt = some (added.attempt + 1) }))
  ]
  noted run_id recovery _ _ r = pure r

  unfoldable pub settled :
      String → Option String → Recovered → AgentState → Run W (Recovered × Bool)
  unfolding mark_stale_execution_interrupted apply_recovery_decision
  settled run_id recovery r s = do
    stale ← lift (mark_stale_execution_interrupted s)
    let found = find is_interrupted stale.step_executions
    (q, abort) ← continued run_id r stale found recovery
    q' ← noted run_id recovery (any is_running s.step_executions) found q
    pure (q', abort)

  -- The input after the recovery decision, and the result; an abort only blocks the graph.
  unfoldable pub ended : ℕ → String → Option Json → Recovered × Bool → Run Thread (Option RunResult)
  unfolding invoke
  ended fuel run_id input (r, true) = do
    answer ← invoke fuel (λ g. record g { agent_state = r.state; status = some blocked })
    pure (Option.map (λ g. record (result_of run_id g) { status = blocked }) answer)
  ended fuel run_id input (r, false) = do
    answer ← invoke fuel (graph_input run_id r input)
    pure (Option.map (result_of run_id) answer)

  unfoldable pub continued_run :
      ℕ → String → Option String → Option Json → Recovered → Run Thread (Option RunResult)
  unfolding settled ended
  continued_run fuel run_id recovery input r = elim r.state [
    | none ↦ ended fuel run_id input (r, false)
    | some s ↦ (do decided ← outside (settled run_id recovery r s); ended fuel run_id input decided)
  ]

  -- A run that has ended answers from its checkpoint.
  abbrev ended_result : String → GraphState → Recovered → Option RunResult
  ended_result run_id g r = elim r.state [
    | none ↦ none
    | some s ↦
        Option.map
          (λ status. record {
            run_id = run_id;
            status = status;
            state = some (serialize_agent_state s);
          })
          (ended_status g)
  ]

  abbrev saved : Run Thread GraphState
  saved (g, w) = (ok g, (g, w))

  -- DurableAgent.run
  unfoldable pub run :
      ℕ → String → Option AgentState → Option String → Option Json → Run Thread (Option RunResult)
  unfolding recovered continued_run
  run fuel run_id (some s) recovery input =
      continued_run fuel run_id recovery input
        (record { state = some s; active = false; attempt = none; context = none })
  run fuel run_id none recovery input = do
    g ← saved
    r ← outside (recovered run_id g)
    elim (ended_result run_id g r) [
      | some result ↦ pure (some result)
      | none ↦ continued_run fuel run_id recovery input r
    ]

  -- next(...) raises StopIteration when nothing is interrupted
  abbrev noted_interrupt : String → ℕ → Bool → Option StepExecution → Run W (Unit {0})
  noted_interrupt run_id version true (some e) = save_in store run_id e none false version
  noted_interrupt run_id version true none = elim store [
    | none ↦ pure tt
    | some st ↦ raise (other_error "StopIteration")
  ]
  noted_interrupt run_id version false found = pure tt

  unfoldable pub interrupt_in : ℕ → String → GraphState → AgentState → Run Thread (Unit {0})
  unfolding mark_stale_execution_interrupted invoke
  interrupt_in fuel run_id g s = do
    t ← lift (mark_stale_execution_interrupted s)
    let version = g.persistence_version + 1
    outside (
        noted_interrupt run_id version (any is_running s.step_executions)
          (find is_interrupted t.step_executions))
    invoke fuel (λ h. record h {
      agent_state = some t;
      status = some interrupted;
      run_id = run_id;
      persistence_version = version;
    })
    pure tt

  -- DurableAgent.interrupt
  unfoldable pub interrupt : ℕ → String → Run Thread (Unit {0})
  unfolding interrupt_in
  interrupt fuel run_id = do
    g ← saved
    elim g.agent_state [ none ↦ pure tt | some s ↦ interrupt_in fuel run_id g s ]
