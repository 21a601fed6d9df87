-- ===== src/Durable/Recover.antt =====
-- agent/durable.py: what a run of `DurableAgent` knows before it enters the graph.
use codex_py.Base.{
  Option, Bool, List, Result, String, [], false, find, is_some, keep, last, nat_eq, none, ok, some,
  string_eq, ℕ, ◌&&◌, ◌+◌, ◌==◌, ◌∷◌, ◌>>=◌ as bind_result,
}
use codex_py.Durable.{GraphState, resuming}
use codex_py.State.{StepExecution}
use mathlib.Core.Option
use codex_py.Recovery.{RecoveryAttempt, RecoverySnapshot}
use codex_py.State.Context.{StepContext}
use codex_py.State.Agent.{AgentState, with_step_execution}
use codex_py.Agent.{is_interrupted}
use codex_py.Base.Json.{Json}

-- What a run knows before it marks uncertain work.
pub record Recovered : Type 0 where
  pub state : Option AgentState
  pub active : Bool
  pub attempt : Option ℕ
  pub context : Option StepContext

-- _restore_recovery_state
unfoldable pub restore_recovery_state : AgentState → List StepExecution → Result AgentState
unfolding with_step_execution
restore_recovery_state s [] = ok s
restore_recovery_state s (e ∷ es) =
    bind_result (with_step_execution s e) (λ t. restore_recovery_state t es)

-- (prior[-1].attempt + 1) if prior else 1
abbrev pub attempt_after : Option RecoveryAttempt → ℕ
attempt_after none = 1
attempt_after (some a) = a.attempt + 1

abbrev pub next_number : StepExecution → List RecoveryAttempt → ℕ
next_number e attempts = attempt_after (
    last
      (keep (λ (a : RecoveryAttempt). a.revision == e.revision && a.step_id == e.step_id) attempts))

-- (history[-1].version + 1) if history else 1
abbrev pub version_after : Option RecoveryAttempt → ℕ
version_after none = 1
version_after (some a) = a.version + 1

unfoldable pub recovered_from : AgentState → RecoverySnapshot → Result Recovered
unfolding restore_recovery_state
recovered_from s snapshot =
    let found = find is_interrupted snapshot.latest_executions in
    bind_result (restore_recovery_state s snapshot.latest_executions) (λ t. ok (record {
      state = some t;
      active = is_some found;
      attempt = Option.map (λ e. next_number e snapshot.attempts) found;
      context = some snapshot.context;
    }))

abbrev pub as_saved : GraphState → Recovered
as_saved g = record { state = g.agent_state; active = false; attempt = none; context = none }

abbrev pub with_context : Option StepContext → GraphState → GraphState
with_context none g = g
with_context (some c) g = record g {
  files_read = c.files_read;
  files_modified = c.files_modified;
  observations = c.observations;
}

-- The input of the graph, merged into its checkpoint. A key that is left out keeps its value.
abbrev pub resumed : String → Recovered → Option Json → GraphState → GraphState
resumed run_id r input g = with_context r.context (record g {
  agent_state = r.state;
  status = some resuming;
  run_id = run_id;
  recovery_active = r.active;
  conversation_input = elim input [ none ↦ g.conversation_input | some v ↦ some v ];
  recovery_attempt = elim r.attempt [ none ↦ g.recovery_attempt | some n ↦ some n ];
})

abbrev pub graph_input : String → Recovered → Option Json → GraphState → GraphState
graph_input run_id r input g = elim r.state [
  | none ↦ record g { run_id = run_id }
  | some s ↦ resumed run_id r input g
]
