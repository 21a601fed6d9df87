-- ===== src/Durable/Handoff.antt =====
-- agent/durable.py: what a conversation gets from a durable run.
use codex_py.Base.{
  is_empty, keep, List, String, [], all, ap, arith, false, is_blank, last, map, none, ok, refl,
  some, true, ◌∙◌, ◌∷◌, ◌≡◌,
}
use codex_py.Durable.{GraphState, GraphStatus}
use codex_py.Durable.Runs.{result_of}
use codex_py.Durable.Answers.{durable_answer, answer_from, handed_off, last_completed}
use codex_py.Conversation.{ConversationStatus, new_execution_answer}
use codex_py.State.{StepExecution, is_completed}
use codex_py.State.Agent.{AgentState}
use codex_py.State.Agent.Valid.{IsValid}
use codex_py.State.Codec.{serialize_agent_state}
use codex_py.State.Codec.RoundTrip.{
  is_valid_plan, is_valid_execution, without_stale_evidence,
  deserialize_agent_state-serialize_agent_state,
}

keep-without_stale_evidence :
    (es : List StepExecution)
    → keep (λ (e : StepExecution). is_completed e.status) (map without_stale_evidence es)
      ≡ keep (λ (e : StepExecution). is_completed e.status) es
keep-without_stale_evidence [] = refl
keep-without_stale_evidence (e ∷ es) = ground (arith, keep-without_stale_evidence es)

not_empty_text : (text : String) → is_blank text ≡ false → is_empty text ≡ false
unfolding is_blank
not_empty_text String.[] h = cc
not_empty_text (String.◌∷◌ c s) h = refl

handed_off_text :
    (e : StepExecution) (text : String)
    → e.result ≡ some text
    → is_blank text ≡ false
    → handed_off (some e)
      ≡ ok (record { answer = some text; status = ConversationStatus.completed; error = none })
unfolding handed_off new_execution_answer
handed_off_text e text h given = ground (arith, h, given, not_empty_text text given)

answer_from-serialize_agent_state :
    (s : AgentState)
    → IsValid s
    → all is_valid_plan s.plan_history ≡ true
    → all is_valid_execution s.step_executions ≡ true
    → answer_from (some (serialize_agent_state s)) ≡ handed_off (last_completed s.step_executions)
unfolding answer_from
answer_from-serialize_agent_state s v plans executions =
    rw (deserialize_agent_state-serialize_agent_state s v plans executions)
      (ap (λ es. handed_off (last es)) (keep-without_stale_evidence s.step_executions))

-- The answer of a run that ended with the status completed is the result of the last step
-- execution that is completed, when the state is valid with valid plans and executions and that
-- result is not blank: serialization loses none of it.
pub durable_answer-result_of :
    (run_id : String) (g : GraphState) (s : AgentState) (e : StepExecution) (text : String)
    → g.status ≡ some GraphStatus.completed
    → g.agent_state ≡ some s
    → IsValid s
    → all is_valid_plan s.plan_history ≡ true
    → all is_valid_execution s.step_executions ≡ true
    → last_completed s.step_executions ≡ some e
    → e.result ≡ some text
    → is_blank text ≡ false
    → durable_answer (result_of run_id g)
      ≡ ok (record { answer = some text; status = ConversationStatus.completed; error = none })
unfolding durable_answer
durable_answer-result_of run_id g s e text ended held v plans executions newest h given =
    rw (ended, held)
      (answer_from-serialize_agent_state s v plans executions
        ∙ (ap handed_off newest ∙ handed_off_text e text h given))
