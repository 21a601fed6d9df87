-- ===== src/Agent/Decision.antt =====
-- agent/agent.py: what the recovery decision does to a state with uncertain work.
use codex_py.State.{interrupted, failed, Status, StepExecution}
use codex_py.Agent.{
  is_interrupted, is_running, mark, settle, ended, apply_recovery_decision, decide,
  mark_stale_execution_interrupted, replace_ended,
}
use codex_py.Base.{
  Bool-cases, ap, eq_iff, find, inl, inr, nat_eq, string_eq, subst, sym, ◌==◌, ◌∙◌, ◌≡◌, Option,
  >>=-eq-ok, Bool, String, arith, none, ok, some, true,
}
use codex_py.State.Agent.Valid.{IsValid}
use codex_py.State.Agent.{AgentState}
use codex_py.State.Agent.Update.{with_step_execution_lem, with_step_execution-IsValid}

replace_ended-ok :
    (s t : AgentState) (e : StepExecution) (status : Status) (message : String)
    → IsValid s
    → replace_ended s e status message ≡ ok t
    → IsValid t × (t.plan_history ≡ s.plan_history)
unfolding replace_ended
replace_ended-ok s t e status message v h =
    let (e', made, wrote) = >>=-eq-ok (ended e status message) _ h in
    (with_step_execution-IsValid s e' wrote, ground (arith, with_step_execution_lem s e' v))

mark-ok :
    (s t : AgentState) (found : Option StepExecution)
    → IsValid s
    → mark s found ≡ ok t
    → IsValid t × (t.plan_history ≡ s.plan_history)
unfolding mark
mark-ok s t none v h =
    let same : s ≡ t = ground arith in (subst IsValid same v, ap (λ x. x.plan_history) (sym same))
mark-ok s t (some e) v h = replace_ended-ok s t e interrupted _ v h

decide-ok :
    (s t : AgentState) (recovery : Option String) (e : StepExecution) (abort : Bool)
    → IsValid s
    → decide recovery s e ≡ ok (t, abort)
    → IsValid t × (t.plan_history ≡ s.plan_history) × (abort ≡ true → recovery ≡ some "abort")
unfolding decide
decide-ok s t none e abort v h = cc
decide-ok s t (some r) e abort v h = elim (Bool-cases (r == "abort")) [
  | inl stop ↦
      let h' = rw stop at h in
      let same : s ≡ t = ground arith in
      (
        subst IsValid same v,
        ap (λ x. x.plan_history) (sym same),
        λ _. ap some ((eq_iff r "abort").0 stop),
      )
  | inr go ↦ elim (Bool-cases (r == "fail")) [
    | inl fail ↦
        let h' = rw (go, fail) at h in
        let (t', wrote, result) = >>=-eq-ok (replace_ended s e failed _) _ h' in
        let (valid, history) = replace_ended-ok s t' e failed _ v wrote in
        let same : t' ≡ t = ground arith in
        (
          subst IsValid same valid,
          ap (λ x. x.plan_history) (sym same) ∙ history,
          λ stop. ground arith,
        )
    | inr other ↦ let h' = rw (go, other) at h in cc
  ]
]

settle-ok :
    (s t : AgentState) (recovery : Option String) (found : Option StepExecution) (abort : Bool)
    → IsValid s
    → settle recovery s found ≡ ok (t, abort)
    → IsValid t × (t.plan_history ≡ s.plan_history) × (abort ≡ true → recovery ≡ some "abort")
unfolding settle
settle-ok s t recovery none abort v h =
    let same : s ≡ t = ground arith in
    (subst IsValid same v, ap (λ x. x.plan_history) (sym same), λ stop. ground arith)
settle-ok s t recovery (some e) abort v h = decide-ok s t recovery e abort v h

-- On a valid state a decision that does not raise keeps the state valid and its plans as they
-- are, and blocks the run only on `abort`.
pub apply_recovery_decision-ok :
    (s : AgentState) (recovery : Option String) (t : AgentState) (abort : Bool)
    → IsValid s
    → apply_recovery_decision s recovery ≡ ok (t, abort)
    → IsValid t × (t.plan_history ≡ s.plan_history) × (abort ≡ true → recovery ≡ some "abort")
unfolding apply_recovery_decision mark_stale_execution_interrupted
apply_recovery_decision-ok s recovery t abort v h =
    let (m, marked, settled) = >>=-eq-ok (mark_stale_execution_interrupted s) _ h in
    let (valid, history) = mark-ok s m (find is_running s.step_executions) v marked in
    let (valid', history', asked) =
      settle-ok m t recovery (find is_interrupted m.step_executions) abort valid settled in
    (valid', history' ∙ history, asked)
