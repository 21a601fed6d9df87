-- ===== src/State/Agent/Update.antt =====
-- memory/state.py: what `with_plan` and `with_step_execution` do to a valid state.
use codex_py.Base.{
  ap, find-snoc, find_of_absent, ◌∙◌, Bool-cases, String, [], all-append, all-keep, err, find,
  if◌then◌else◌, inl, inr, not, ok, some, value_error, List, any, any-append, arith, eq_iff, false,
  length, nat_eq, refl, string_eq, suc, true, ℕ, ◌&&◌, ◌++◌, ◌+◌, ◌==◌, ◌∷◌, ◌≡◌,
}
use codex_py.State.{require_text, Plan, StepExecution}
use codex_py.State.Agent.{
  AgentState, has_key, sequential_from, distinct_keys, plan_has, is_planned, all_planned,
  other_executions, new_agent_state, with_plan, with_step_execution, execution_for,
}
use codex_py.State.Agent.Valid.{IsValid, new_agent_state_of_valid, new_agent_state-IsValid}

sequential_from-append :
    (n : ℕ) (ps : List Plan) (p : Plan)
    → sequential_from n (ps ++ (p ∷ [])) ≡ (sequential_from n ps && p.revision == n + length ps)
sequential_from-append n [] p = ground arith
sequential_from-append n (q ∷ ps) p = ground (arith, sequential_from-append (suc n) ps p)

all_planned-append_plan :
    (ps : List Plan) (p : Plan) (es : List StepExecution)
    → all_planned ps es ≡ true
    → all_planned (ps ++ (p ∷ [])) es ≡ true
all_planned-append_plan ps p [] h = refl
all_planned-append_plan ps p (e ∷ es) h =
    ground (
      arith,
      all_planned-append_plan ps p es,
      any-append (plan_has e.revision e.step_id) ps (p ∷ []),
    )

-- After the other executions are kept, no execution has the key of `e`.
absent-other_executions :
    (e : StepExecution) (es : List StepExecution)
    → any (has_key e.revision e.step_id) (other_executions e es) ≡ false
absent-other_executions e [] = refl
absent-other_executions e (x ∷ es) = ground (arith, absent-other_executions e es)

any_key-other_executions :
    (e x : StepExecution) (es : List StepExecution)
    → any (has_key x.revision x.step_id) es ≡ false
    → any (has_key x.revision x.step_id) (other_executions e es) ≡ false
any_key-other_executions e x [] h = refl
any_key-other_executions e x (y ∷ es) h = ground (arith, any_key-other_executions e x es)

distinct_keys-other_executions :
    (e : StepExecution) (es : List StepExecution)
    → distinct_keys es ≡ true
    → distinct_keys (other_executions e es) ≡ true
distinct_keys-other_executions e [] h = refl
distinct_keys-other_executions e (x ∷ es) h =
    ground (arith, distinct_keys-other_executions e es, any_key-other_executions e x es)

-- Keys that differ one way differ the other way.
has_key_sym :
    (e x : StepExecution) → has_key e.revision e.step_id x ≡ has_key x.revision x.step_id e
has_key_sym e x = ground (arith, eq_iff x.step_id e.step_id, eq_iff e.step_id x.step_id)

distinct_keys-snoc :
    (e : StepExecution) (es : List StepExecution)
    → distinct_keys es ≡ true
    → any (has_key e.revision e.step_id) es ≡ false
    → distinct_keys (es ++ (e ∷ [])) ≡ true
distinct_keys-snoc e [] h a = refl
distinct_keys-snoc e (x ∷ es) h a = ground (
  arith,
  distinct_keys-snoc e es,
  has_key_sym e x,
  any-append (has_key x.revision x.step_id) es (e ∷ []),
)

-- The state with the execution of its step replaced and put last.
abbrev pub updated : AgentState → StepExecution → AgentState
updated s e = record s { step_executions = other_executions e s.step_executions ++ (e ∷ []) }

all_planned-updated :
    (s : AgentState) (e : StepExecution)
    → all_planned s.plan_history s.step_executions ≡ true
    → all_planned s.plan_history (other_executions e s.step_executions ++ (e ∷ []))
      ≡ is_planned s.plan_history e.revision e.step_id
all_planned-updated s e planned =
    let fits = λ (x : StepExecution). is_planned s.plan_history x.revision x.step_id in
    let others = λ (x : StepExecution). not (has_key e.revision e.step_id x) in
    rw (all-append fits (other_executions e s.step_executions) (e ∷ []))
      (rw (all-keep fits others s.step_executions planned) (ground arith))

keys_distinct-updated :
    (s : AgentState) (e : StepExecution)
    → distinct_keys s.step_executions ≡ true
    → distinct_keys (other_executions e s.step_executions ++ (e ∷ [])) ≡ true
keys_distinct-updated s e h =
    distinct_keys-snoc e (other_executions e s.step_executions)
      (distinct_keys-other_executions e s.step_executions h)
      (absent-other_executions e s.step_executions)

pub updated-IsValid :
    (s : AgentState) (e : StepExecution)
    → IsValid s
    → is_planned s.plan_history e.revision e.step_id ≡ true
    → IsValid (updated s e)
updated-IsValid s e v h = record {
  goal_given = v.goal_given;
  sequential = v.sequential;
  goals_match = v.goals_match;
  keys_distinct = keys_distinct-updated s e v.keys_distinct;
  planned = all_planned-updated s e v.planned ∙ h;
}

-- On a valid state `with_step_execution` returns the updated state when the execution belongs to
-- a step of a recorded plan, and raises otherwise.
pub with_step_execution_lem :
    (s : AgentState) (e : StepExecution)
    → IsValid s
    → with_step_execution s e ≡ (
        if is_planned s.plan_history e.revision e.step_id
        then ok (updated s e)
        else err (value_error "step execution must be associated with a plan step"))
unfolding with_step_execution new_agent_state require_text
with_step_execution_lem s e v = elim (Bool-cases (is_planned s.plan_history e.revision e.step_id)) [
  | inl h ↦ rw h (new_agent_state_of_valid (updated s e) (updated-IsValid s e v h))
  | inr h ↦ rw h (
      rw
        (
          v.goal_given,
          v.sequential,
          v.goals_match,
          keys_distinct-updated s e v.keys_distinct,
          all_planned-updated s e v.planned,
          h,
        )
        refl)
]

absent_at_key :
    (e : StepExecution) (r : ℕ) (i : String) (es : List StepExecution)
    → has_key r i e ≡ true
    → any (has_key r i) (other_executions e es) ≡ false
absent_at_key e r i [] h = refl
absent_at_key e r i (x ∷ es) h = ground (
  arith,
  absent_at_key e r i es,
  eq_iff x.step_id e.step_id,
  eq_iff x.step_id i,
  eq_iff e.step_id i,
)

find-other_executions :
    (e : StepExecution) (r : ℕ) (i : String) (es : List StepExecution)
    → has_key r i e ≡ false
    → find (has_key r i) (other_executions e es) ≡ find (has_key r i) es
find-other_executions e r i [] h = refl
find-other_executions e r i (x ∷ es) h = ground (
  arith,
  find-other_executions e r i es,
  eq_iff x.step_id e.step_id,
  eq_iff x.step_id i,
  eq_iff e.step_id i,
)

-- The lookup of a step finds the new execution at its own key, and what it found before at
-- every other key.
pub execution_for-updated :
    (s : AgentState) (e : StepExecution) (r : ℕ) (i : String)
    → execution_for (updated s e) r i ≡ (if has_key r i e then some e else execution_for s r i)
execution_for-updated s e r i =
    rw (find-snoc (has_key r i) (other_executions e s.step_executions) e)
      (elim (Bool-cases (has_key r i e)) [
        | inl same ↦ rw same (ground (arith, absent_at_key e r i s.step_executions same))
        | inr other ↦ rw other (
            ground (
              arith,
              find_of_absent (has_key r i) (other_executions e s.step_executions),
              find-other_executions e r i s.step_executions other,
            ))
      ])

-- The state that `with_step_execution` returns is valid.
pub with_step_execution-IsValid :
    (s : AgentState) (e : StepExecution) {t : AgentState}
    → with_step_execution s e ≡ ok t
    → IsValid t
unfolding with_step_execution
with_step_execution-IsValid s e h =
    (new_agent_state-IsValid s.goal s.plan_history
      (other_executions e s.step_executions ++ (e ∷ [])) s.memory_summary h).0

-- The state with the plan appended.
abbrev pub planned_state : AgentState → Plan → AgentState
planned_state s p = record s { plan_history = s.plan_history ++ (p ∷ []) }

-- On a valid state `with_plan` appends the plan when its revision is the next one and its goal is
-- the state's, and raises otherwise.
pub with_plan_lem :
    (s : AgentState) (p : Plan)
    → IsValid s
    → with_plan s p ≡ (
        if p.revision == suc (length s.plan_history)
        then if p.goal == s.goal
          then ok (planned_state s p)
          else err (value_error "plan goal must match agent state goal")
        else err (value_error "plan revisions must be sequential"))
unfolding with_plan new_agent_state require_text
with_plan_lem s p v =
    rw
      (
        v.goal_given,
        v.keys_distinct,
        sequential_from-append 1 s.plan_history p,
        v.sequential,
        all-append (λ (q : Plan). q.goal == s.goal) s.plan_history (p ∷ []),
        v.goals_match,
        all_planned-append_plan s.plan_history p s.step_executions v.planned,
      )
      (ground arith)

pub with_plan-IsValid :
    (s : AgentState) (p : Plan) {t : AgentState} → with_plan s p ≡ ok t → IsValid t
unfolding with_plan
with_plan-IsValid s p h =
    (new_agent_state-IsValid s.goal (s.plan_history ++ (p ∷ [])) s.step_executions s.memory_summary
      h).0

pub with_step_execution-updated :
    (s t : AgentState) (e : StepExecution) → with_step_execution s e ≡ ok t → t ≡ updated s e
unfolding with_step_execution
with_step_execution-updated s t e h =
    (new_agent_state-IsValid s.goal s.plan_history
      (other_executions e s.step_executions ++ (e ∷ [])) s.memory_summary h).1

-- When `with_step_execution` returns a state, `execution_for` finds the execution given at its
-- revision and step, and at every other what the state before had.
pub execution_for-with_step_execution :
    (s t : AgentState) (e : StepExecution) (r : ℕ) (i : String)
    → with_step_execution s e ≡ ok t
    → execution_for t r i ≡ (if has_key r i e then some e else execution_for s r i)
execution_for-with_step_execution s t e r i h =
    ap (λ x. execution_for x r i) (with_step_execution-updated s t e h)
    ∙ execution_for-updated s e r i
