-- ===== src/Durable/Recovered.antt =====
-- agent/durable.py: the agent state that a run recovers from the recovery store.
use codex_py.Base.{
  Bool, ap₂, sym, if◌then◌else◌, nat_eq, Bool-cases, List, Option, String, >>=-eq-ok, [], all, any,
  ap, arith, eq_iff, false, find, inl, inr, keep, none, ok, refl, some, string_eq, true, ℕ, ◌&&◌,
  ◌==◌, ◌∙◌, ◌∷◌, ◌≡◌, ◌||◌,
}
use codex_py.State.Agent.{with_step_execution, AgentState, distinct_keys, execution_for, has_key}
use codex_py.Durable.Recover.{recovered_from, restore_recovery_state, Recovered}
use codex_py.Recovery.{
  Latest, latest_of, put_latest, snapshot_of, values, RecoveryAttempt, RecoverySnapshot,
}
use codex_py.Recovery.Snapshots.{
  is_own, last_execution, latest_executions-snapshot_of, own_entries, own_entries-put_latest,
  same_step,
}
use codex_py.State.{StepExecution}
use codex_py.State.Agent.Update.{execution_for-with_step_execution}
use codex_py.State.Context.{new_step_context}

-- The execution of a step when executions are written one after the other.
abbrev known_after : ℕ → String → Option StepExecution → List StepExecution → Option StepExecution
known_after r i known [] = known
known_after r i known (e ∷ es) = known_after r i (if has_key r i e then some e else known) es

execution_for-restore_recovery_state :
    (s t : AgentState) (es : List StepExecution) (r : ℕ) (i : String)
    → restore_recovery_state s es ≡ ok t
    → execution_for t r i ≡ known_after r i (execution_for s r i) es
unfolding restore_recovery_state
execution_for-restore_recovery_state s t [] r i h =
    let same : t ≡ s = cc in ap (λ x. execution_for x r i) same
execution_for-restore_recovery_state s t (e ∷ es) r i h =
    let (u, made, rest) = >>=-eq-ok (with_step_execution s e) _ h in
    execution_for-restore_recovery_state u t es r i rest
    ∙ ap (λ k. known_after r i k es) (execution_for-with_step_execution s u e r i made)

abbrev pub or_else : Option StepExecution → Option StepExecution → Option StepExecution
or_else none known = known
or_else (some e) known = some e

known_after_absent :
    (r : ℕ) (i : String) (known : Option StepExecution) (es : List StepExecution)
    → any (has_key r i) es ≡ false
    → known_after r i known es ≡ known
known_after_absent r i known [] h = refl
known_after_absent r i known (e ∷ es) h = ground (arith, known_after_absent r i known es)

-- Keys that are the same are had by the same executions.
same_absent :
    (r : ℕ) (i : String) (e : StepExecution) (es : List StepExecution)
    → has_key r i e ≡ true
    → any (has_key e.revision e.step_id) es ≡ false
    → any (has_key r i) es ≡ false
same_absent r i e [] h k = refl
same_absent r i e (x ∷ es) h k = ground (
  arith,
  same_absent r i e es h,
  eq_iff e.step_id i,
  eq_iff x.step_id i,
  eq_iff x.step_id e.step_id,
)

known_after-find :
    (r : ℕ) (i : String) (known : Option StepExecution) (es : List StepExecution)
    → distinct_keys es ≡ true
    → known_after r i known es ≡ or_else (find (has_key r i) es) known
known_after-find r i known [] h = refl
known_after-find r i known (e ∷ es) h = elim (Bool-cases (has_key r i e)) [
  | inl same ↦
      let absent = same_absent r i e es same (ground (arith, h)) in
      rw same (known_after_absent r i (some e) es absent)
  | inr other ↦ rw other (known_after-find r i known es (ground (arith, h)))
]

-- Two executions that are each of its entry's step, when the entries are of one step.
same_keys :
    (r s : ℕ) (i j : String) (e x : StepExecution)
    → has_key r i e ≡ true
    → has_key s j x ≡ true
    → (s == r && j == i) ≡ true
    → (x.revision ≡ e.revision) × (x.step_id ≡ e.step_id)
same_keys r s i j e x own own' same =
    let p = (eq_iff e.step_id i).0 (ground (arith, own)) in
    let q = (eq_iff x.step_id j).0 (ground (arith, own')) in
    let k = (eq_iff j i).0 (ground (arith, same)) in
    (ground (arith, own, own', same), q ∙ k ∙ sym p)

apart_keys :
    (r s : ℕ) (i j : String) (e x : StepExecution)
    → has_key r i e ≡ true
    → has_key s j x ≡ true
    → (s == r && j == i) ≡ false
    → has_key x.revision x.step_id e ≡ false
apart_keys r s i j e x own own' other =
    let p = (eq_iff e.step_id i).0 (ground (arith, own)) in
    let q = (eq_iff x.step_id j).0 (ground (arith, own')) in
    rw (p, q) (ground (arith, own, own', other, eq_iff i j, eq_iff j i))

or_swap : (a b c : Bool) → (a || (b || c)) ≡ (b || (a || c))
or_swap a b c = ground arith

or_same : (a b : Bool) → (a || b) ≡ (a || (a || b))
or_same a b = ground arith

any-put_latest :
    (r : ℕ) (i : String) (e : StepExecution) (r' : ℕ) (i' : String) (d : Latest)
    → has_key r i e ≡ true
    → own_entries d ≡ true
    → any (has_key r' i') (values (put_latest r i e d))
      ≡ (has_key r' i' e || any (has_key r' i') (values d))
unfolding put_latest
any-put_latest r i e r' i' [] own h = refl
any-put_latest r i e r' i' ((s, j, x) ∷ d) own h = elim (Bool-cases (s == r && j == i)) [
  | inl same ↦
      let (p, q) = same_keys r s i j e x own (ground (arith, h)) same in
      let alike : has_key r' i' x ≡ has_key r' i' e = ap₂ (λ u v. u == r' && v == i') p q in
      rw (same, alike) (or_same (has_key r' i' e) (any (has_key r' i') (values d)))
  | inr other ↦
      rw (other, any-put_latest r i e r' i' d own (ground (arith, h)))
        (or_swap (has_key r' i' x) (has_key r' i' e) (any (has_key r' i') (values d)))
]

distinct_keys-put_latest :
    (r : ℕ) (i : String) (e : StepExecution) (d : Latest)
    → has_key r i e ≡ true
    → own_entries d ≡ true
    → distinct_keys (values d) ≡ true
    → distinct_keys (values (put_latest r i e d)) ≡ true
unfolding put_latest
distinct_keys-put_latest r i e [] own h v = refl
distinct_keys-put_latest r i e ((s, j, x) ∷ d) own h v = elim (Bool-cases (s == r && j == i)) [
  | inl same ↦
      let (p, q) = same_keys r s i j e x own (ground (arith, h)) same in
      let x_is : has_key e.revision e.step_id x ≡ true =
        ground (arith, p, (eq_iff x.step_id e.step_id).1 q) in
      let absent = same_absent e.revision e.step_id x (values d) x_is (ground arith) in
      rw same (ground (arith, absent))
  | inr other ↦
      let later = distinct_keys-put_latest r i e d own (ground arith) (ground arith) in
      let fresh = apart_keys r s i j e x own (ground (arith, h)) other in
      rw other (
        ground
          (arith, later, fresh, any-put_latest r i e x.revision x.step_id d own (ground arith)))
]

distinct_keys-latest_of :
    (d : Latest) (attempts : List RecoveryAttempt)
    → all is_own attempts ≡ true
    → own_entries d ≡ true
    → distinct_keys (values d) ≡ true
    → distinct_keys (values (latest_of d attempts)) ≡ true
unfolding latest_of
distinct_keys-latest_of d [] own h v = v
distinct_keys-latest_of d (a ∷ rest) own h v =
    distinct_keys-latest_of (put_latest a.revision a.step_id a.execution d) rest (ground arith)
      (own_entries-put_latest a.revision a.step_id a.execution d (ground arith) h)
      (distinct_keys-put_latest a.revision a.step_id a.execution d (ground arith) h v)

distinct_keys-snapshot_of :
    (attempts : List RecoveryAttempt) (version : ℕ) (snapshot : RecoverySnapshot)
    → all is_own attempts ≡ true
    → snapshot_of attempts version ≡ ok snapshot
    → distinct_keys snapshot.latest_executions ≡ true
unfolding snapshot_of
distinct_keys-snapshot_of attempts version snapshot own h =
    let (context, _, made) = >>=-eq-ok (new_step_context _ _ _) _ h in
    let listed : snapshot.latest_executions ≡ values (latest_of [] attempts) = cc in
    ap distinct_keys listed ∙ distinct_keys-latest_of [] attempts own refl refl

-- When every attempt's execution is of the attempt's revision and step, what a run recovers from
-- the snapshot of the attempts, where nothing is raised, is an agent state in which each step has
-- the execution of its last record, and a step without records the execution that it had in the
-- state of the checkpoint.
pub recovered_from-last_execution :
    (s : AgentState) (attempts : List RecoveryAttempt) (version : ℕ) (snapshot : RecoverySnapshot)
    (recovered : Recovered)
    → all is_own attempts ≡ true
    → snapshot_of attempts version ≡ ok snapshot
    → recovered_from s snapshot ≡ ok recovered
    → (t : AgentState) × (recovered.state ≡ some t)
      × ((r : ℕ) (i : String)
          → execution_for t r i
            ≡ or_else (last_execution (keep (same_step r i) attempts)) (execution_for s r i))
unfolding recovered_from
recovered_from-last_execution s attempts version snapshot recovered own made h =
    let (t, restored, rest) = >>=-eq-ok (restore_recovery_state s snapshot.latest_executions) _ h in
    let (_, _, latest) = latest_executions-snapshot_of attempts version snapshot own made in
    (
      t,
      cc,
      λ r i.
          execution_for-restore_recovery_state s t snapshot.latest_executions r i restored
          ∙ known_after-find r i (execution_for s r i) snapshot.latest_executions
              (distinct_keys-snapshot_of attempts version snapshot own made)
          ∙ ap (λ e. or_else e (execution_for s r i)) (latest r i),
    )
