-- ===== src/Agent/Results.antt =====
-- agent/agent.py: the coordinator ends within three rounds, and what its result means.
use codex_py.Base.Effect.{pure, lift, bind-eq-ok, Run}
use codex_py.Base.{
  Bool-cases, ap, inl, inr, subst, ℕ, String, Option, arith, length, none, ok, some, suc, zero, ◌+◌,
  ◌≡◌, ◌≢◌, ◌≤◌, ◌⊎◌,
}
use codex_py.Agent.{
  again, apply_recovery_decision, done, round, unless_done, Turn, run, loop, blocked, AgentResult,
}
use codex_py.Agent.Decision.{apply_recovery_decision-ok}
use Prim.Native.Nat.{max}
use codex_py.State.Agent.Valid.{IsValid}
use codex_py.Agent.Steps.{IsHonest}
use codex_py.State.Context.{ExecutionOutcome}
use codex_py.State.{Plan}
use codex_py.State.Agent.{AgentState}
use codex_py.Agent.Rounds.{IsFinal, After, round-After}

-- What a run leaves: the decision blocked it, or the loop has ended.
abbrev pub Meaning : Option String → AgentResult → Type 0
Meaning recovery r = ((r.status ≡ blocked) × (recovery ≡ some "abort")) ⊎ IsFinal r

module _ {W : Type 0} where
  stopped :
      (t : AgentState) (r : AgentResult) (u w' : W)
      → pure {W = W} {A = Option AgentResult} (some (record { status = blocked; state = t })) u
        ≡ (ok (some r), w')
      → r.status ≡ blocked
  stopped t r u w' h = ground arith

  unless_done-ne-none :
      (rest : AgentState → Run W (Option AgentResult)) (fuel : ℕ) (m : AgentState) (turn : Turn)
      (u w' : W)
      → length m.plan_history ≤ 3
      → 3 ≤ fuel + length m.plan_history
      → After m turn
      → ((t : AgentState)
          → IsValid t
          → length t.plan_history ≤ 3
          → 4 ≤ fuel + max 1 (length t.plan_history)
          → rest t u ≢ (ok none, w'))
      → unless_done rest turn u ≢ (ok none, w')
  unless_done-ne-none rest fuel m (done r) u w' short enough after ih h = cc
  unless_done-ne-none rest fuel m (again t) u w' short enough g ih h =
      let below = g.below in let grown = g.grown in ih t g.valid (omega arith) (omega arith) h

  unless_done-IsFinal :
      (rest : AgentState → Run W (Option AgentResult)) (m : AgentState) (turn : Turn)
      (r : AgentResult) (u w' : W)
      → After m turn
      → ((t : AgentState) → IsValid t → rest t u ≡ (ok (some r), w') → IsFinal r)
      → unless_done rest turn u ≡ (ok (some r), w')
      → IsFinal r
  unless_done-IsFinal rest m (done r') r u w' final ih h = subst IsFinal (cc) final
  unless_done-IsFinal rest m (again t) r u w' g ih h = ih t g.valid h

module _ {W : Type 0} (planner : AgentState → Run W Plan)
    (executor : AgentState → ℕ → String → Run W ExecutionOutcome) (honest : IsHonest executor) where
  loop-ne-none :
      (fuel : ℕ) (s : AgentState) (w w' : W)
      → IsValid s
      → length s.plan_history ≤ 3
      → 4 ≤ fuel + max 1 (length s.plan_history)
      → loop planner executor fuel s w ≢ (ok none, w')
  unfolding loop
  loop-ne-none zero s w w' v short enough h = absurd (omega arith)
  loop-ne-none (suc fuel) s w w' v short enough h =
      let (turn, u, rounded, rest) = bind-eq-ok (round planner executor s) _ w h in
      let (m, long, after) = round-After planner executor s turn w u honest v rounded in
      unless_done-ne-none (loop planner executor fuel) fuel m turn u w' (omega arith) (omega arith)
        after (λ t. loop-ne-none fuel t u w') rest

  loop-IsFinal :
      (fuel : ℕ) (s : AgentState) (r : AgentResult) (w w' : W)
      → IsValid s
      → loop planner executor fuel s w ≡ (ok (some r), w')
      → IsFinal r
  unfolding loop
  loop-IsFinal zero s r w w' v h = cc
  loop-IsFinal (suc fuel) s r w w' v h =
      let (turn, u, rounded, rest) = bind-eq-ok (round planner executor s) _ w h in
      let (m, long, after) = round-After planner executor s turn w u honest v rounded in
      unless_done-IsFinal (loop planner executor fuel) m turn r u w' after
        (λ t v'. loop-IsFinal fuel t r u w' v') rest

  -- From a valid state with at most three plans and with an honest Executor, three rounds are
  -- enough: whatever the Planner and the Executor do, the run does not go round a fourth time.
  -- It returns a result or raises.
  pub run-ne-none :
      (fuel : ℕ) (s : AgentState) (recovery : Option String) (w w' : W)
      → IsValid s
      → length s.plan_history ≤ 3
      → 3 ≤ fuel
      → run planner executor fuel s recovery w ≢ (ok none, w')
  unfolding run
  run-ne-none fuel s recovery w w' v short enough h =
      let ((t, abort), u, decided, rest) =
        bind-eq-ok (lift (apply_recovery_decision s recovery)) _ w h in
      let (valid, history, _) =
        apply_recovery_decision-ok s recovery t abort v (ap (λ r. r.0) decided) in
      elim (Bool-cases abort) [
        | inl stop ↦ let rest' = rw stop at rest in cc
        | inr go ↦ loop-ne-none fuel t u w' valid (rw history short) (omega arith) (rw go at rest)
      ]

  -- With an honest Executor, a run that starts in a valid state and returns a result was
  -- stopped by an `abort` decision, or ends in a valid state in which every step of the last
  -- plan is completed (`finished`), or in which the third revision has a failed step
  -- (`blocked`).
  pub run-Meaning :
      (fuel : ℕ) (s : AgentState) (recovery : Option String) (r : AgentResult) (w w' : W)
      → IsValid s
      → run planner executor fuel s recovery w ≡ (ok (some r), w')
      → Meaning recovery r
  unfolding run
  run-Meaning fuel s recovery r w w' v h =
      let ((t, abort), u, decided, rest) =
        bind-eq-ok (lift (apply_recovery_decision s recovery)) _ w h in
      let (valid, history, asked) =
        apply_recovery_decision-ok s recovery t abort v (ap (λ r. r.0) decided) in
      elim (Bool-cases abort) [
        | inl stop ↦ inl (stopped t r u w' (rw stop at rest), asked stop)
        | inr go ↦ inr (loop-IsFinal fuel t r u w' valid (rw go at rest))
      ]
