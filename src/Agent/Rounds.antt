-- ===== src/Agent/Rounds.antt =====
-- agent/agent.py: what one round of the coordinator's loop does to a valid state.
use codex_py.Base.Effect.{lift, pure, bind-eq-ok, Run}
use codex_py.State.{is_nil, Plan}
use codex_py.Agent.{
  ensure_plan, last_plan, run_steps, blocked, after_steps, finished, round, round_from, again,
  append_plan, replan_after_failure, step_failed, done, step_completed, Turn, AgentResult,
  AgentStatus,
}
use codex_py.Base.{
  Bool, refl, sym, ◌<◌, Bool-cases, false, inl, inr, nat_beq_iff, nat_eq, string_eq, subst, ◌==◌,
  ◌∙◌, List, String, [], all, any, ap, arith, is_some, last, length, length-append, ok, some, suc,
  true, ℕ, ◌+◌, ◌∷◌, ◌≡◌, ◌≢◌,
}
use codex_py.Agent.Walk.{run_steps-Walked, Walked}
use Prim.Native.Nat.{max}
use codex_py.Agent.Steps.{IsHonest}
use codex_py.State.Context.{ExecutionOutcome}
use codex_py.State.Agent.{sequential_from, with_plan, AgentState}
use codex_py.State.Agent.Valid.{IsValid}
use codex_py.State.Agent.Update.{planned_state, with_plan_lem, with_plan-IsValid}

-- What a result means: every step of the last plan is completed, or its third revision has failed.
abbrev pub Ends : AgentStatus → AgentState → Plan → Type 0
Ends finished s p = all (step_completed s p) p.steps ≡ true
Ends blocked s p = (p.revision ≡ 3) × (any (step_failed s p) p.steps ≡ true)

pub record IsFinal (r : AgentResult) : Type 0 where
  pub valid : IsValid r.state
  pub plan : Plan
  pub current : last r.state.plan_history ≡ some plan
  pub ends : Ends r.status r.state plan

-- A round that goes on has appended one plan, and did not stand at the third revision.
pub record Grows (s t : AgentState) : Type 0 where
  pub valid : IsValid t
  pub grown : length t.plan_history ≡ suc (length s.plan_history)
  pub below : length s.plan_history ≢ 3

abbrev pub After : AgentState → Turn → Type 0
After s (done r) = IsFinal r
After s (again t) = Grows s t

last_revision_from :
    (n : ℕ) (ps : List Plan) (p : Plan)
    → sequential_from n ps ≡ true
    → last ps ≡ some p
    → suc p.revision ≡ n + length ps
last_revision_from n [] p h e = cc
last_revision_from n (q ∷ []) p h e = ground (arith, ap is_some e)
last_revision_from n (q ∷ q' ∷ ps) p h e =
    omega (arith, last_revision_from (suc n) (q' ∷ ps) p (ground arith) e)

-- The last plan's revision is the number of plans.
pub last_revision :
    (s : AgentState) (p : Plan)
    → IsValid s
    → last s.plan_history ≡ some p
    → p.revision ≡ length s.plan_history
last_revision s p v e = omega (arith, last_revision_from 1 s.plan_history p v.sequential e)

length-planned_state :
    (s : AgentState) (p : Plan)
    → length (planned_state s p).plan_history ≡ suc (length s.plan_history)
length-planned_state s p = omega (arith, length-append s.plan_history (p ∷ []))

with_plan-length :
    (s t : AgentState) (p : Plan)
    → IsValid s
    → with_plan s p ≡ ok t
    → length t.plan_history ≡ suc (length s.plan_history)
with_plan-length s t p v h =
    let same : t ≡ planned_state s p = ground (arith, with_plan_lem s p v) in
    rw same (length-planned_state s p)

returned {ℓ} :
    {W : Type 0} {A : Type ℓ} {a b : A} {w w' : W} → pure {W = W} {A = A} a w ≡ (ok b, w') → a ≡ b
returned h = cc

last_plan-ok : (m : AgentState) (p : Plan) → last_plan m ≡ ok p → last m.plan_history ≡ some p
last_plan-ok m p h = ground arith

length_of_nil : (ps : List Plan) → is_nil ps ≡ true → length ps ≡ 0
length_of_nil [] h = refl
length_of_nil (p ∷ ps) h = cc

length_of_given : (ps : List Plan) → is_nil ps ≡ false → 0 < length ps
length_of_given [] h = cc
length_of_given (p ∷ ps) h = omega arith

same_length :
    (s t : AgentState) (turn : Turn) → t.plan_history ≡ s.plan_history → After t turn → After s turn
same_length s t (done r) e f = f
same_length s t (again u) e g = record {
  valid = g.valid;
  grown = g.grown ∙ ap (λ ps. suc (length ps)) e;
  below = λ three. g.below (ap length e ∙ three);
}

module _ {W : Type 0} (planner : AgentState → Run W Plan)
    (executor : AgentState → ℕ → String → Run W ExecutionOutcome) where
  append_plan-ok :
      (s t : AgentState) (w w' : W)
      → IsValid s
      → append_plan planner executor s w ≡ (ok t, w')
      → IsValid t × (length t.plan_history ≡ suc (length s.plan_history))
  unfolding append_plan
  append_plan-ok s t w w' v h =
      let (p, u, asked, added) = bind-eq-ok (planner s) _ w h in
      (with_plan-IsValid s p (ap (λ r. r.0) added), with_plan-length s t p v (ap (λ r. r.0) added))

  replan-After :
      (s : AgentState) (plan : Plan) (turn : Turn) (w w' : W)
      → IsValid s
      → last s.plan_history ≡ some plan
      → any (step_failed s plan) plan.steps ≡ true
      → replan_after_failure planner executor s plan w ≡ (ok turn, w')
      → After s turn
  unfolding replan_after_failure
  replan-After s plan turn w w' v current lost h = elim (Bool-cases (plan.revision == 3)) [
    | inl third ↦ subst (After s) (returned (rw third at h)) (record {
      valid = v;
      plan = plan;
      current = current;
      ends = ((nat_beq_iff plan.revision 3).0 third, lost);
    })
    | inr earlier ↦
        let (t, u, added, rest) =
          bind-eq-ok (append_plan planner executor s) _ w (rw earlier at h) in
        let (valid, grown) = append_plan-ok s t w u v added in
        subst (After s) (returned rest) (record {
          valid = valid;
          grown = grown;
          below = ground (arith, last_revision s plan v current);
        })
  ]

  after_steps-After :
      (s t : AgentState) (plan : Plan) (stop : Bool) (turn : Turn) (w w' : W)
      → last s.plan_history ≡ some plan
      → Walked s t plan plan.steps stop
      → after_steps planner executor plan (stop, t) w ≡ (ok turn, w')
      → After t turn
  unfolding after_steps
  after_steps-After s t plan true turn w w' current walked h =
      replan-After t plan turn w w' walked.valid (ap last walked.history ∙ current) walked.flag h
  after_steps-After s t plan false turn w w' current walked h =
      subst (After t) (returned (rw walked.flag at h)) (record {
        valid = walked.valid;
        plan = plan;
        current = ap last walked.history ∙ current;
        ends = walked.flag;
      })

  round_from-After :
      (s : AgentState) (plan : Plan) (turn : Turn) (w w' : W)
      → IsHonest executor
      → IsValid s
      → last s.plan_history ≡ some plan
      → round_from planner executor s plan w ≡ (ok turn, w')
      → After s turn
  unfolding round_from
  round_from-After s plan turn w w' honest v current h =
      elim (Bool-cases (any (step_failed s plan) plan.steps)) [
        | inl lost ↦ replan-After s plan turn w w' v current lost (rw lost at h)
        | inr fresh ↦
            let ((stop, t), u, walk, rest) =
              bind-eq-ok (run_steps planner executor plan plan.steps s) _ w (rw fresh at h) in
            let walked =
              run_steps-Walked planner executor honest plan plan.steps s t stop w u v walk in
            same_length s t turn walked.history
              (after_steps-After s t plan stop turn u w' current walked rest)
      ]

  ensure_plan-ok :
      (s m : AgentState) (w w' : W)
      → IsValid s
      → ensure_plan planner executor s w ≡ (ok m, w')
      → IsValid m × (length m.plan_history ≡ max 1 (length s.plan_history))
  unfolding ensure_plan
  ensure_plan-ok s m w w' v h = elim (Bool-cases (is_nil s.plan_history)) [
    | inl empty ↦
        let (valid, grown) = append_plan-ok s m w w' v (rw empty at h) in
        (valid, omega (arith, length_of_nil s.plan_history empty))
    | inr given ↦
        let same : s ≡ m = returned (rw given at h) in
        (
          subst IsValid same v,
          ap (λ t. length t.plan_history) (sym same)
              ∙ omega (arith, length_of_given s.plan_history given),
        )
  ]

  -- A round from a valid state ends the run, or goes on with one more plan.
  pub round-After :
      (s : AgentState) (turn : Turn) (w w' : W)
      → IsHonest executor
      → IsValid s
      → round planner executor s w ≡ (ok turn, w')
      → (m : AgentState) × (length m.plan_history ≡ max 1 (length s.plan_history)) × After m turn
  unfolding round
  round-After s turn w w' honest v h =
      let (m, u, ensured, rest) = bind-eq-ok (ensure_plan planner executor s) _ w h in
      let (valid, long) = ensure_plan-ok s m w u v ensured in
      let (plan, u', chosen, rest') = bind-eq-ok (lift (last_plan m)) _ u rest in
      (
        m,
        long,
        round_from-After m plan turn u' w' honest valid (last_plan-ok m plan (ap (λ r. r.0) chosen))
            rest',
      )
