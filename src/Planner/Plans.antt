-- ===== src/Planner/Plans.antt =====
-- agent/planner.py: the plans that the Planner returns.
use codex_py.LineProtocol.Decoded.{decode_plan-ok}
use codex_py.LineProtocol.Plans.{decode_plan, plan_instructions}
use codex_py.Planner.{state_payload, translated, plan, requested_plan}
use codex_py.Base.Json.{str, Json}
use codex_py.TextStream.Answers.{validated_text-ok}
use codex_py.State.Agent.Update.{planned_state, with_plan_lem}
use codex_py.State.Codec.RoundTrip.{is_valid_plan}
use codex_py.State.Agent.Valid.{IsValid}
use codex_py.State.{Plan}
use codex_py.State.Agent.{AgentState, with_plan}
use codex_py.Base.{
  Result, Option, String, Bool-cases, Error, ap, arith, eq_iff, err, inl, inr, length, ltb, ok,
  true, ℕ, ◌+◌, ◌∙◌, ◌≡◌,
}
use codex_py.Base.Effect.{Run}

module _ {W : Type 0} (loads : String → Result Json) (dumps : Json → String)
    (request : String → String → Run W String) (on_retry : Error → Run W (Unit {0})) where
  requested_plan-ok :
      (s : AgentState) (input : Option Json) (expected : ℕ) (p : Plan) (w w' : W)
      → requested_plan loads dumps request on_retry s input expected w ≡ (ok p, w')
      → (p.revision ≡ expected) × (p.goal ≡ s.goal) × (is_valid_plan p ≡ true)
  unfolding requested_plan
  requested_plan-ok s input expected p w w' h =
      let (output, decoded) =
        validated_text-ok (λ t. dumps (str t)) (request (dumps (state_payload s input)))
          plan_instructions (λ output. decode_plan loads output s.goal expected) on_retry p w w'
          h in
      decode_plan-ok loads output s.goal expected p decoded

  translated-ok : {A : Type 0} (r : Result A) (a : A) → translated r ≡ ok a → r ≡ ok a
  translated-ok (ok x) a h = h
  translated-ok (err e) a h = cc

  -- A plan that the Planner returns for a valid state is one that `with_plan` accepts: the next
  -- revision, at most the third, of the state's goal. The coordinator never raises for it.
  pub plan-with_plan :
      (s : AgentState) (input : Option Json) (p : Plan) (w w' : W)
      → IsValid s
      → plan loads dumps request on_retry s input w ≡ (ok p, w')
      → (with_plan s p ≡ ok (planned_state s p)) × (is_valid_plan p ≡ true)
  unfolding plan
  plan-with_plan s input p w w' v h = elim (Bool-cases (ltb 3 (length s.plan_history + 1))) [
    | inl over ↦ let h' = rw over at h in cc
    | inr within ↦
        let h' = rw within at h in
        let asked =
          requested_plan loads dumps request on_retry s input (length s.plan_history + 1) w in
        let answer = translated-ok asked.0 p (ap (λ x. x.0) h') in
        let (revision, goal, valid) =
          requested_plan-ok s input (length s.plan_history + 1) p w asked.1
            (ground (arith, answer)) in
        (with_plan_lem s p v ∙ ground (arith, revision, goal, eq_iff p.goal s.goal), valid)
  ]
