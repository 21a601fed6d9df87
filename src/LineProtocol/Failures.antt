-- ===== src/LineProtocol/Failures.antt =====
-- llm/line_protocol.py: what `decode_plan` raises.
use codex_py.Base.{
  Error, Bool, List, Result, String, [], arith, nat_eq, refl, string_eq, traverse, true, ℕ, ◌&&◌,
  ◌∷◌, ◌≡◌,
}
use codex_py.LineProtocol.{children_of, same_set, require, ParsedBlock, single}
use codex_py.LineProtocol.Plans.{
  is_revision, has_steps, has_plan_fields, decode_plan, plan_of, all_texts, step_keys, or_reject,
  decode_step,
}
use codex_py.LineProtocol.Rejects.{
  RaisesOnly, parse_line_protocol-rejects, rejects-require, rejects-bind, rejects,
}
use codex_py.LineProtocol.Parser.{parse_line_protocol}
use codex_py.LineProtocol.Decode.{has_type, field_names, is_leaf, nonempty_text}
use codex_py.State.{PlanStep, require_revision, require_text, new_plan, new_plan_step}
use codex_py.Base.Json.{Json, str, int, pos}

module _ (escaping : Error → Bool) where
  single-rejects : (b : ParsedBlock) (name : String) → rejects escaping (single b name) ≡ true
  unfolding single
  single-rejects b name = ground arith

  nonempty_text-rejects :
      (message : String) (v : Json) → rejects escaping (nonempty_text message v) ≡ true
  nonempty_text-rejects message v = ground arith

  new_plan_step-rejects :
      (message : String) (id intent criterion : Json)
      → rejects escaping (or_reject message (new_plan_step id intent criterion)) ≡ true
  unfolding new_plan_step require_text
  new_plan_step-rejects message id intent criterion = ground arith

  new_plan-rejects :
      (message : String) (r : ℕ) (goal : String) (steps : List PlanStep)
      → rejects escaping (or_reject message (new_plan (int (pos r)) (str goal) steps)) ≡ true
  unfolding new_plan require_text require_revision
  new_plan-rejects message r goal steps = ground arith

  traverse-rejects {ℓ κ} :
      {A : Type ℓ} {B : Type κ} (f : A → Result B)
      → ((a : A) → rejects escaping (f a) ≡ true)
      → (xs : List A) → rejects escaping (traverse f xs) ≡ true
  traverse-rejects f h [] = refl
  traverse-rejects f h (x ∷ xs) =
      rejects-bind escaping (f x) _ (h x)
        (λ y _. rejects-bind escaping (traverse f xs) _ (traverse-rejects f h xs) (λ ys _. refl))

  decode_step-rejects : (b : ParsedBlock) → rejects escaping (decode_step b) ≡ true
  unfolding decode_step
  decode_step-rejects b =
      rejects-bind escaping
        (require (is_leaf b && same_set (field_names b) step_keys) "STEP fields are invalid") _
        (rejects-require escaping _ _)
        (λ _ _. rejects-bind escaping (single b "ID") _ (single-rejects b "ID") (λ id _.
          rejects-bind escaping (single b "INTENT") _ (single-rejects b "INTENT") (λ intent _.
            rejects-bind escaping (single b "COMPLETION_CRITERION") _
              (single-rejects b "COMPLETION_CRITERION")
              (λ criterion _.
                rejects-bind escaping
                  (require (all_texts (id ∷ intent ∷ criterion ∷ [])) "STEP fields must be strings")
                  _ (rejects-require escaping _ _)
                  (λ _ _.
                    new_plan_step-rejects "plan contains an invalid step" id intent criterion)))))

  plan_of-rejects :
      (b : ParsedBlock) (goal : String) (expected : ℕ)
      → rejects escaping (plan_of b goal expected) ≡ true
  unfolding plan_of
  plan_of-rejects b goal expected =
      rejects-bind escaping (require (has_type b "PLAN") "expected BEGIN PLAN") _
        (rejects-require escaping _ _)
        (λ _ _.
          rejects-bind escaping
            (require (has_plan_fields b) "PLAN fields must be exactly REVISION and GOAL") _
            (rejects-require escaping _ _)
            (λ _ _.
              rejects-bind escaping
                (require (has_steps b) "PLAN must contain one or more STEP blocks") _
                (rejects-require escaping _ _)
                (λ _ _.
                  rejects-bind escaping (single b "REVISION") _ (single-rejects b "REVISION")
                    (λ v _.
                      rejects-bind escaping
                        (require (is_revision expected v) "plan revision must be the expected one")
                        _ (rejects-require escaping _ _)
                        (λ _ _.
                          rejects-bind escaping (single b "GOAL") _ (single-rejects b "GOAL")
                            (λ g _.
                              rejects-bind escaping
                                (nonempty_text "plan goal must be a non-empty string" g) _
                                (nonempty_text-rejects _ g)
                                (λ _ _.
                                  rejects-bind escaping (traverse decode_step (children_of b)) _
                                    (traverse-rejects decode_step decode_step-rejects
                                      (children_of b))
                                    (λ steps _. new_plan-rejects _ expected goal steps))))))))

  -- Whatever text a model answers, `decode_plan` returns a plan, raises LineProtocolError, or raises one
  -- of the errors other than ValueError that the reader of literals raises.
  pub decode_plan-rejects :
      (loads : String → Result Json) (document goal : String) (expected : ℕ)
      → RaisesOnly escaping loads
      → rejects escaping (decode_plan loads document goal expected) ≡ true
  unfolding decode_plan
  decode_plan-rejects loads document goal expected only =
      rejects-bind escaping (parse_line_protocol loads document) _
        (parse_line_protocol-rejects escaping loads document only)
        (λ b _. plan_of-rejects b goal expected)
