-- ===== src/LineProtocol/Decoded.antt =====
-- llm/line_protocol.py: what a decoded plan is.
use codex_py.Base.{
  ◌&&◌, Result, String, List, >>=-eq-ok, [], all, arith, nat_eq, ok, string_eq, traverse, true, ℕ,
  ◌∷◌, ◌≡◌,
}
use codex_py.LineProtocol.Plans.{
  all_texts, is_revision, step_keys, has_steps, has_plan_fields, or_reject, decode_plan,
  decode_step, plan_of,
}
use codex_py.LineProtocol.Decode.{field_names, has_type, is_leaf, nonempty_text}
use codex_py.LineProtocol.{same_set, children_of, single, require, ParsedBlock}
use codex_py.LineProtocol.Parser.{parse_line_protocol}
use codex_py.State.Codec.RoundTrip.{is_valid_plan, is_valid_step}
use codex_py.State.{Plan, PlanStep, require_revision, require_text, new_plan, new_plan_step}
use codex_py.Base.Json.{Json, str, int, pos}

new_plan-ok :
    (r : ℕ) (goal : String) (steps : List PlanStep) (p : Plan)
    → all is_valid_step steps ≡ true
    → or_reject "plan violates its invariants" (new_plan (int (pos r)) (str goal) steps) ≡ ok p
    → (p.revision ≡ r) × (p.goal ≡ goal) × (is_valid_plan p ≡ true)
unfolding new_plan require_text require_revision
new_plan-ok r goal steps p v h = ground arith

new_plan_step-is_valid_step :
    (id intent criterion : Json) (s : PlanStep)
    → or_reject "plan contains an invalid step" (new_plan_step id intent criterion) ≡ ok s
    → is_valid_step s ≡ true
unfolding new_plan_step require_text
new_plan_step-is_valid_step id intent criterion s h = ground arith

decode_step-is_valid_step :
    (b : ParsedBlock) (s : PlanStep) → decode_step b ≡ ok s → is_valid_step s ≡ true
unfolding decode_step
decode_step-is_valid_step b s h =
    let shape = is_leaf b && same_set (field_names b) step_keys in
    let (_, _, h₁) = >>=-eq-ok (require shape "STEP fields are invalid") _ h in
    let (id, _, h₂) = >>=-eq-ok (single b "ID") _ h₁ in
    let (intent, _, h₃) = >>=-eq-ok (single b "INTENT") _ h₂ in
    let (criterion, _, h₄) = >>=-eq-ok (single b "COMPLETION_CRITERION") _ h₃ in
    let texts = all_texts (id ∷ intent ∷ criterion ∷ []) in
    let (_, _, h₅) = >>=-eq-ok (require texts "STEP fields must be strings") _ h₄ in
    new_plan_step-is_valid_step id intent criterion s h₅

traverse-decode_step :
    (bs : List ParsedBlock) (steps : List PlanStep)
    → traverse decode_step bs ≡ ok steps
    → all is_valid_step steps ≡ true
traverse-decode_step [] steps h = ground arith
traverse-decode_step (b ∷ bs) steps h =
    let (s, read, h₁) = >>=-eq-ok (decode_step b) _ h in
    let (rest, reads, h₂) = >>=-eq-ok (traverse decode_step bs) _ h₁ in
    ground (arith, h₂, decode_step-is_valid_step b s read, traverse-decode_step bs rest reads)

plan_of-ok :
    (b : ParsedBlock) (goal : String) (expected : ℕ) (p : Plan)
    → plan_of b goal expected ≡ ok p
    → (p.revision ≡ expected) × (p.goal ≡ goal) × (is_valid_plan p ≡ true)
unfolding plan_of
plan_of-ok b goal expected p h =
    let (_, _, h₁) = >>=-eq-ok (require (has_type b "PLAN") "expected BEGIN PLAN") _ h in
    let (_, _, h₂) =
      >>=-eq-ok (require (has_plan_fields b) "PLAN fields must be exactly REVISION and GOAL") _
        h₁ in
    let (_, _, h₃) =
      >>=-eq-ok (require (has_steps b) "PLAN must contain one or more STEP blocks") _ h₂ in
    let (revision, _, h₄) = >>=-eq-ok (single b "REVISION") _ h₃ in
    let (_, _, h₅) =
      >>=-eq-ok (require (is_revision expected revision) "plan revision must be the expected one") _
        h₄ in
    let (response, _, h₆) = >>=-eq-ok (single b "GOAL") _ h₅ in
    let (_, _, h₇) =
      >>=-eq-ok (nonempty_text "plan goal must be a non-empty string" response) _ h₆ in
    let (steps, decoded, h₈) = >>=-eq-ok (traverse decode_step (children_of b)) _ h₇ in
    new_plan-ok expected goal steps p (traverse-decode_step (children_of b) steps decoded) h₈

-- A plan that `decode_plan` returns has the revision that is expected and the goal of the state,
-- whatever goal the document names, and passes every check of the constructors.
pub decode_plan-ok :
    (loads : String → Result Json) (document goal : String) (expected : ℕ) (p : Plan)
    → decode_plan loads document goal expected ≡ ok p
    → (p.revision ≡ expected) × (p.goal ≡ goal) × (is_valid_plan p ≡ true)
unfolding decode_plan
decode_plan-ok loads document goal expected p h =
    let (b, _, rest) = >>=-eq-ok (parse_line_protocol loads document) _ h in
    plan_of-ok b goal expected p rest
