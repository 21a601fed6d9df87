-- ===== src/TaskAnalyzer/Checks.antt =====
-- agent/task_analyzer.py: what an accepted analysis is.
use codex_py.Base.{
  Result, subst, List, >>=-eq-ok, Bool, String, [], all, arith, contains, distinct, false, is_blank,
  nat_eq, not, ok, string_eq, traverse, true, ℕ, ◌∷◌, ◌≡◌, ◌≤◌,
}
use codex_py.TaskAnalyzer.Parse.{
  or_reject_analysis, read_values, declared_fields, criteria_values, flag_of, field_value, parsed,
  analysis_of, parse_analysis, check_criteria, stripped, is_react, steps_of, category_of,
  given_text,
}
use codex_py.LineProtocol.{fields_of, get_field, subset, ParsedBlock}
use codex_py.TaskAnalyzer.{
  score, required_fields, TaskAnalysis, need, route_of, task_types, horizons,
}
use codex_py.LineProtocol.Decode.{field_names, is_leaf, has_type}
use codex_py.LineProtocol.Parser.{parse_line_protocol, is_nil}
use codex_py.Base.Json.{Json}

-- The checks of an analysis, on its fields.
pub record IsAccepted (a : TaskAnalysis) : Type 0 where
  pub steps : 1 ≤ a.expected_steps
  pub task_type : contains task_types a.task_type ≡ true
  pub horizon : contains horizons a.expected_horizon ≡ true
  pub summary : is_blank a.reasoning_summary ≡ false
  pub named : all (λ c. not (is_blank c)) a.completion_criteria ≡ true
  pub apart : distinct (stripped a.completion_criteria) ≡ true
  pub wanted : is_nil a.completion_criteria ≡ not (is_react (route_of a))

need-eq-ok : (b : Bool) (message : String) (u : Unit {0}) → need b message ≡ ok u → b ≡ true
need-eq-ok b message u h = ground arith

given_text-eq-ok :
    (message : String) (v : Json) (s : String) → given_text message v ≡ ok s → is_blank s ≡ false
given_text-eq-ok message v s h = ground arith

traverse-given_text :
    (message : String) (vs : List Json) (ss : List String)
    → traverse (given_text message) vs ≡ ok ss
    → all (λ c. not (is_blank c)) ss ≡ true
traverse-given_text message [] ss h = ground arith
traverse-given_text message (v ∷ vs) ss h =
    let (s, read, h₁) = >>=-eq-ok (given_text message v) _ h in
    let (rest, reads, h₂) = >>=-eq-ok (traverse (given_text message) vs) _ h₁ in
    ground (arith, h₂, given_text-eq-ok message v s read, traverse-given_text message vs rest reads)

category_of-eq-ok :
    (names' : List String) (v : Json) (s : String)
    → category_of names' v ≡ ok s
    → contains names' s ≡ true
category_of-eq-ok names' v s h = ground arith

steps_of-eq-ok : (v : Json) (n : ℕ) → steps_of v ≡ ok n → 1 ≤ n
steps_of-eq-ok v n h = ground arith

check_criteria-eq-ok :
    (a b : TaskAnalysis)
    → check_criteria a ≡ ok b
    → (a ≡ b)
      × (distinct (stripped a.completion_criteria) ≡ true)
      × (is_nil a.completion_criteria ≡ not (is_react (route_of a)))
unfolding check_criteria
check_criteria-eq-ok a b h = ground arith

accepted :
    (task_type_value steps_value horizon_value summary_value : Json) (criteria_found : List Json)
    (a b : TaskAnalysis)
    → category_of task_types task_type_value ≡ ok a.task_type
    → steps_of steps_value ≡ ok a.expected_steps
    → category_of horizons horizon_value ≡ ok a.expected_horizon
    → given_text "task analysis reasoning_summary must be non-empty text" summary_value
      ≡ ok a.reasoning_summary
    → traverse (given_text "completion criteria must be non-empty text") criteria_found
      ≡ ok a.completion_criteria
    → check_criteria a ≡ ok b
    → IsAccepted b
accepted task_type_value steps_value horizon_value summary_value criteria_found a b t n h s c e =
    let (same, apart, wanted) = check_criteria-eq-ok a b e in
    subst IsAccepted same (record {
      steps = steps_of-eq-ok steps_value a.expected_steps n;
      task_type = category_of-eq-ok task_types task_type_value a.task_type t;
      horizon = category_of-eq-ok horizons horizon_value a.expected_horizon h;
      summary = given_text-eq-ok _ summary_value a.reasoning_summary s;
      named = traverse-given_text _ criteria_found a.completion_criteria c;
      apart = apart;
      wanted = wanted;
    })

read_values-IsAccepted :
    (t c n s z m : Json) (found : List Json) (a : TaskAnalysis)
    → read_values t c n s z m found ≡ ok a
    → IsAccepted a
unfolding read_values
read_values-IsAccepted t c n s z m found a h =
    let (clarity, _, h₁) =
      >>=-eq-ok
        (or_reject_analysis "task analysis goal_clarity must be a score from 0 to 1" (score c)) _
        h in
    let (steps, steps_read, h₂) = >>=-eq-ok (steps_of s) _ h₁ in
    let (tools, _, h₃) = >>=-eq-ok (flag_of n) _ h₂ in
    let (type, type_read, h₄) = >>=-eq-ok (category_of task_types t) _ h₃ in
    let (horizon, horizon_read, h₅) = >>=-eq-ok (category_of horizons z) _ h₄ in
    let (summary, summary_read, h₆) =
      >>=-eq-ok (given_text "task analysis reasoning_summary must be non-empty text" m) _ h₅ in
    let (criteria, criteria_read, h₇) =
      >>=-eq-ok (traverse (given_text "completion criteria must be non-empty text") found) _ h₆ in
    accepted t s z m found _ a type_read steps_read horizon_read summary_read criteria_read h₇

analysis_of-IsAccepted : (b : ParsedBlock) (a : TaskAnalysis) → analysis_of b ≡ ok a → IsAccepted a
unfolding analysis_of
analysis_of-IsAccepted b a h =
    let (_, _, h₁) =
      >>=-eq-ok (need (has_type b "TASK_ANALYSIS") "expected BEGIN TASK_ANALYSIS") _ h in
    let (_, _, h₂) =
      >>=-eq-ok (need (is_leaf b) "TASK_ANALYSIS cannot contain child blocks") _ h₁ in
    let (_, _, h₃) =
      >>=-eq-ok
        (need (subset (field_names b) declared_fields) "TASK_ANALYSIS contains undeclared fields") _
        h₂ in
    let (_, _, h₄) =
      >>=-eq-ok
        (need (subset required_fields (field_names b))
          "task analysis must contain exactly the required fields")
        _ h₃ in
    let (t, _, h₅) = >>=-eq-ok (field_value b "TASK_TYPE") _ h₄ in
    let (c, _, h₆) = >>=-eq-ok (field_value b "GOAL_CLARITY") _ h₅ in
    let (n, _, h₇) = >>=-eq-ok (field_value b "NEEDS_TOOLS") _ h₆ in
    let (s, _, h₈) = >>=-eq-ok (field_value b "EXPECTED_STEPS") _ h₇ in
    let (z, _, h₉) = >>=-eq-ok (field_value b "EXPECTED_HORIZON") _ h₈ in
    let (m, _, h₁₀) = >>=-eq-ok (field_value b "REASONING_SUMMARY") _ h₉ in
    read_values-IsAccepted t c n s z m
      (criteria_values (get_field "COMPLETION_CRITERION" (fields_of b))) a h₁₀

-- An analysis that `_parse_analysis` accepts has at least one step, a known task type and a known
-- horizon, a summary that is not blank, and criteria that are not blank and differ after they are
-- stripped; it has criteria exactly when its route is react.
pub parse_analysis-IsAccepted :
    (loads : String → Result Json) (output : String) (a : TaskAnalysis)
    → parse_analysis loads output ≡ ok a
    → IsAccepted a
unfolding parse_analysis
parse_analysis-IsAccepted loads output a h =
    let (b, _, rest) = >>=-eq-ok (parsed (parse_line_protocol loads output)) _ h in
    analysis_of-IsAccepted b a rest
