-- ===== src/LineProtocol/Decode.antt =====
-- llm/line_protocol.py: the decoders of one block without children.
use codex_py.Base.{
  Bool, Result, List, Option, String, [], contains, false, if◌then◌else◌, is_blank, nat_eq, none,
  not, some, string_eq, strip, traverse, true, ◌&&◌, ◌++◌, ◌<>◌, ◌==◌, ◌∷◌, ◌>>=◌, ◌>>◌, ok,
}
use codex_py.LineProtocol.{
  subset, children_of, fields_of, reject, require, get_field, names, same_set, type_of, ParsedBlock,
  single,
}
use codex_py.LineProtocol.Parser.{is_nil, parse_line_protocol}
use codex_py.Base.Json.{bool, str, Json}

-- The JSON value is text that `strip()` does not empty.
abbrev pub nonempty_text : String → Json → Result String
nonempty_text message (str s) = do require (not (is_blank s)) message; ok s
nonempty_text message _ = reject message

abbrev pub boolean : String → Json → Result Bool
boolean message (bool b) = ok b
boolean message _ = reject message

abbrev pub text : String → Json → Result String
text message (str s) = ok s
text message _ = reject message

-- value is True
abbrev pub is_true : Json → Bool
is_true (bool true) = true
is_true _ = false

abbrev pub has_type : ParsedBlock → String → Bool
has_type b t = type_of b == t

abbrev pub is_leaf : ParsedBlock → Bool
is_leaf b = is_nil (children_of b)

abbrev pub field_names : ParsedBlock → List String
field_names b = names (fields_of b)

pub record ReactDecision : Type 0 where
  pub status : String
  pub answer : Option String
  pub error : Option String

-- The dictionary that `decode_step_completion` returns.
pub record StepCompletion : Type 0 where
  pub result : String
  pub files_read : List String
  pub files_modified : List String
  pub observations : List String

abbrev expected_fields : String → Option (List String)
expected_fields status =
    if status == "completed"
    then some ("STATUS" ∷ "ANSWER" ∷ [])
    else if status == "failed"
    then some ("STATUS" ∷ "ERROR" ∷ [])
    else if status == "need_tool"
    then some ("STATUS" ∷ [])
    else none

abbrev fits_status : ParsedBlock → Option (List String) → Bool
fits_status b none = false
fits_status b (some expected) = same_set (field_names b) expected

abbrev decision_of : ParsedBlock → String → Result ReactDecision
unfolding single
decision_of b status =
    if status == "need_tool"
    then ok (record { status = status; answer = none; error = none })
    else if status == "completed"
    then (do
      v ← single b "ANSWER"
      s ← nonempty_text "REACT_DECISION ANSWER must be non-empty text" v
      ok (record { status = status; answer = some s; error = none }))
    else (do
      v ← single b "ERROR"
      s ← nonempty_text "REACT_DECISION ERROR must be non-empty text" v
      ok (record { status = status; answer = none; error = some s }))

-- block.fields.get(name, [])
abbrev values_or_empty : Option (List Json) → List Json
values_or_empty none = []
values_or_empty (some vs) = vs

unfoldable pub strings_at : ParsedBlock → String → Result (List String)
strings_at b name =
    traverse (text (name <> " must contain only strings"))
      (values_or_empty (get_field name (fields_of b)))

module _ (loads : String → Result Json) where
  unfoldable pub decode_answer : String → Result String
  unfolding single
  decode_answer document = do
    b ← parse_line_protocol loads document
    require (has_type b "ANSWER" && (is_leaf b && same_set (field_names b) ("TEXT" ∷ [])))
        "ANSWER must contain exactly one TEXT field"
    v ← single b "TEXT"
    nonempty_text "ANSWER TEXT must be non-empty text" v

  unfoldable pub decode_react_decision : String → Result ReactDecision
  unfolding single
  decode_react_decision document = do
    b ← parse_line_protocol loads document
    require (has_type b "REACT_DECISION" && (is_leaf b && contains (field_names b) "STATUS"))
        "expected one REACT_DECISION block with STATUS"
    v ← single b "STATUS"
    status ← text "REACT_DECISION fields do not match STATUS" v
    require (fits_status b (expected_fields status)) "REACT_DECISION fields do not match STATUS"
    decision_of b status

  unfoldable pub decode_goal_judgment : String → Result (Bool × String)
  unfolding single
  decode_goal_judgment document = do
    b ← parse_line_protocol loads document
    require (has_type b "GOAL_JUDGMENT" && (is_leaf b && contains (field_names b) "COMPLETED"))
        "expected one GOAL_JUDGMENT block"
    v ← single b "COMPLETED"
    completed ← boolean "GOAL_JUDGMENT COMPLETED must be a boolean" v
    let name : String = if completed then "EVIDENCE" else "GAP"
    require (same_set (field_names b) ("COMPLETED" ∷ name ∷ []))
        "GOAL_JUDGMENT fields do not match COMPLETED"
    w ← single b name
    detail ← nonempty_text ("GOAL_JUDGMENT " <> (name <> " must be non-empty text")) w
    ok (completed, detail)

  unfoldable pub decode_no_tool : String → Result (Unit {0})
  decode_no_tool document = do
    b ← parse_line_protocol loads document
    require (has_type b "NO_TOOL" && (is_nil (fields_of b) && is_leaf b))
        "NO_TOOL must be an empty block"

  unfoldable pub decode_goal_completion : String → Result String
  unfolding single strip
  decode_goal_completion document = do
    b ← parse_line_protocol loads document
    require
        (has_type b "GOAL_COMPLETION"
          && (is_leaf b && same_set (field_names b) ("ANSWER" ∷ "GOAL_SATISFIED" ∷ [])))
        "GOAL_COMPLETION fields are invalid"
    v ← single b "ANSWER"
    satisfied ← single b "GOAL_SATISFIED"
    answer ← nonempty_text "goal completion does not prove the goal" v
    require (is_true satisfied) "goal completion does not prove the goal"
    ok (strip answer)

  abbrev required : List String
  required = "COMPLETED" ∷ "COMPLETION_CRITERION_MET" ∷ "RESULT" ∷ []

  unfoldable pub decode_step_completion : String → Result StepCompletion
  unfolding single strip strings_at
  decode_step_completion document = do
    b ← parse_line_protocol loads document
    require (has_type b "STEP_COMPLETION" && (is_leaf b && subset required (field_names b)))
        "STEP_COMPLETION fields are invalid"
    require
        (subset (field_names b)
          (required ++ ("FILES_READ" ∷ "FILES_MODIFIED" ∷ "OBSERVATIONS" ∷ [])))
        "STEP_COMPLETION fields are invalid"
    completed ← single b "COMPLETED"
    require (is_true completed) "step completion does not satisfy its criterion"
    met ← single b "COMPLETION_CRITERION_MET"
    require (is_true met) "step completion does not satisfy its criterion"
    v ← single b "RESULT"
    result ← nonempty_text "STEP_COMPLETION RESULT must be non-empty text" v
    files_read ← strings_at b "FILES_READ"
    files_modified ← strings_at b "FILES_MODIFIED"
    observations ← strings_at b "OBSERVATIONS"
    ok (record {
      result = strip result;
      files_read = files_read;
      files_modified = files_modified;
      observations = observations;
    })
