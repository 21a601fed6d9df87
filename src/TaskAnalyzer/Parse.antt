-- ===== src/TaskAnalyzer/Parse.antt =====
-- agent/task_analyzer.py: `_parse_analysis`.
use codex_py.Base.{
  Result, Bool, Error, List, Option, String, [], contains, distinct, err, false, if◌then◌else◌,
  is_blank, leb, line_protocol_error, map, nat_eq, none, not, ok, some, string_eq, strip,
  task_analysis_error, traverse, true, type_error, ℕ, ◌&&◌, ◌++◌, ◌<>◌, ◌∷◌, ◌>>=◌, ◌>>◌,
}
use codex_py.TaskAnalyzer.{
  horizons, task_types, score, required_fields, route_of, need, TaskAnalysis, react,
  ExecutionModeName, reject_analysis, route,
}
use codex_py.LineProtocol.Decode.{field_names, is_leaf, has_type}
use codex_py.LineProtocol.{subset, fields_of, get_field, ParsedBlock}
use codex_py.LineProtocol.Parser.{is_nil, parse_line_protocol}
use codex_py.Base.Json.{obj, arr, pos, bool, int, str, Json}

-- len(values) == 1
abbrev only_value : String → Option (List Json) → Result Json
only_value name (some (v ∷ [])) = ok v
only_value name _ = reject_analysis ("task analysis field " <> (name <> " must occur exactly once"))

unfoldable pub field_value : ParsedBlock → String → Result Json
field_value b name = only_value name (get_field name (fields_of b))

abbrev pub or_reject_analysis {ℓ} : {A : Type ℓ} → String → Option A → Result A
or_reject_analysis message none = reject_analysis message
or_reject_analysis message (some a) = ok a

-- type(value) is int and value >= 1
abbrev pub steps_of : Json → Result ℕ
steps_of (int (pos n)) =
    if leb 1 n
    then ok n
    else reject_analysis "task analysis expected_steps must be a non-negative integer"
steps_of _ = reject_analysis "task analysis expected_steps must be a non-negative integer"

abbrev pub flag_of : Json → Result Bool
flag_of (bool b) = ok b
flag_of _ = reject_analysis "task analysis needs_tools must be a boolean"

-- `value not in frozenset`: a list or a dict is unhashable.
abbrev pub category_of : List String → Json → Result String
category_of names' (str s) =
    if contains names' s
    then ok s
    else reject_analysis "task analysis contains an unsupported category"
category_of names' (arr xs) = err (type_error "unhashable type: 'list'")
category_of names' (obj fs) = err (type_error "unhashable type: 'dict'")
category_of names' _ = reject_analysis "task analysis contains an unsupported category"

abbrev pub given_text : String → Json → Result String
given_text message (str s) = do need (not (is_blank s)) message; ok s
given_text message _ = reject_analysis message

-- block.fields.get("COMPLETION_CRITERION", [])
abbrev pub criteria_values : Option (List Json) → List Json
criteria_values none = []
criteria_values (some vs) = vs

abbrev pub is_react : ExecutionModeName → Bool
is_react react = true
is_react _ = false

-- len(criteria) == len({item.strip() for item in criteria})
abbrev pub stripped : List String → List String
stripped = map strip

unfoldable pub check_criteria : TaskAnalysis → Result TaskAnalysis
unfolding route strip
check_criteria a = do
  need (distinct (stripped a.completion_criteria)) "completion criteria must be distinct"
  need (not (is_react (route_of a) && is_nil a.completion_criteria))
      "react task analysis requires completion criteria"
  need (not (not (is_react (route_of a)) && not (is_nil a.completion_criteria)))
      "completion criteria are only valid for react tasks"
  ok a

abbrev pub declared_fields : List String
declared_fields = required_fields ++ ("COMPLETION_CRITERION" ∷ [])

-- The checks of the values, in the source's order.
unfoldable pub read_values :
    Json → Json → Json → Json → Json → Json → List Json → Result TaskAnalysis
unfolding check_criteria
read_values task_type_value clarity_value tools_value steps_value horizon_value summary_value
      found =
    do
      clarity ←
          or_reject_analysis "task analysis goal_clarity must be a score from 0 to 1"
            (score clarity_value)
      steps ← steps_of steps_value
      tools ← flag_of tools_value
      task_type ← category_of task_types task_type_value
      horizon ← category_of horizons horizon_value
      summary ← given_text "task analysis reasoning_summary must be non-empty text" summary_value
      criteria ← traverse (given_text "completion criteria must be non-empty text") found
      check_criteria (record {
        task_type = task_type;
        goal_clarity = clarity;
        needs_tools = tools;
        expected_steps = steps;
        expected_horizon = horizon;
        reasoning_summary = summary;
        completion_criteria = criteria;
      })

unfoldable pub analysis_of : ParsedBlock → Result TaskAnalysis
unfolding field_value read_values
analysis_of b = do
  need (has_type b "TASK_ANALYSIS") "expected BEGIN TASK_ANALYSIS"
  need (is_leaf b) "TASK_ANALYSIS cannot contain child blocks"
  need (subset (field_names b) declared_fields) "TASK_ANALYSIS contains undeclared fields"
  need (subset required_fields (field_names b))
      "task analysis must contain exactly the required fields"
  task_type ← field_value b "TASK_TYPE"
  clarity ← field_value b "GOAL_CLARITY"
  tools ← field_value b "NEEDS_TOOLS"
  steps ← field_value b "EXPECTED_STEPS"
  horizon ← field_value b "EXPECTED_HORIZON"
  summary ← field_value b "REASONING_SUMMARY"
  read_values task_type clarity tools steps horizon summary
      (criteria_values (get_field "COMPLETION_CRITERION" (fields_of b)))

-- except LineProtocolError as error
abbrev pub as_analysis : Error → Error
as_analysis (line_protocol_error e) = task_analysis_error e
as_analysis e = e

abbrev pub parsed {ℓ} : {A : Type ℓ} → Result A → Result A
parsed (ok a) = ok a
parsed (err e) = err (as_analysis e)

unfoldable pub parse_analysis : (String → Result Json) → String → Result TaskAnalysis
unfolding analysis_of
parse_analysis loads output = do b ← parsed (parse_line_protocol loads output); analysis_of b
