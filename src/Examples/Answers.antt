-- ===== src/Examples/Answers.antt =====
-- agent/planner.py, agent/task_analyzer.py and llm/text_stream.py with a model that answers the same
-- text to every request. The world counts the requests.
use codex_py.Base.{
  Result, Error, Option, String, [], arith, err, if◌then◌else◌, is_ok, nat_eq, none, ok,
  other_error, refl, some, string_eq, true, value_error, ℕ, ◌+◌, ◌==◌, ◌∷◌, ◌≡◌, ◌≤◌, is_blank,
}
use codex_py.LineProtocol.Parser.{parse_line_protocol}
use codex_py.Conversation.{completed, ExecutionAnswer}
use codex_py.State.Codec.RoundTrip.{is_valid_plan}
use codex_py.State.Agent.Update.{planned_state}
use codex_py.State.Agent.{with_plan, AgentState}
use codex_py.State.Agent.Valid.{IsValid}
use codex_py.Base.Json.{str, pos, int, Json}
use codex_py.TaskAnalyzer.{react, TaskAnalysis, ExecutionModeName}
use codex_py.Base.Effect.{Run}
use codex_py.Examples.Documents.{loads, plan_document, x_plan}
use codex_py.TextStream.{validated_text}
use codex_py.TextStream.Answers.{validated_text_count}
use codex_py.Planner.{plan}
use codex_py.Planner.Plans.{plan-with_plan}
use codex_py.TaskAnalyzer.Parse.{parse_analysis}
use codex_py.TaskAnalyzer.Checks.{IsAccepted, parse_analysis-IsAccepted}
use codex_py.TaskAnalyzer.Router.{RoutedExecutionAnswer, run, analyze}
use codex_py.TaskAnalyzer.Routes.{run-is_ok, run-IsRouted, IsRouted}
use codex_py.LineProtocol.Codecs.{codec_of}

answering : String → String → String → Run ℕ String
answering answer input instructions calls = (ok answer, calls + 1)

noting : Error → Run ℕ (Unit {0})
noting e calls = (ok tt, calls)

abbrev quoted : String → String
quoted text = text

abbrev dumps : Json → String
dumps v = "{}"

refuse : String → Result ℕ
refuse text = err (value_error "refused")

validated_text_count_example :
    (0 + 1 ≤ (validated_text quoted (answering "no" "input") "Answer." refuse noting 0).1)
    × ((validated_text quoted (answering "no" "input") "Answer." refuse noting 0).1 ≤ 0 + 2)
unfolding answering noting
validated_text_count_example =
    validated_text_count quoted (answering "no" "input") "Answer." refuse noting (λ n. n)
      (λ t w. refl) (λ e w. refl) 0

abbrev fresh : AgentState
fresh = record { goal = "read"; plan_history = []; step_executions = []; memory_summary = none }

plan_example_run : plan loads dumps (answering plan_document) noting fresh none 0 ≡ (ok x_plan, 1)
unfolding plan answering codec_of is_blank parse_line_protocol
plan_example_run = refl

fresh-IsValid : IsValid fresh
unfolding is_blank
fresh-IsValid = record {
  goal_given = refl;
  sequential = refl;
  goals_match = refl;
  keys_distinct = refl;
  planned = refl;
}

plan-with_plan_example :
    (with_plan fresh x_plan ≡ ok (planned_state fresh x_plan)) × (is_valid_plan x_plan ≡ true)
plan-with_plan_example =
    plan-with_plan loads dumps (answering plan_document) noting fresh none x_plan 0 1 fresh-IsValid
      plan_example_run

abbrev analysis_document : String
analysis_document =
    "BEGIN TASK_ANALYSIS\nTASK_TYPE=\"coding\"\nGOAL_CLARITY=1\nNEEDS_TOOLS=true\nEXPECTED_STEPS=2\nEXPECTED_HORIZON=\"short\"\nREASONING_SUMMARY=\"x\"\nCOMPLETION_CRITERION=\"x\"\nEND TASK_ANALYSIS"

abbrev reads : String → Result Json
reads s =
    if s == "2"
    then ok (int (pos 2))
    else if s == "\"coding\""
    then ok (str "coding")
    else if s == "\"short\""
    then ok (str "short")
    else loads s

abbrev analysis : TaskAnalysis
analysis = record {
  task_type = "coding";
  goal_clarity = 4607182418800017408;
  needs_tools = true;
  expected_steps = 2;
  expected_horizon = "short";
  reasoning_summary = "x";
  completion_criteria = "x" ∷ [];
}

analysis_run : parse_analysis reads analysis_document ≡ ok analysis
unfolding parse_analysis codec_of is_blank parse_line_protocol
analysis_run = refl

parse_analysis-IsAccepted_example : IsAccepted analysis
parse_analysis-IsAccepted_example =
    parse_analysis-IsAccepted reads analysis_document analysis analysis_run

mode_answer : ExecutionModeName → Option TaskAnalysis → String → Run ℕ ExecutionAnswer
mode_answer mode a goal calls =
    (ok (record { answer = some goal; status = completed; error = none }), calls)

abbrev analyzer : String → Run ℕ TaskAnalysis
analyzer goal = analyze reads dumps (answering analysis_document) noting "Analyze." goal none

abbrev routed_answer : RoutedExecutionAnswer
routed_answer = record {
  execution = record { answer = some "read"; status = completed; error = none };
  execution_mode = react;
  analysis = some analysis;
  analysis_error = none;
}

route_run : run analyzer mode_answer "read" 0 ≡ (ok routed_answer, 1)
unfolding run analyze answering mode_answer codec_of is_blank parse_line_protocol
route_run = refl

run-IsRouted_example : IsRouted routed_answer
run-IsRouted_example =
    run-IsRouted reads dumps (answering analysis_document) noting "Analyze." mode_answer "read"
      routed_answer 0 1 route_run

refusing : String → Run ℕ TaskAnalysis
refusing goal calls = (err (other_error "connection lost"), calls)

run-is_ok_example : is_ok (run refusing mode_answer "read" 0).0 ≡ true
unfolding refusing mode_answer
run-is_ok_example =
    run-is_ok refusing mode_answer "read" 0 (λ mode a u. refl) (λ e. ground (arith, e))
