-- ===== src/TaskAnalyzer.antt =====
-- agent/task_analyzer.py: the checks on an analysis, the route, the analyzer and the router. The
-- model's answer, `json.dumps` and the instructions are parameters.
use codex_py.Base.{
  Bool, List, Option, Result, String, [], err, guard, if◌then◌else◌, leb, nat_eq, none, not, some,
  string_eq, task_analysis_error, ℕ, ◌==◌, ◌||◌, ◌∷◌, ◌>>=◌ as bind_result,
}
use codex_py.Base.Json.{float, pos, int, Json}
use codex_py.Base.Effect.{◌>>=◌, ◌>>◌}
pub mod Checks
pub mod Parse
pub mod Router
pub mod Routes

pub data ExecutionModeName : Type 0 where
  direct tool_agent react plan_execute : ExecutionModeName

-- `goal_clarity` is the bit pattern of a float.
pub record TaskAnalysis : Type 0 where
  pub task_type : String
  pub goal_clarity : ℕ
  pub needs_tools : Bool
  pub expected_steps : ℕ
  pub expected_horizon : String
  pub reasoning_summary : String
  pub completion_criteria : List String

unfoldable pub route : Bool → ℕ → String → ExecutionModeName
route needs_tools steps horizon =
    if not needs_tools
    then direct
    else if leb steps 1
    then tool_agent
    else if horizon == "long"
    then plan_execute
    else react

abbrev pub route_of : TaskAnalysis → ExecutionModeName
route_of a = route a.needs_tools a.expected_steps a.expected_horizon

-- The bit patterns of 1.0 and -0.0.
abbrev one_bits : ℕ
one_bits = 4607182418800017408

abbrev minus_zero_bits : ℕ
minus_zero_bits = 9223372036854775808

-- A number from 0 to 1, as a float.
abbrev pub score : Json → Option ℕ
score (int (pos n)) = if n == 0 then some 0 else if n == 1 then some one_bits else none
score (float b) = if leb b one_bits || b == minus_zero_bits then some b else none
score _ = none

abbrev pub reject_analysis {ℓ} : {A : Type ℓ} → String → Result A
reject_analysis message = err (task_analysis_error message)

abbrev pub need : Bool → String → Result (Unit {0})
need test' message = guard test' (task_analysis_error message)

abbrev pub required_fields : List String
required_fields =
    "TASK_TYPE" ∷ "GOAL_CLARITY" ∷ "NEEDS_TOOLS" ∷ "EXPECTED_STEPS" ∷ "EXPECTED_HORIZON"
    ∷ "REASONING_SUMMARY" ∷ []

abbrev pub task_types : List String
task_types =
    "generation" ∷ "transformation" ∷ "retrieval" ∷ "tool_action" ∷ "workflow" ∷ "diagnosis"
    ∷ "research" ∷ "coding" ∷ "planning" ∷ "mixed" ∷ []

abbrev pub horizons : List String
horizons = "short" ∷ "medium" ∷ "long" ∷ []
