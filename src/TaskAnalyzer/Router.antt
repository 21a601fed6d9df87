-- ===== src/TaskAnalyzer/Router.antt =====
-- agent/task_analyzer.py: `TaskAnalyzer.run` and `TaskRouter.run`.
use codex_py.Base.{
  Bool, Result, false, if◌then◌else◌, true, Option, String, Error, List, cancelled, err, guard,
  is_blank, none, not, ok, some, value_error,
}
use codex_py.TaskAnalyzer.{plan_execute, route_of, route, TaskAnalysis, ExecutionModeName}
use codex_py.Base.Json.{end, items, str, arr, field, obj, Json}
use codex_py.Base.Effect.{raise, pure, lift, Run, ◌>>=◌, ◌>>◌}
use codex_py.TaskAnalyzer.Parse.{parse_analysis}
use codex_py.TextStream.{validated_text}
use codex_py.Conversation.{ExecutionAnswer}

pub record RoutedExecutionAnswer : Type 0 where
  pub execution : ExecutionAnswer
  pub execution_mode : ExecutionModeName
  pub analysis : Option TaskAnalysis
  pub analysis_error : Option String

-- _analysis_input
abbrev pub analysis_input : (Json → String) → String → Option (List Json × String) → String
analysis_input dumps goal none = goal
analysis_input dumps goal (some (history, current_input)) = dumps (
    obj (
      field "conversation_history" (arr (items history))
        (field "current_input" (str current_input) end)))

-- isinstance(error, Exception): a cancellation is a BaseException.
abbrev pub is_exception : Error → Bool
is_exception cancelled = false
is_exception _ = true

module _ {W : Type 0} (loads : String → Result Json) (dumps : Json → String)
    (request : String → String → Run W String) (on_retry : Error → Run W (Unit {0}))
    (instructions : String) where
  -- TaskAnalyzer.run
  unfoldable pub analyze : String → Option (List Json × String) → Run W TaskAnalysis
  unfolding validated_text parse_analysis
  analyze goal input = do
    lift (guard (not (is_blank goal)) (value_error "goal must be a non-empty string"))
    validated_text (λ t. dumps (str t)) (request (analysis_input dumps goal input)) instructions
        (parse_analysis loads) on_retry

module _ {W : Type 0} (analyzer : String → Run W TaskAnalysis)
    (mode_factory : ExecutionModeName → Option TaskAnalysis → String → Run W ExecutionAnswer) where
  unfoldable pub fallback : String → Run W RoutedExecutionAnswer
  fallback goal = do
    execution ← mode_factory plan_execute none goal
    pure (record {
      execution = execution;
      execution_mode = plan_execute;
      analysis = none;
      analysis_error = some "task analysis failed";
    })

  unfoldable pub routed : String → Result TaskAnalysis → Run W RoutedExecutionAnswer
  unfolding route fallback
  routed goal (ok a) = do
    execution ← mode_factory (route_of a) (some a) goal
    pure (record {
      execution = execution;
      execution_mode = route_of a;
      analysis = some a;
      analysis_error = none;
    })
  routed goal (err e) = if is_exception e then fallback goal else raise e

  -- TaskRouter.run
  unfoldable pub run : String → Run W RoutedExecutionAnswer
  unfolding routed
  run goal w = let (r, u) = analyzer goal w in routed goal r u
