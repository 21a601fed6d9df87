-- ===== src/TaskAnalyzer/Routes.antt =====
-- agent/task_analyzer.py: the router over the Task Analyzer.
use codex_py.Base.{
  Bool-cases, inl, inr, is_ok, true, Result, Option, String, arith, cancelled, refl, subst, Error,
  List, err, guard, is_blank, is_some, none, not, ok, some, value_error, ◌≡◌,
}
use codex_py.Base.Effect.{continue, lift, bind-eq-ok, Run}
use codex_py.TaskAnalyzer.Router.{
  is_exception, fallback, RoutedExecutionAnswer, analyze, analysis_input, routed, run,
}
use codex_py.Base.Json.{str, Json}
use codex_py.Conversation.{ExecutionAnswer}
use codex_py.TaskAnalyzer.{TaskAnalysis, ExecutionModeName, plan_execute, route_of}
use codex_py.TaskAnalyzer.Parse.{parse_analysis}
use codex_py.TaskAnalyzer.Checks.{IsAccepted, parse_analysis-IsAccepted}
use codex_py.TextStream.Answers.{validated_text-ok}

abbrev pub mode_of : Option TaskAnalysis → ExecutionModeName
mode_of none = plan_execute
mode_of (some a) = route_of a

module _ {W : Type 0} (loads : String → Result Json) (dumps : Json → String)
    (request : String → String → Run W String) (on_retry : Error → Run W (Unit {0}))
    (instructions : String) where
  analyze-IsAccepted :
      (goal : String) (input : Option (List Json × String)) (a : TaskAnalysis) (w w' : W)
      → analyze loads dumps request on_retry instructions goal input w ≡ (ok a, w')
      → IsAccepted a
  unfolding analyze
  analyze-IsAccepted goal input a w w' h =
      let given = guard (not (is_blank goal)) (value_error "goal must be a non-empty string") in
      let (_, u, _, rest) = bind-eq-ok (lift given) _ w h in
      let (text, parsed) =
        validated_text-ok (λ t. dumps (str t)) (request (analysis_input dumps goal input))
          instructions (parse_analysis loads) on_retry a u w' rest in
      parse_analysis-IsAccepted loads text a parsed

-- What a routed answer says of its own routing.
pub record IsRouted (r : RoutedExecutionAnswer) : Type 0 where
  pub mode : r.execution_mode ≡ mode_of r.analysis
  pub evidence : is_some r.analysis_error ≡ not (is_some r.analysis)
  pub checked : (a : TaskAnalysis) → r.analysis ≡ some a → IsAccepted a

answered :
    (q r : RoutedExecutionAnswer)
    → q.execution_mode ≡ mode_of q.analysis
    → is_some q.analysis_error ≡ not (is_some q.analysis)
    → ((a : TaskAnalysis) → q.analysis ≡ some a → IsAccepted a)
    → q ≡ r
    → IsRouted r
answered q r mode evidence checked same =
    subst IsRouted same (record { mode = mode; evidence = evidence; checked = checked })

continue-is_ok :
    {W A B : Type 0} (r : Result A × W) (f : A → Run W B)
    → is_ok r.0 ≡ true
    → ((a : A) → is_ok (f a r.1).0 ≡ true)
    → is_ok (continue r.0 f r.1).0 ≡ true
continue-is_ok (ok a, w) f h k = k a
continue-is_ok (err e, w) f h k = h

module _ {W : Type 0} (analyzer : String → Run W TaskAnalysis)
    (mode_factory : ExecutionModeName → Option TaskAnalysis → String → Run W ExecutionAnswer) where
  fallback-IsRouted :
      (goal : String) (r : RoutedExecutionAnswer) (w w' : W)
      → fallback analyzer mode_factory goal w ≡ (ok r, w')
      → IsRouted r
  unfolding fallback
  fallback-IsRouted goal r w w' h =
      let (x, u, _, h₁) = bind-eq-ok (mode_factory plan_execute none goal) _ w h in
      answered
        (record {
          execution = x;
          execution_mode = plan_execute;
          analysis = none;
          analysis_error = some "task analysis failed";
        })
        r refl refl (λ b e. ground (arith, e)) (ground (arith, h₁))

  routed-IsRouted :
      (goal : String) (found : Result TaskAnalysis) (r : RoutedExecutionAnswer) (w w' : W)
      → ((a : TaskAnalysis) → found ≡ ok a → IsAccepted a)
      → routed analyzer mode_factory goal found w ≡ (ok r, w')
      → IsRouted r
  unfolding routed
  routed-IsRouted goal (ok a) r w w' accepted h =
      let (x, u, _, h₁) = bind-eq-ok (mode_factory (route_of a) (some a) goal) _ w h in
      answered
        (record {
          execution = x;
          execution_mode = route_of a;
          analysis = some a;
          analysis_error = none;
        })
        r refl refl (λ b e. accepted b (ground (arith, e))) (ground (arith, h₁))
  routed-IsRouted goal (err e) r w w' accepted h = elim (Bool-cases (is_exception e)) [
    | inl caught ↦ fallback-IsRouted goal r w w' (rw caught at h)
    | inr uncaught ↦ let h' = rw uncaught at h in cc
  ]

  fallback-is_ok :
      (goal : String)
      → ((mode : ExecutionModeName) (a : Option TaskAnalysis) (w : W)
          → is_ok (mode_factory mode a goal w).0 ≡ true)
      → (w : W) → is_ok (fallback analyzer mode_factory goal w).0 ≡ true
  unfolding fallback
  fallback-is_ok goal answers w =
      continue-is_ok (mode_factory plan_execute none goal w) _ (answers plan_execute none w)
        (λ x. refl)

  routed-is_ok :
      (goal : String) (found : Result TaskAnalysis)
      → ((mode : ExecutionModeName) (a : Option TaskAnalysis) (w : W)
          → is_ok (mode_factory mode a goal w).0 ≡ true)
      → ¬ (found ≡ err cancelled)
      → (w : W) → is_ok (routed analyzer mode_factory goal found w).0 ≡ true
  unfolding routed
  routed-is_ok goal (ok a) answers live w =
      continue-is_ok (mode_factory (route_of a) (some a) goal w) _ (answers (route_of a) (some a) w)
        (λ x. refl)
  routed-is_ok goal (err e) answers live w = elim (Bool-cases (is_exception e)) [
    | inl caught ↦ rw caught (fallback-is_ok goal answers w)
    | inr uncaught ↦ absurd (live (ground (arith, uncaught)))
  ]

  -- When every mode answers the goal and the analyzer is not cancelled, the router answers,
  -- whatever else the analyzer raises.
  pub run-is_ok :
      (goal : String) (w : W)
      → ((mode : ExecutionModeName) (a : Option TaskAnalysis) (u : W)
          → is_ok (mode_factory mode a goal u).0 ≡ true)
      → ¬ ((analyzer goal w).0 ≡ err cancelled)
      → is_ok (run analyzer mode_factory goal w).0 ≡ true
  unfolding run
  run-is_ok goal w answers live =
      routed-is_ok goal (analyzer goal w).0 answers live (analyzer goal w).1

-- An answer of the router over the Task Analyzer names the mode of the route of its analysis, and
-- plan_execute when it has none; it has an analysis or an analysis error and not both, and its
-- analysis has passed every check.
pub run-IsRouted :
    {W : Type 0} (loads : String → Result Json) (dumps : Json → String)
    (request : String → String → Run W String) (on_retry : Error → Run W (Unit {0}))
    (instructions : String)
    (mode_factory : ExecutionModeName → Option TaskAnalysis → String → Run W ExecutionAnswer)
    (goal : String) (r : RoutedExecutionAnswer) (w w' : W)
    → run (λ g. analyze loads dumps request on_retry instructions g none) mode_factory goal w
      ≡ (ok r, w')
    → IsRouted r
unfolding run
run-IsRouted {W = W} loads dumps request on_retry instructions mode_factory goal r w w' h =
    let analyzer : String → Run W TaskAnalysis =
      λ g. analyze loads dumps request on_retry instructions g none in
    routed-IsRouted analyzer mode_factory goal (analyzer goal w).0 r (analyzer goal w).1 w'
      (λ a e.
        analyze-IsAccepted loads dumps request on_retry instructions goal none a w
          (analyzer goal w).1 (ground (arith, e)))
      h
