-- ===== src/State.antt =====
-- memory/state.py: the domain values of a run and the checks that their constructors make.
-- A constructor takes the value that Python passes, as JSON, and returns the typed record or the
-- exception of its `__post_init__`.
pub mod Context
pub mod Agent
pub mod Codec
use codex_py.Base.{
  ℕ, String, ◌<>◌, Bool, true, false, not, ◌&&◌, ◌||◌, Option, none, some, List, [], ◌∷◌, ◌++◌, map,
}
use codex_py.Base.{
  ◌==◌, nat_eq, string_eq, Eq, leb, if◌then◌else◌, length, all, any, keep, distinct, contains,
}
use codex_py.Base.{Result, ok, err, value_error, type_error, ◌>>=◌, ◌>>◌, guard, is_blank, is_some}
use codex_py.Base.Json.{Json, null, int, str, pos}

pub data Status : Type 0 where
  pending running interrupted completed failed skipped : Status

abbrev pub is_completed : Status → Bool
is_completed completed = true
is_completed _ = false

abbrev pub is_failed : Status → Bool
is_failed failed = true
is_failed _ = false

-- _require_text
unfoldable pub require_text : Json → String → Result String
require_text (str s) name =
    if is_blank s then err (value_error (name <> " must be a non-empty string")) else ok s
require_text _ name = err (value_error (name <> " must be a non-empty string"))

-- _require_revision; `bool` is not `int` here
unfoldable pub require_revision : Json → String → Result ℕ
require_revision (int (pos n)) name =
    if leb 1 n && leb n 3 then ok n else err (value_error (name <> " must be between 1 and 3"))
require_revision _ name = err (value_error (name <> " must be between 1 and 3"))

pub record PlanStep : Type 0 where
  pub id : String
  pub intent : String
  pub completion_criterion : String

unfoldable pub new_plan_step : Json → Json → Json → Result PlanStep
unfolding require_text
new_plan_step id intent criterion = do
  id' ← require_text id "step id"
  intent' ← require_text intent "step intent"
  criterion' ← require_text criterion "completion criterion"
  ok (record { id = id'; intent = intent'; completion_criterion = criterion' })

pub record Plan : Type 0 where
  pub revision : ℕ
  pub goal : String
  pub steps : List PlanStep

abbrev pub is_nil {ℓ} : {A : Type ℓ} → List A → Bool
is_nil [] = true
is_nil (x ∷ xs) = false

abbrev pub step_ids : List PlanStep → List String
step_ids = map (λ (s : PlanStep). s.id)

unfoldable pub new_plan : Json → Json → List PlanStep → Result Plan
unfolding require_text require_revision
new_plan revision goal steps = do
  revision' ← require_revision revision "plan revision"
  goal' ← require_text goal "plan goal"
  guard (not (is_nil steps)) (value_error "plan must contain at least one step")
  guard (distinct (step_ids steps)) (value_error "plan step IDs must be unique")
  ok (record { revision = revision'; goal = goal'; steps = steps })

pub record StepExecution : Type 0 where
  pub revision : ℕ
  pub step_id : String
  pub status : Status
  pub result : Option String
  pub error : Option String
  pub completion_evidence : Option String

abbrev pub status_name : Status → String
status_name pending = "pending"
status_name running = "running"
status_name interrupted = "interrupted"
status_name completed = "completed"
status_name failed = "failed"
status_name skipped = "skipped"

-- `status in _EXECUTION_STATUSES`; a list or a dict is unhashable
unfoldable pub require_status : Json → Result Status
require_status (str s) =
    if s == "pending"
    then ok pending
    else if s == "running"
    then ok running
    else if s == "interrupted"
    then ok interrupted
    else if s == "completed"
    then ok completed
    else if s == "failed"
    then ok failed
    else if s == "skipped"
    then ok skipped
    else err (value_error "step execution status is invalid")
require_status (Json.arr xs) = err (type_error "unhashable type")
require_status (Json.obj fs) = err (type_error "unhashable type")
require_status _ = err (value_error "step execution status is invalid")

-- `value is None or isinstance(value, str)`
unfoldable pub require_optional_text : Json → String → Result (Option String)
require_optional_text null message = ok none
require_optional_text (str s) message = ok (some s)
require_optional_text _ message = err (type_error message)

abbrev blank_evidence : Option String → Bool
blank_evidence none = false
blank_evidence (some s) = is_blank s

unfoldable pub new_step_execution : Json → Json → Json → Json → Json → Json → Result StepExecution
unfolding require_text require_revision require_status require_optional_text
new_step_execution revision step_id status result error evidence = do
  revision' ← require_revision revision "step execution revision"
  step_id' ← require_text step_id "step execution step ID"
  status' ← require_status status
  result' ← require_optional_text result "step execution result must be a string or None"
  error' ← require_optional_text error "step execution error must be a string or None"
  evidence' ← require_optional_text evidence "step completion evidence must be a string or None"
  guard (not (is_completed status' && blank_evidence evidence'))
      (value_error "completed step evidence must be non-empty")
  ok (record {
    revision = revision';
    step_id = step_id';
    status = status';
    result = result';
    error = error';
    completion_evidence = evidence';
  })
