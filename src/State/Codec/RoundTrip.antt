-- ===== src/State/Codec/RoundTrip.antt =====
-- memory/state.py: a serialized state is restored, but for the evidence of unfinished steps.
use codex_py.Base.{
  false, Option, String, any, some, ◌∙◌, nat_eq, string_eq, Result, Bool, List, [], all, ap, arith,
  distinct, if◌then◌else◌, is_blank, leb, map, none, not, ok, refl, traverse, true, ℕ, ◌&&◌, ◌∷◌,
  ◌≡◌,
}
use codex_py.State.{
  require_text, require_optional_text, PlanStep, Plan, StepExecution, Status, step_ids, is_nil,
  is_completed, status_name, blank_evidence, require_status, new_plan_step, new_plan,
  new_step_execution, pending, running, interrupted, completed, failed, skipped,
}
use codex_py.State.Agent.Valid.{new_agent_state_of_valid, IsValid}
use codex_py.State.Agent.{all_planned, distinct_keys, has_key}
use codex_py.Base.Json.{pos, int, list_of-items, str}
use codex_py.State.Codec.{
  optional_text, serialize_agent_state, AgentState, deserialize_agent_state, step_json, plan_json,
  execution_json, step_of_json, plan_of_json, execution_of_json,
}

abbrev pub in_range : ℕ → Bool
in_range r = leb 1 r && leb r 3

-- What the constructors of `PlanStep`, `Plan` and `StepExecution` admit.
abbrev pub is_valid_step : PlanStep → Bool
is_valid_step s =
    not (is_blank s.id) && not (is_blank s.intent) && not (is_blank s.completion_criterion)

abbrev pub is_valid_plan : Plan → Bool
is_valid_plan p =
    in_range p.revision
    && not (is_blank p.goal)
    && not (is_nil p.steps)
    && distinct (step_ids p.steps)
    && all is_valid_step p.steps

abbrev pub is_valid_execution : StepExecution → Bool
is_valid_execution e =
    in_range e.revision
    && not (is_blank e.step_id)
    && not (is_completed e.status && blank_evidence e.completion_evidence)

-- The execution without the evidence that is not written.
abbrev pub without_stale_evidence : StepExecution → StepExecution
without_stale_evidence e =
    if is_completed e.status then e else record e { completion_evidence = none }

-- A comprehension over written values reads them back.
traverse-map {ℓ κ} :
    {A : Type ℓ} {B : Type κ} {C : Type ℓ} (write : A → B) (read : B → Result C) (f : A → C)
    (fits : A → Bool)
    → ((a : A) → fits a ≡ true → read (write a) ≡ ok (f a))
    → (xs : List A) → all fits xs ≡ true
    → traverse read (map write xs) ≡ ok (map f xs)
traverse-map write read f fits h [] v = refl
traverse-map write read f fits h (x ∷ xs) v =
    rw (h x (ground arith), traverse-map write read f fits h xs (ground arith)) refl

map_self {ℓ} : {A : Type ℓ} (xs : List A) → map (λ x. x) xs ≡ xs
map_self [] = refl
map_self (x ∷ xs) = ap (λ ys. x ∷ ys) (map_self xs)

step_of_json-step_json : (s : PlanStep) → is_valid_step s ≡ true → step_of_json (step_json s) ≡ ok s
unfolding step_of_json new_plan_step
step_of_json-step_json s v = ground arith

pub require_status-status_name : (s : Status) → require_status (str (status_name s)) ≡ ok s
unfolding require_status
require_status-status_name pending = refl
require_status-status_name running = refl
require_status-status_name interrupted = refl
require_status-status_name completed = refl
require_status-status_name failed = refl
require_status-status_name skipped = refl

plan_of_json-plan_json : (p : Plan) → is_valid_plan p ≡ true → plan_of_json (plan_json p) ≡ ok p
unfolding plan_of_json new_plan
plan_of_json-plan_json p v = rw (list_of-items (map step_json p.steps)) (
    rw
      (traverse-map step_json step_of_json (λ s. s) is_valid_step step_of_json-step_json p.steps
        (ground arith))
      (rw (map_self p.steps) (ground arith)))

pub require_optional_text-optional_text :
    (o : Option String) (m : String) → require_optional_text (optional_text o) m ≡ ok o
unfolding require_optional_text
require_optional_text-optional_text none m = refl
require_optional_text-optional_text (some s) m = refl

abbrev pub execution_of :
    ℕ → String → Status → Option String → Option String → Option String → StepExecution
execution_of r i status result error evidence = record {
  revision = r;
  step_id = i;
  status = status;
  result = result;
  error = error;
  completion_evidence = evidence;
}

pub new_step_execution_of_valid :
    (r : ℕ) (i : String) (status : Status) (result error evidence : Option String)
    → is_valid_execution (execution_of r i status result error evidence) ≡ true
    → new_step_execution
        (int (pos r))
        (str i)
        (str (status_name status))
        (optional_text result)
        (optional_text error)
        (optional_text evidence)
      ≡ ok (execution_of r i status result error evidence)
unfolding new_step_execution
new_step_execution_of_valid r i status result error evidence v =
    rw
      (
        require_status-status_name status,
        require_optional_text-optional_text result _,
        require_optional_text-optional_text error _,
        require_optional_text-optional_text evidence _,
      )
      (ground arith)

execution_of_json-execution_of :
    (r : ℕ) (i : String) (status : Status) (result error evidence : Option String)
    → is_valid_execution (execution_of r i status result error evidence) ≡ true
    → execution_of_json (execution_json (execution_of r i status result error evidence))
      ≡ ok (without_stale_evidence (execution_of r i status result error evidence))
unfolding execution_of_json
execution_of_json-execution_of r i completed result error none v =
    new_step_execution_of_valid r i completed result error none v
execution_of_json-execution_of r i completed result error (some e) v =
    new_step_execution_of_valid r i completed result error (some e) v
execution_of_json-execution_of r i pending result error none v =
    new_step_execution_of_valid r i pending result error none (ground arith)
execution_of_json-execution_of r i pending result error (some e) v =
    new_step_execution_of_valid r i pending result error none (ground arith)
execution_of_json-execution_of r i running result error none v =
    new_step_execution_of_valid r i running result error none (ground arith)
execution_of_json-execution_of r i running result error (some e) v =
    new_step_execution_of_valid r i running result error none (ground arith)
execution_of_json-execution_of r i interrupted result error none v =
    new_step_execution_of_valid r i interrupted result error none (ground arith)
execution_of_json-execution_of r i interrupted result error (some e) v =
    new_step_execution_of_valid r i interrupted result error none (ground arith)
execution_of_json-execution_of r i failed result error none v =
    new_step_execution_of_valid r i failed result error none (ground arith)
execution_of_json-execution_of r i failed result error (some e) v =
    new_step_execution_of_valid r i failed result error none (ground arith)
execution_of_json-execution_of r i skipped result error none v =
    new_step_execution_of_valid r i skipped result error none (ground arith)
execution_of_json-execution_of r i skipped result error (some e) v =
    new_step_execution_of_valid r i skipped result error none (ground arith)

execution_of_json-execution_json :
    (e : StepExecution)
    → is_valid_execution e ≡ true
    → execution_of_json (execution_json e) ≡ ok (without_stale_evidence e)
execution_of_json-execution_json e v =
    execution_of_json-execution_of e.revision e.step_id e.status e.result e.error
      e.completion_evidence v

any_key-without_stale :
    (r : ℕ) (i : String) (es : List StepExecution)
    → any (has_key r i) (map without_stale_evidence es) ≡ any (has_key r i) es
any_key-without_stale r i [] = refl
any_key-without_stale r i (e ∷ es) = ground (arith, any_key-without_stale r i es)

distinct_keys-without_stale :
    (es : List StepExecution) → distinct_keys (map without_stale_evidence es) ≡ distinct_keys es
distinct_keys-without_stale [] = refl
distinct_keys-without_stale (e ∷ es) =
    ground (arith, distinct_keys-without_stale es, any_key-without_stale e.revision e.step_id es)

all_planned-without_stale :
    (plans : List Plan) (es : List StepExecution)
    → all_planned plans (map without_stale_evidence es) ≡ all_planned plans es
all_planned-without_stale plans [] = refl
all_planned-without_stale plans (e ∷ es) = ground (arith, all_planned-without_stale plans es)

-- The state as it comes back from storage.
abbrev pub restored : AgentState → AgentState
restored s = record s { step_executions = map without_stale_evidence s.step_executions }

pub restored-IsValid : (s : AgentState) → IsValid s → IsValid (restored s)
restored-IsValid s v = record {
  goal_given = v.goal_given;
  sequential = v.sequential;
  goals_match = v.goals_match;
  keys_distinct = distinct_keys-without_stale s.step_executions ∙ v.keys_distinct;
  planned = all_planned-without_stale s.plan_history s.step_executions ∙ v.planned;
}

require_text_of_given :
    (t : String) (name : String) → is_blank t ≡ false → require_text (str t) name ≡ ok t
unfolding require_text
require_text_of_given t name h = rw h refl

abbrev unsummarised : AgentState → AgentState
unsummarised s = record s { memory_summary = none }

unsummarised-IsValid : (s : AgentState) → IsValid s → IsValid (unsummarised s)
unsummarised-IsValid s v = record {
  goal_given = v.goal_given;
  sequential = v.sequential;
  goals_match = v.goals_match;
  keys_distinct = v.keys_distinct;
  planned = v.planned;
}

-- Writing a valid state, whose plans and executions pass the checks of their constructors, and
-- reading it back gives the state without the evidence of executions that are not completed, and
-- raises nothing.
pub deserialize_agent_state-serialize_agent_state :
    (s : AgentState)
    → IsValid s
    → all is_valid_plan s.plan_history ≡ true
    → all is_valid_execution s.step_executions ≡ true
    → deserialize_agent_state (serialize_agent_state s) ≡ ok (restored s)
unfolding deserialize_agent_state serialize_agent_state
deserialize_agent_state-serialize_agent_state s v plans executions =
    rw
      (
        list_of-items (map plan_json s.plan_history),
        list_of-items (map execution_json s.step_executions),
      )
      (rw
        (traverse-map plan_json plan_of_json (λ p. p) is_valid_plan plan_of_json-plan_json
          s.plan_history plans)
        (rw
          (traverse-map execution_json execution_of_json without_stale_evidence is_valid_execution
            execution_of_json-execution_json s.step_executions executions)
          (rw (map_self s.plan_history) (
            rw
              (
                require_text_of_given s.goal "agent state goal" v.goal_given,
                new_agent_state_of_valid (unsummarised (restored s))
                    (unsummarised-IsValid (restored s) (restored-IsValid s v)),
                require_optional_text-optional_text s.memory_summary _,
              )
              refl))))
