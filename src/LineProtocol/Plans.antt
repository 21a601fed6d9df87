-- ===== src/LineProtocol/Plans.antt =====
-- llm/line_protocol.py: `decode_plan`.
use codex_py.Base.{
  ◌<>◌, Result, Bool, List, String, [], all, err, false, nat_eq, not, string_eq, traverse, true,
  type_error, value_error, ℕ, ◌&&◌, ◌==◌, ◌∷◌, ◌>>=◌, ◌>>◌,
}
use codex_py.LineProtocol.Decode.{nonempty_text, field_names, has_type, is_leaf}
use codex_py.LineProtocol.{children_of, same_set, require, ParsedBlock, reject, single}
use codex_py.State.{PlanStep, Plan, new_plan, new_plan_step}
use codex_py.Base.Json.{pos, int, str, Json}
use codex_py.LineProtocol.Parser.{parse_line_protocol}

-- except (TypeError, ValueError)
abbrev pub or_reject {ℓ} : {A : Type ℓ} → String → Result A → Result A
or_reject message (err (value_error e)) = reject message
or_reject message (err (type_error e)) = reject message
or_reject message r = r

abbrev pub step_keys : List String
step_keys = "ID" ∷ "INTENT" ∷ "COMPLETION_CRITERION" ∷ []

abbrev pub all_texts : List Json → Bool
all_texts = all (λ v. elim v [ str s ↦ true | _ ↦ false ])

-- The body of the loop over the STEP blocks.
unfoldable pub decode_step : ParsedBlock → Result PlanStep
unfolding single new_plan_step
decode_step b = do
  require (is_leaf b && same_set (field_names b) step_keys) "STEP fields are invalid"
  id ← single b "ID"
  intent ← single b "INTENT"
  criterion ← single b "COMPLETION_CRITERION"
  require (all_texts (id ∷ intent ∷ criterion ∷ [])) "STEP fields must be strings"
  or_reject "plan contains an invalid step" (new_plan_step id intent criterion)

abbrev pub is_revision : ℕ → Json → Bool
is_revision expected (int (pos n)) = n == expected
is_revision expected _ = false

abbrev pub has_plan_fields : ParsedBlock → Bool
has_plan_fields b = same_set (field_names b) ("REVISION" ∷ "GOAL" ∷ [])

abbrev pub has_steps : ParsedBlock → Bool
has_steps b = all (λ c. has_type c "STEP") (children_of b) && not (is_leaf b)

-- decode_plan after the parse
unfoldable pub plan_of : ParsedBlock → String → ℕ → Result Plan
unfolding single decode_step new_plan
plan_of b goal expected = do
  require (has_type b "PLAN") "expected BEGIN PLAN"
  require (has_plan_fields b) "PLAN fields must be exactly REVISION and GOAL"
  require (has_steps b) "PLAN must contain one or more STEP blocks"
  revision ← single b "REVISION"
  require (is_revision expected revision) "plan revision must be the expected one"
  response_goal ← single b "GOAL"
  nonempty_text "plan goal must be a non-empty string" response_goal
  steps ← traverse decode_step (children_of b)
  or_reject "plan violates its invariants" (new_plan (int (pos expected)) (str goal) steps)

module _ (loads : String → Result Json) where
  unfoldable pub decode_plan : String → String → ℕ → Result Plan
  unfolding plan_of
  decode_plan document goal expected = do
    b ← parse_line_protocol loads document
    plan_of b goal expected

-- The lines of a text that ends with a newline.
abbrev lines_text : List String → String
lines_text [] = ""
lines_text (l ∷ ls) = l <> ("\n" <> lines_text ls)

-- PLAN_INSTRUCTIONS
unfoldable pub plan_instructions : String
plan_instructions = lines_text (
    "Return exactly one Line Protocol block, with no prose before or after it."
    ∷ "Every scalar line uses exactly `FIELD=JSON_LITERAL`; do not use spaces or `:` in place of `=`."
    ∷ "REVISION must be the JSON integer for this revision, and GOAL must be a JSON string."
    ∷ "Each step is delimited by `BEGIN STEP` and `END STEP` and contains exactly ID, INTENT,"
    ∷ "and COMPLETION_CRITERION as JSON strings." ∷ "" ∷ "Examples:" ∷ "" ∷ "For a one-step goal:"
    ∷ "BEGIN PLAN" ∷ "REVISION=1" ∷ "GOAL=\"Inspect the project\"" ∷ "BEGIN STEP"
    ∷ "ID=\"inspect_source\"" ∷ "INTENT=\"Locate the relevant source files\""
    ∷ "COMPLETION_CRITERION=\"Relevant source files are identified\"" ∷ "END STEP" ∷ "END PLAN" ∷ ""
    ∷ "For a goal with dependent steps:" ∷ "BEGIN PLAN" ∷ "REVISION=2"
    ∷ "GOAL=\"Prepare a release\"" ∷ "BEGIN STEP" ∷ "ID=\"inspect_changes\""
    ∷ "INTENT=\"Review the changes included in the release\""
    ∷ "COMPLETION_CRITERION=\"Release changes and risks are listed\"" ∷ "END STEP" ∷ "BEGIN STEP"
    ∷ "ID=\"write_release_notes\"" ∷ "INTENT=\"Write release notes from the reviewed changes\""
    ∷ "COMPLETION_CRITERION=\"Release notes cover the listed changes and risks\"" ∷ "END STEP"
    ∷ "END PLAN" ∷ [])
