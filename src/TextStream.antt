-- ===== src/TextStream.antt =====
-- llm/text_stream.py: the request that is made again once. `dumps` is `json.dumps` of a text.
use codex_py.Base.{
  Result, not, String, Bool, Error, err, false, if◌then◌else◌, line_protocol_error, ok,
  planning_error, recovery_decision_error, task_analysis_error, true, value_error, ◌<>◌,
}
use codex_py.Base.Effect.{raise, lift, pure, Run, ◌>>=◌, ◌>>◌}
pub mod Answers

-- isinstance(error, ValueError)
abbrev pub is_value_error : Error → Bool
is_value_error (value_error e) = true
is_value_error (recovery_decision_error e) = true
is_value_error (planning_error e) = true
is_value_error (line_protocol_error e) = true
is_value_error (task_analysis_error e) = true
is_value_error _ = false

-- str(error) of a ValueError
abbrev pub message_of : Error → String
message_of (value_error e) = e
message_of (recovery_decision_error e) = e
message_of (planning_error e) = e
message_of (line_protocol_error e) = e
message_of (task_analysis_error e) = e
message_of _ = ""

unfoldable pub validation_feedback_instructions :
    (String → String) → String → Error → String → String
validation_feedback_instructions dumps instructions error output =
    instructions
    <> ("\n\nYour previous response was rejected by local validation. Return a complete "
        <> ("replacement response that satisfies every instruction above; do not explain "
            <> ("the correction or repeat this feedback.\nValidation error: "
                <> (message_of error <> ("\nPrevious response (JSON-encoded): " <> dumps output)))))

module _ {W A : Type 0} (dumps : String → String) (request : String → Run W String)
    (instructions : String) (validate : String → Result A)
    (on_retry : Error → Run W (Unit {0})) where
  -- except ValueError as error
  unfoldable pub retry_after : String → Error → Run W A
  unfolding validation_feedback_instructions
  retry_after output error = do
    on_retry error
    again ← request (validation_feedback_instructions dumps instructions error output)
    lift (validate again)

  unfoldable pub checked : String → Result A → Run W A
  unfolding retry_after
  checked output (ok a) = pure a
  checked output (err e) = if is_value_error e then retry_after output e else raise e

  unfoldable pub validated_text : Run W A
  unfolding checked
  validated_text = do output ← request instructions; checked output (validate output)
