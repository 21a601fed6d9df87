-- ===== src/Recovery/Durable.antt =====
-- agent/recovery.py: which evidence a stored execution keeps.
use codex_py.Base.{Option, ◌≡◌, String, arith, none, ok, true, ℕ}
use codex_py.State.{Status, StepExecution, new_step_execution}
use codex_py.Recovery.{durable_execution, typed_execution}
use codex_py.State.Codec.RoundTrip.{
  execution_of, without_stale_evidence, is_valid_execution, require_status-status_name,
  require_optional_text-optional_text, new_step_execution_of_valid,
}

-- A typed execution that its constructor accepts is the one that was given.
pub typed_execution-ok :
    (r : ℕ) (i : String) (status : Status) (result error evidence : Option String)
    (e : StepExecution)
    → typed_execution r i status result error evidence ≡ ok e
    → e ≡ execution_of r i status result error evidence
unfolding new_step_execution
typed_execution-ok r i status result error evidence e h =
    let h' =
      rw
        (
          require_status-status_name status,
          require_optional_text-optional_text result _,
          require_optional_text-optional_text error _,
          require_optional_text-optional_text evidence _,
        )
        at h in
    ground arith

pub durable_execution-ok :
    (e d : StepExecution) → durable_execution e ≡ ok d → d ≡ without_stale_evidence e
unfolding durable_execution
durable_execution-ok e d h =
    ground (arith, typed_execution-ok e.revision e.step_id e.status e.result e.error none d)

-- What a store keeps of a valid execution is what the serialized state keeps of it.
pub durable_execution_lem :
    (e : StepExecution)
    → is_valid_execution e ≡ true
    → durable_execution e ≡ ok (without_stale_evidence e)
unfolding durable_execution
durable_execution_lem e v =
    ground (arith, new_step_execution_of_valid e.revision e.step_id e.status e.result e.error none)
