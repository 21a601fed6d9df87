-- ===== src/Conversation.antt =====
-- agent/conversation.py: turns, results and the answers that end a turn.
pub mod Memory
pub mod Mysql
pub mod Refinement
pub mod Order
pub mod Ordered
pub mod Held
pub mod Service
pub mod Runs
use codex_py.Base.{
  Bool, List, Option, Result, String, err, false, guard, is_blank, is_some, none, not, ok, some,
  true, value_error, ℕ, ◌>>=◌, ◌>>◌,
}

pub data ConversationStatus : Type 0 where
  pending running completed failed blocked : ConversationStatus

pub record ConversationTurn : Type 0 where
  pub conv_id : String
  pub sequence : ℕ
  pub run_id : String
  pub execution_mode : String
  pub user_input : String
  pub status : ConversationStatus
  pub answer : Option String
  pub error : Option String

pub record ConversationResult : Type 0 where
  pub conv_id : String
  pub sequence : ℕ
  pub run_id : String
  pub execution_mode : String
  pub status : ConversationStatus
  pub answer : Option String
  pub error : Option String

pub record Conversation : Type 0 where
  pub conv_id : String
  pub turns : List ConversationTurn

-- status in {"pending", "running"}
abbrev pub is_active : ConversationTurn → Bool
is_active t = elim t.status [ pending ↦ true | running ↦ true | _ ↦ false ]

-- ExecutionAnswer of agent/execution.py
pub record ExecutionAnswer : Type 0 where
  pub answer : Option String
  pub status : ConversationStatus
  pub error : Option String

abbrev given : Option String → Bool
given none = false
given (some s) = not (is_blank s)

unfoldable pub new_execution_answer :
    Option String → ConversationStatus → Option String → Result ExecutionAnswer
new_execution_answer answer status error =
    let a : ExecutionAnswer = record { answer = answer; status = status; error = error } in
    elim status [
      | pending ↦ err (value_error "execution answer status must be completed, failed, or blocked")
      | running ↦ err (value_error "execution answer status must be completed, failed, or blocked")
      | completed ↦ do
        guard (given answer)
            (value_error "a completed execution answer requires nonempty answer text")
        guard (not (is_some error))
            (value_error "a completed execution answer cannot contain an error")
        ok a
      | _ ↦ do
        guard (given error) (value_error "a failed execution answer requires a safe error")
        ok a
    ]

-- ConversationTurn(...) with the answer of an execution
abbrev pub ended_turn : ConversationTurn → ExecutionAnswer → ConversationTurn
ended_turn t a = record t { status = a.status; answer = a.answer; error = a.error }

abbrev pub result_of : ConversationTurn → ExecutionAnswer → ConversationResult
result_of t a = record {
  conv_id = t.conv_id;
  sequence = t.sequence;
  run_id = t.run_id;
  execution_mode = t.execution_mode;
  status = a.status;
  answer = a.answer;
  error = a.error;
}
