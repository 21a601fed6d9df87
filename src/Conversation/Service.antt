-- ===== src/Conversation/Service.antt =====
-- agent/conversation.py: `ConversationService`. The store is an interface, and what calls out of
-- the program is a parameter: new identifiers, the check of a UUID, the selection of a mode, the
-- runners, and the stored result of a run.

use codex_py.Base.{
  false, ◌||◌, [], conversation_error, find, guard, is_blank, length, true, type_error, value_error,
  ℕ, ◌+◌, ◌∷◌, Bool, Error, List, Option, Result, String, cancelled, configuration_mismatch,
  contains, conversation_busy, err, if◌then◌else◌, keep, nat_eq, none, not, ok, planning_error,
  run_busy, some, string_eq, ◌<>◌, ◌==◌,
}
use codex_py.Conversation.{
  blocked, pending, result_of, running, ConversationResult, completed, ended_turn, failed,
  is_active, Conversation, ConversationStatus, ConversationTurn, ExecutionAnswer,
}
use codex_py.Base.Effect.{raise, lift, pure, Run, ◌>>=◌, ◌>>◌}

-- The protocol `ConversationStore`, on a store of type `S`.
pub record ConversationStore (S : Type 0) : Type 0 where
  pub append : ConversationTurn → Run S (Unit {0})
  pub get : String → Run S Conversation
  pub update : ConversationTurn → Run S (Unit {0})

-- The store, `_active_ephemeral_runs`, and the world outside.
pub record World (S E : Type 0) : Type 0 where
  pub store : S
  pub active_runs : List String
  pub outside : E

-- ConversationInput; the history holds the public fields of the ended turns.
pub record ConversationInput : Type 0 where
  pub conv_id : String
  pub history : List ConversationTurn
  pub current_input : String

-- The mapping that `run_result_factory` returns, whose answer and error are text or None.
pub record RunResult : Type 0 where
  pub status : Option String
  pub answer : Option String
  pub error : Option String

abbrev pub Runner : Type 0 → Type 0
Runner E = ConversationInput → Run E ExecutionAnswer

pub record Factories (E : Type 0) : Type 0 where
  pub new_uuid : Run E String
  pub is_uuid4 : String → Bool
  pub make_runner : String → String → List String → String → Run E (Runner E)
  pub make_recovery : String → Run E (Option String → Run E ExecutionAnswer)
  pub run_result : Option (String → Run E (Option RunResult))
  pub select_mode : Option (ConversationInput → String → Run E (String × Option (List String)))

abbrev pub is_ephemeral : String → Bool
is_ephemeral mode = mode == "direct" || (mode == "tool_agent" || mode == "react")

abbrev pub is_mode : String → Bool
is_mode mode = is_ephemeral mode || mode == "plan_execute"

abbrev pub failed_answer : String → ExecutionAnswer
failed_answer error = record { answer = none; status = failed; error = some error }

abbrev pub terminal_status : Option String → Option ConversationStatus
terminal_status none = none
terminal_status (some s) =
    if s == "completed"
    then some completed
    else if s == "failed"
    then some failed
    else if s == "blocked"
    then some blocked
    else none

abbrev pub public_history : List ConversationTurn → List ConversationTurn
public_history turns = keep (λ t. not (is_active t)) turns

abbrev pub busy_with : ConversationTurn → Error
busy_with t = conversation_busy t.sequence t.run_id

-- What becomes of a runner's answer: `raised` is an exception that `run` lets through.
pub data Ending : Type 0 where
  answered : ExecutionAnswer → Ending
  interrupted raised : Error → Ending

unfoldable pub ending_of : String → Result ExecutionAnswer → Ending
ending_of message (ok a) = answered a
ending_of message (err cancelled) = interrupted cancelled
ending_of message (err run_busy) = raised run_busy
ending_of message (err configuration_mismatch) = raised configuration_mismatch
ending_of message (err (planning_error e)) = answered (failed_answer ("planning failed: " <> e))
ending_of message (err e) = answered (failed_answer message)

module _ {S E : Type 0} where
  abbrev pub on_store : {A : Type 0} → Run S A → Run (World S E) A
  on_store m w = let (r, s) = m w.store in (r, record w { store = s })

  abbrev pub on_outside : {A : Type 0} → Run E A → Run (World S E) A
  on_outside m w = let (r, e) = m w.outside in (r, record w { outside = e })

  abbrev pub add_active : String → Run (World S E) (Unit {0})
  add_active run_id w = (ok tt, record w { active_runs = run_id ∷ w.active_runs })

  abbrev pub discard_active : String → Run (World S E) (Unit {0})
  discard_active run_id w =
      (ok tt, record w { active_runs = keep (λ r. not (r == run_id)) w.active_runs })

  -- try: await call ... except ...
  abbrev pub ending : String → Run E ExecutionAnswer → Run (World S E) Ending
  ending message call w =
      let (r, e) = call w.outside in (ok (ending_of message r), record w { outside = e })

  abbrev pub is_running_here : String → Run (World S E) Bool
  is_running_here run_id w = (ok (contains w.active_runs run_id), w)

module _ {S E : Type 0} (store : ConversationStore S) (factories : Factories E) where
  -- The update that ends a turn.
  abbrev pub end_turn : ConversationTurn → ExecutionAnswer → Run (World S E) (Unit {0})
  end_turn turn a = on_store (store.update (ended_turn turn a))

  -- _validate_uuid4
  abbrev pub validate_uuid4 : String → Run (World S E) (Unit {0})
  validate_uuid4 id =
      lift (guard (factories.is_uuid4 id) (value_error "conversation requires a UUIDv4 conv_id"))

  abbrev pub end_by :
      ConversationTurn → RunResult → Option ConversationStatus → Run (World S E) (Unit {0})
  end_by active r none = pure tt
  end_by active r (some status) =
      end_turn active (record { answer = r.answer; status = status; error = r.error })

  abbrev pub end_with : ConversationTurn → Option RunResult → Run (World S E) (Unit {0})
  end_with active none = pure tt
  end_with active (some r) = end_by active r (terminal_status r.status)

  abbrev pub reconcile_durable :
      Option (String → Run E (Option RunResult)) → ConversationTurn → Run (World S E) (Unit {0})
  reconcile_durable none active = pure tt
  reconcile_durable (some run_result) active = do
    result ← on_outside (run_result active.run_id)
    end_with active result

  abbrev pub unless_here : ConversationTurn → Bool → Run (World S E) (Unit {0})
  unless_here active true = pure tt
  unless_here active false =
      end_turn active (failed_answer "ephemeral conversation turn could not be recovered")

  abbrev pub reconcile_ephemeral : ConversationTurn → Run (World S E) (Unit {0})
  reconcile_ephemeral active = do here ← is_running_here active.run_id; unless_here active here

  abbrev pub reconcile_turn : Option ConversationTurn → Run (World S E) (Unit {0})
  reconcile_turn none = pure tt
  reconcile_turn (some active) =
      if is_ephemeral active.execution_mode
      then reconcile_ephemeral active
      else reconcile_durable factories.run_result active

  unfoldable pub reconcile_active : Conversation → Run (World S E) (Unit {0})
  reconcile_active conversation = reconcile_turn (find is_active conversation.turns)

  abbrev pub refuse_active : Option ConversationTurn → Run (World S E) (Unit {0})
  refuse_active none = pure tt
  refuse_active (some active) = raise (busy_with active)

  -- The history and the sequence of the next turn of a conversation.
  abbrev pub continue_conversation : String → Run (World S E) (String × List ConversationTurn × ℕ)
  unfolding reconcile_active
  continue_conversation id = do
    validate_uuid4 id
    found ← on_store (store.get id)
    reconcile_active found
    conversation ← on_store (store.get id)
    refuse_active (find is_active conversation.turns)
    pure (id, public_history conversation.turns, length conversation.turns + 1)

  abbrev pub locate : Option String → Bool → Run (World S E) (String × List ConversationTurn × ℕ)
  locate none create = do id ← on_outside factories.new_uuid; pure (id, [], 1)
  locate (some id) create =
      if create then (do validate_uuid4 id; pure (id, [], 1)) else continue_conversation id

  abbrev pub criteria_of : String → Option (List String) → List String
  criteria_of mode none = []
  criteria_of mode (some criteria) = if mode == "react" then criteria else []

  abbrev pub selected :
      Option (ConversationInput → String → Run E (String × Option (List String)))
      → ConversationInput
      → String
      → Run (World S E) (String × List String)
  selected none input run_id = pure ("direct", [])
  selected (some select) input run_id = do
    (mode, criteria) ← on_outside (select input run_id)
    lift (guard (is_mode mode) (type_error "task analyzer returned an invalid execution mode"))
    pure (mode, criteria_of mode criteria)

  abbrev pub choose_mode :
      Option String → ConversationInput → String → Run (World S E) (String × List String)
  choose_mode none input run_id = selected factories.select_mode input run_id
  choose_mode (some mode) input run_id = pure (mode, [])

  abbrev pub check_mode : Option String → Bool
  check_mode none = true
  check_mode (some mode) = is_mode mode

  abbrev pub add_if : Bool → String → Run (World S E) (Unit {0})
  add_if ephemeral run_id = if ephemeral then add_active run_id else pure tt

  -- The terminal update, and the result or the exception.
  abbrev pub finish : ConversationTurn → Ending → Run (World S E) ConversationResult
  finish turn (answered a) = do discard_active turn.run_id; end_turn turn a; pure (result_of turn a)
  finish turn (interrupted e) = do
    end_turn turn (failed_answer "conversation execution interrupted")
    discard_active turn.run_id
    raise e
  finish turn (raised e) = raise e

  -- From the append of the turn to its end.
  unfoldable pub execute_turn :
      ConversationTurn
      → List String
      → ConversationInput
      → String
      → Run (World S E) ConversationResult
  unfolding ending_of
  execute_turn turn criteria input layout = do
    on_store (store.append turn)
    on_store (store.update (record turn { status = running }))
    add_if (is_ephemeral turn.execution_mode) turn.run_id
    runner ← on_outside (factories.make_runner turn.execution_mode turn.run_id criteria layout)
    ended ← ending "conversation execution failed" (runner input)
    finish turn ended

  unfoldable pub run :
      String → Option String → Option String → Bool → String → Run (World S E) ConversationResult
  unfolding execute_turn
  run user_input execution_mode conv_id create layout = do
    lift (
        guard (not (is_blank user_input))
          (value_error "conversation run requires nonempty user input"))
    lift (
        guard (check_mode execution_mode)
          (value_error "execution mode must be direct, tool_agent, react, or plan_execute"))
    (id, history, sequence) ← locate conv_id create
    run_id ← on_outside factories.new_uuid
    let input : ConversationInput = record {
      conv_id = id;
      history = history;
      current_input = user_input;
    }
    (mode, criteria) ← choose_mode execution_mode input run_id
    execute_turn
        (record {
          conv_id = id;
          sequence = sequence;
          run_id = run_id;
          execution_mode = mode;
          user_input = user_input;
          status = pending;
          answer = none;
          error = none;
        })
        criteria input layout

  -- `resume` lets a cancellation through.
  abbrev pub finish_resume : ConversationTurn → Ending → Run (World S E) ConversationResult
  finish_resume turn (answered a) = do end_turn turn a; pure (result_of turn a)
  finish_resume turn (interrupted e) = raise e
  finish_resume turn (raised e) = raise e

  abbrev pub resume_turn :
      Option ConversationTurn → Option String → Run (World S E) ConversationResult
  unfolding ending_of
  resume_turn none recovery = raise (conversation_error "conversation has no active turn")
  resume_turn (some active) recovery = do
    lift (
        guard (active.execution_mode == "plan_execute")
          (conversation_error "only a plan_execute turn can be resumed"))
    runner ← on_outside (factories.make_recovery active.run_id)
    ended ← ending "conversation recovery failed" (runner recovery)
    finish_resume active ended

  unfoldable pub resume : String → Option String → Run (World S E) ConversationResult
  resume id recovery = do
    validate_uuid4 id
    conversation ← on_store (store.get id)
    resume_turn (find is_active conversation.turns) recovery

  unfoldable pub show : String → Run (World S E) (List ConversationTurn)
  show id = do validate_uuid4 id; conversation ← on_store (store.get id); pure conversation.turns
