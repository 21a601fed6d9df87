-- ===== src/Examples/Conversations.antt =====
-- agent/conversation.py: a conversation with an ended turn gets a second one.
use codex_py.Base.{
  List, nat_eq, if◌then◌else◌, string_eq, ◌==◌, arith, Error, other_error, Option, String, [], err,
  false, is_blank, none, ok, refl, some, true, ℕ, ◌+◌, ◌∷◌, ◌≡◌,
}
use codex_py.Conversation.Mysql.{Tables}
use codex_py.Conversation.Refinement.{append-append_turn}
use codex_py.Conversation.Mysql
use codex_py.Conversation.Memory
use codex_py.Conversation.Runs.{run-IsOrdered}
use codex_py.Conversation.Service.{reconcile_active, run, Factories, World}
use codex_py.Conversation.Order.{memory_store}
use codex_py.Conversation.{ConversationTurn, ConversationStatus, completed, running}
use codex_py.Conversation.Ordered.{append-IsOrdered, update-IsOrdered, IsOrdered}
use codex_py.Conversation.Memory.{Store}
use codex_py.Conversation.Memory

abbrev turn : ℕ → ConversationStatus → ConversationTurn
turn n status = record {
  conv_id = "c";
  sequence = n;
  run_id = "r";
  execution_mode = "direct";
  user_input = "hello";
  status = status;
  answer = none;
  error = none;
}

abbrev chats : Store
chats = record { conv_id = "c"; turns = turn 1 completed ∷ [] } ∷ []

append-IsOrdered_example :
    IsOrdered (record { conv_id = "c"; turns = turn 1 completed ∷ turn 2 running ∷ [] } ∷ [])
unfolding Memory.append
append-IsOrdered_example = append-IsOrdered chats (turn 2 running) refl

update-IsOrdered_example : IsOrdered (record { conv_id = "c"; turns = turn 1 running ∷ [] } ∷ [])
unfolding Memory.update Memory.turns_of
update-IsOrdered_example = update-IsOrdered chats (turn 1 running) refl refl

-- Identifiers are counted; every runner answers "hi".
factories : Factories ℕ
factories = record {
  new_uuid = λ n. (ok "u", n + 1);
  is_uuid4 = λ id. true;
  make_runner = λ mode run_id criteria layout n. (
    ok (λ input m. (ok (record { answer = some "hi"; status = completed; error = none }), m)),
    n,
  );
  make_recovery = λ run_id n. (err (other_error "no recovery"), n);
  run_result = none;
  select_mode = none;
}

abbrev world : World Store ℕ
world = record { store = chats; active_runs = []; outside = 0 }

abbrev conversation_id : Option String
conversation_id = some "c"

-- The run appends the turn, ends it and returns its answer.
run_results :
    (run memory_store factories "hello" none conversation_id false "grouped" world).0
    ≡ ok (record {
      conv_id = "c";
      sequence = 2;
      run_id = "u";
      execution_mode = "direct";
      status = completed;
      answer = some "hi";
      error = none;
    })
unfolding run factories is_blank Memory.append Memory.update Memory.get reconcile_active
run_results = refl

run-IsOrdered_example :
    IsOrdered
      (run memory_store factories "hello" none conversation_id false "grouped" world).1.store
run-IsOrdered_example =
    run-IsOrdered factories "hello" none conversation_id false "grouped" world refl

abbrev tables : Tables
tables = record { conversations = "c" ∷ []; conversation_turns = turn 1 completed ∷ [] }

abbrev next_turn : ConversationTurn
next_turn = record (turn 2 running) { run_id = "s" }

abbrev first_row : List ConversationTurn → Option ConversationTurn
first_row [] = none
first_row (t ∷ rest) = some t

abbrev too_long : ConversationTurn → Option Error
too_long t = if t.user_input == "long" then some (other_error "Data too long") else none

append-append_turn_example :
    Mysql.append first_row too_long tables next_turn
    ≡ ok (record {
      conversations = "c" ∷ [];
      conversation_turns = turn 1 completed ∷ next_turn ∷ [];
    })
unfolding Memory.append_turn
append-append_turn_example =
    append-append_turn first_row too_long tables next_turn
      (record { of_none = refl; of_one = λ t. refl }) (omega arith) refl refl refl
