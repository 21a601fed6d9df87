-- ===== src/Conversation/Mysql.antt =====
-- agent/conversation.py: `MySQLConversationStore` over the tables of agent/migration.py. A method
-- that raises leaves the tables alone: its transaction is not committed. `reported old new` is the
-- driver's choice whether an UPDATE that takes a row from `old` to `new` counts it in `rowcount`,
-- `choose` the server's choice of a row where a query has no order, and `refusal` the error that it
-- raises for a turn that its column types do not admit (a text that is too long).
use codex_py.Base.{
  Error, Bool, List, Option, Result, String, [], any, contains, conversation_busy,
  conversation_error, conversation_not_found, err, guard, if◌then◌else◌, integrity_error, keep, map,
  nat_eq, none, not, some, string_eq, ℕ, ◌&&◌, ◌++◌, ◌+◌, ◌==◌, ◌||◌, ◌∷◌, ◌>>◌, ok,
}
use codex_py.Conversation.{is_active, Conversation, ConversationTurn}
use Prim.Native.Nat.{max}
use codex_py.Recovery.{sort_by}
use codex_py.Recovery.Mysql.{raise_refusal}

pub record Tables : Type 0 where
  pub conversations : List String
  pub conversation_turns : List ConversationTurn

abbrev pub is_of : String → ConversationTurn → Bool
is_of id t = t.conv_id == id

abbrev pub is_stored : Tables → String → Bool
is_stored tables id = contains tables.conversations id

-- COALESCE(MAX(sequence), 0)
abbrev pub max_sequence : List ConversationTurn → ℕ
max_sequence [] = 0
max_sequence (t ∷ rest) = max t.sequence (max_sequence rest)

-- PRIMARY KEY (conv_id, sequence), UNIQUE KEY conversation_turn_run (run_id)
abbrev pub same_key : ConversationTurn → ConversationTurn → Bool
same_key t x = (x.conv_id == t.conv_id && x.sequence == t.sequence) || x.run_id == t.run_id

-- The conversation is inserted with its first turn.
abbrev pub with_conversation : Tables → String → List String
with_conversation tables id =
    if is_stored tables id then tables.conversations else tables.conversations ++ (id ∷ [])

abbrev pub refuse_busy : Option ConversationTurn → Result (Unit {0})
refuse_busy none = ok tt
refuse_busy (some active) = err (conversation_busy active.sequence active.run_id)

module _ (choose : List ConversationTurn → Option ConversationTurn)
    (refusal : ConversationTurn → Option Error) where
  unfoldable pub append : Tables → ConversationTurn → Result Tables
  append tables turn = do
    guard (is_stored tables turn.conv_id || turn.sequence == 1)
        (conversation_not_found turn.conv_id)
    let rows = keep (is_of turn.conv_id) tables.conversation_turns
    refuse_busy (choose (keep is_active rows))
    guard (turn.sequence == max_sequence rows + 1)
        (conversation_error "conversation turn sequence conflict")
    raise_refusal (refusal turn)
    guard (not (any (same_key turn) tables.conversation_turns)) integrity_error
    ok (record {
      conversations = with_conversation tables turn.conv_id;
      conversation_turns = tables.conversation_turns ++ (turn ∷ []);
    })

-- ORDER BY sequence
unfoldable pub get : Tables → String → Result Conversation
get tables id = do
  guard (is_stored tables id) (conversation_not_found id)
  let rows = keep (is_of id) tables.conversation_turns
  ok (record { conv_id = id; turns = sort_by (λ (t : ConversationTurn). t.sequence) rows })

abbrev pub is_row_of : ConversationTurn → ConversationTurn → Bool
is_row_of turn x = x.conv_id == turn.conv_id && x.sequence == turn.sequence

abbrev pub written : ConversationTurn → ConversationTurn → ConversationTurn
written turn x =
    if is_row_of turn x
    then record x { status = turn.status; answer = turn.answer; error = turn.error }
    else x

unfoldable pub update :
    (ConversationTurn → ConversationTurn → Bool) → Tables → ConversationTurn → Result Tables
update reported tables turn = do
  let rows = tables.conversation_turns
  guard (any (λ x. is_row_of turn x && reported x (written turn x)) rows)
      (conversation_error "unknown conversation turn")
  ok (record tables { conversation_turns = map (written turn) rows })
