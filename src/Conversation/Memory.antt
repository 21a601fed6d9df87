-- ===== src/Conversation/Memory.antt =====
-- agent/conversation.py: `InMemoryConversationStore`, whose dictionary is the list of its
use codex_py.Base.{
  List, Option, Result, String, [], conversation_busy, conversation_error, conversation_not_found,
  err, find, if◌then◌else◌, length, nat_eq, none, ok, some, string_eq, ◌++◌, ◌+◌, ◌==◌, ◌∷◌,
  ◌>>=◌ as bind_result,
}
use codex_py.Conversation.{is_active, Conversation, ConversationTurn}
use codex_py.Base.Effect.{Run, ◌>>=◌}

-- conversations: each is stored under its own `conv_id`.
abbrev pub Store : Type 0
Store = List Conversation

-- self.conversations.setdefault(conv_id, Conversation(conv_id))
unfoldable pub setdefault : Store → String → Store
setdefault [] id = record { conv_id = id; turns = [] } ∷ []
setdefault (c ∷ rest) id =
    let later = setdefault rest id in if c.conv_id == id then c ∷ rest else c ∷ later

-- The turns of a conversation, none when the store does not have it.
unfoldable pub turns_of : Store → String → List ConversationTurn
turns_of [] id = []
turns_of (c ∷ rest) id = let later = turns_of rest id in if c.conv_id == id then c.turns else later

-- The list of turns of a stored conversation is changed in place.
unfoldable pub set_turns : Store → String → List ConversationTurn → Store
set_turns [] id turns = []
set_turns (c ∷ rest) id turns =
    let later = set_turns rest id turns in
    if c.conv_id == id then record c { turns = turns } ∷ rest else c ∷ later

-- The checks of `append` on the turns.
unfoldable pub append_turn :
    List ConversationTurn → ConversationTurn → Result (List ConversationTurn)
append_turn turns turn = elim (find is_active turns) [
  | some active ↦ err (conversation_busy active.sequence active.run_id)
  | none ↦
      if turn.sequence == length turns + 1
      then ok (turns ++ (turn ∷ []))
      else err (conversation_error "conversation turn sequence conflict")
]

abbrev pub stored : Store → String → Result (List ConversationTurn) → Result (Unit {0}) × Store
stored store id (ok turns) = (ok tt, set_turns store id turns)
stored store id (err e) = (err e, store)

-- A conversation that `append` creates is kept also when the turn is refused.
unfoldable pub append : ConversationTurn → Run Store (Unit {0})
unfolding setdefault turns_of set_turns append_turn
append turn store =
    let created = setdefault store turn.conv_id in
    stored created turn.conv_id (append_turn (turns_of created turn.conv_id) turn)

abbrev pub or_not_found : String → Option Conversation → Result Conversation
or_not_found id none = err (conversation_not_found id)
or_not_found id (some c) = ok c

unfoldable pub get : String → Run Store Conversation
get id store = (or_not_found id (find (λ (c : Conversation). c.conv_id == id) store), store)

-- The loop of `update`: the first turn with the sequence is replaced.
unfoldable pub replace_turn :
    List ConversationTurn → ConversationTurn → Result (List ConversationTurn)
replace_turn [] turn = err (conversation_error "unknown conversation turn")
replace_turn (t ∷ rest) turn =
    let later = replace_turn rest turn in
    if t.sequence == turn.sequence then ok (turn ∷ rest) else bind_result later (λ ts. ok (t ∷ ts))

unfoldable pub update : ConversationTurn → Run Store (Unit {0})
unfolding set_turns replace_turn get
update turn = do
  conversation ← get turn.conv_id
  λ store. stored store turn.conv_id (replace_turn conversation.turns turn)
