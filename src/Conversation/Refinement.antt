-- ===== src/Conversation/Refinement.antt =====
-- agent/conversation.py: both stores accept the same turns.
use codex_py.Base.{
  Bool, Bool-cases, Error, Option, none, some, refl, sym, ◌∙◌, ◌≤◌, List, Option-cases, [], any,
  arith, false, find, inl, inr, keep, length, suc, true, ℕ, ◌++◌, ◌+◌, ◌∷◌, ◌≡◌, ◌>>◌, ok,
}
use codex_py.Conversation.{is_active, ConversationTurn}
use codex_py.Recovery.Mysql.{raise_refusal}
use codex_py.Conversation.Mysql.{same_key, is_of, max_sequence, is_stored, Tables}
use Prim.Native.Nat.{max}
use codex_py.Conversation.Ordered.{numbered_from}
use codex_py.Conversation.Memory.{append_turn}
use codex_py.Conversation.Mysql

max_sequence-numbered_from :
    (n : ℕ) (rows : List ConversationTurn)
    → numbered_from (suc n) rows ≡ true
    → max n (max_sequence rows) ≡ n + length rows
max_sequence-numbered_from n [] v = omega arith
max_sequence-numbered_from n (t ∷ rest) v = ground (arith, max_sequence-numbered_from (suc n) rest)

-- What a query without an order returns of no row and of one row.
pub record IsChoice (choose : List ConversationTurn → Option ConversationTurn) : Type 0 where
  pub of_none : choose [] ≡ none
  pub of_one : (t : ConversationTurn) → choose (t ∷ []) ≡ some t

first_of : List ConversationTurn → Option ConversationTurn
first_of [] = none
first_of (t ∷ rest) = some t

find-keep :
    (p : ConversationTurn → Bool) (rows : List ConversationTurn)
    → find p rows ≡ first_of (keep p rows)
unfolding first_of
find-keep p [] = refl
find-keep p (t ∷ rest) = elim (Bool-cases (p t)) [
  | inl held ↦ rw held refl
  | inr not_held ↦ rw not_held (find-keep p rest)
]

choose-first_of :
    (choose : List ConversationTurn → Option ConversationTurn) (rows : List ConversationTurn)
    → IsChoice choose
    → length rows ≤ 1
    → choose rows ≡ first_of rows
unfolding first_of
choose-first_of choose [] c le = c.of_none
choose-first_of choose (t ∷ []) c le = c.of_one t
choose-first_of choose (t ∷ u ∷ rest) c le = absurd (omega arith)

-- For a stored conversation whose turns are numbered 1, 2, 3, ... with at most one of them active, and
-- a turn that no row has the key of, the MySQL store's `append` raises what the in-memory store
-- raises on these turns. Where that one accepts the turn, it raises what the server raises for a turn
-- that its column types refuse, and otherwise adds the turn as the last row.
pub append-append_turn :
    (choose : List ConversationTurn → Option ConversationTurn)
    (refusal : ConversationTurn → Option Error) (tables : Tables) (turn : ConversationTurn)
    → IsChoice choose
    → length (keep is_active (keep (is_of turn.conv_id) tables.conversation_turns)) ≤ 1
    → is_stored tables turn.conv_id ≡ true
    → numbered_from 1 (keep (is_of turn.conv_id) tables.conversation_turns) ≡ true
    → any (same_key turn) tables.conversation_turns ≡ false
    → Mysql.append choose refusal tables turn ≡ (
        append_turn (keep (is_of turn.conv_id) tables.conversation_turns) turn
        >> raise_refusal (refusal turn)
        >> ok (record tables { conversation_turns = tables.conversation_turns ++ (turn ∷ []) }))
unfolding Mysql.append append_turn
append-append_turn choose refusal tables turn choice single stored numbered free =
    let rows = keep (is_of turn.conv_id) tables.conversation_turns in
    let last_sequence = max_sequence-numbered_from 0 rows numbered in
    let chosen =
      choose-first_of choose (keep is_active rows) choice single ∙ sym (find-keep is_active rows) in
    elim (Option-cases (find is_active rows)) [
      | inl e ↦ elim (Option-cases (refusal turn)) [
        | inl admitted ↦ ground (arith, stored, free, chosen, e, last_sequence, admitted)
        | inr (x, refused) ↦ ground (arith, stored, free, chosen, e, last_sequence, refused)
      ]
      | inr (a, e) ↦ ground (arith, stored, chosen, e)
    ]
