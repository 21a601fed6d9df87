-- ===== src/Conversation/Held.antt =====
-- agent/conversation.py: the place that `append` gives a turn is kept until the turn ends.
use codex_py.Conversation.Ordered.{find-turns_of, append-IsOrdered, update-IsOrdered, IsOrdered}
use codex_py.Conversation.Memory.{
  append, get, update, set_turns, Store, append_turn, replace_turn, setdefault, turns_of,
}
use codex_py.Base.Effect.{After}
use codex_py.Conversation.{is_active, Conversation, ConversationTurn}
use codex_py.Base.{
  find, List, Bool, Option-cases, Result-cases, String, [], any, ap, arith, eq_iff, inl, inr,
  length, length-append, nat_eq, ok, some, string_eq, true, ◌==◌, ◌∙◌, ◌∷◌, ◌≡◌,
}

has_conversation : Store → String → Bool
has_conversation store id = any (λ (c : Conversation). c.conv_id == id) store

has_conversation-setdefault :
    (store : Store) (id : String) → has_conversation (setdefault store id) id ≡ true
unfolding setdefault has_conversation
has_conversation-setdefault [] id = ground (arith, eq_iff id id)
has_conversation-setdefault (c ∷ rest) id = ground (arith, has_conversation-setdefault rest id)

turns_of-set_turns :
    (store : Store) (id : String) (turns : List ConversationTurn)
    → has_conversation store id ≡ true
    → turns_of (set_turns store id turns) id ≡ turns
unfolding turns_of set_turns has_conversation
turns_of-set_turns [] id turns h = cc
turns_of-set_turns (c ∷ rest) id turns h = ground (arith, turns_of-set_turns rest id turns)

-- The store is ordered, and the turn is the last of its conversation.
abbrev pub Holds : ConversationTurn → Store → Type 0
Holds t store = IsOrdered store × (length (turns_of store t.conv_id) ≡ t.sequence)

append_turn-length :
    (turns ts : List ConversationTurn) (t : ConversationTurn)
    → append_turn turns t ≡ ok ts
    → length ts ≡ t.sequence
unfolding append_turn
append_turn-length turns ts t h = elim (Option-cases (find is_active turns)) [
  | inl e ↦ ground (arith, e, length-append turns (t ∷ []))
  | inr (a, e) ↦ ground (arith, e)
]

replace_turn-length :
    (turns ts : List ConversationTurn) (t : ConversationTurn)
    → replace_turn turns t ≡ ok ts
    → length ts ≡ length turns
unfolding replace_turn
replace_turn-length [] ts t h = cc
replace_turn-length (x ∷ rest) ts t h = elim (Result-cases (replace_turn rest t)) [
  | inl (e, r) ↦ ground (arith, r)
  | inr (us, r) ↦ let ih = replace_turn-length rest us t r in ground (arith, r, ih)
]

pub append-Holds :
    (t : ConversationTurn) (store : Store)
    → IsOrdered store
    → After (λ _ s. Holds t s) IsOrdered (append t store)
unfolding append
append-Holds t store v =
    let created = setdefault store t.conv_id in
    let kept = append-IsOrdered store t v in
    elim (Result-cases (append_turn (turns_of created t.conv_id) t)) [
      | inl (e, r) ↦ rw r (rw r at kept)
      | inr (ts, r) ↦ rw r (
        rw r at kept,
        rw (turns_of-set_turns created t.conv_id ts (has_conversation-setdefault store t.conv_id))
            (append_turn-length (turns_of created t.conv_id) ts t r),
      )
    ]

find-has_conversation :
    (store : Store) (id : String) (c : Conversation)
    → find (λ (c : Conversation). c.conv_id == id) store ≡ some c
    → has_conversation store id ≡ true
unfolding has_conversation
find-has_conversation [] id c h = cc
find-has_conversation (x ∷ rest) id c h = ground (arith, find-has_conversation rest id c)

pub update-Holds :
    (t : ConversationTurn) (store : Store)
    → Holds t store
    → After (λ _ s. Holds t s) IsOrdered (update t store)
unfolding update get
update-Holds t store (v, h) =
    let kept = update-IsOrdered store t v (ground arith) in
    elim (Option-cases (find (λ (c : Conversation). c.conv_id == t.conv_id) store)) [
      | inl e ↦ rw e v
      | inr (c, e) ↦ elim (Result-cases (replace_turn c.turns t)) [
        | inl (e', r) ↦ rw (e, r) v
        | inr (ts, r) ↦
            rw (e, r)
              (
                rw (e, r) at kept,
                rw
                    (turns_of-set_turns store t.conv_id ts
                      (find-has_conversation store t.conv_id c e))
                    (replace_turn-length c.turns ts t r
                      ∙ ap length (find-turns_of store t.conv_id c e)
                      ∙ h),
              )
      ]
    ]
