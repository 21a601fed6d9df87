-- ===== src/Conversation/Ordered.antt =====
-- agent/conversation.py: the order of the turns of every stored conversation.
-- The sequences are n, n + 1, ...
use codex_py.Conversation.Memory.{
  get, append, set_turns, setdefault, stored, turns_of, update, Store, append_turn, replace_turn,
}
use codex_py.Base.{
  String, some, Result, Result-cases, err, false, is_ok, ◌||◌, List, Bool, Option-cases, [], all,
  arith, find, inl, inr, length, nat_eq, none, not, ok, refl, string_eq, suc, true, ℕ, ◌&&◌, ◌++◌,
  ◌+◌, ◌==◌, ◌∷◌, ◌≡◌,
}
use codex_py.Conversation.{is_active, Conversation, ConversationTurn}

abbrev pub numbered_from : ℕ → List ConversationTurn → Bool
numbered_from n [] = true
numbered_from n (t ∷ rest) = t.sequence == n && numbered_from (suc n) rest

abbrev empty : List ConversationTurn → Bool
empty [] = true
empty (t ∷ rest) = false

abbrev pub last_only_active : List ConversationTurn → Bool
last_only_active [] = true
last_only_active (t ∷ rest) = (not (is_active t) || empty rest) && last_only_active rest

-- The turns are numbered 1, 2, 3, ..., and no turn but the last is active.
abbrev pub is_ordered : List ConversationTurn → Bool
is_ordered turns = numbered_from 1 turns && last_only_active turns

abbrev pub IsOrdered : Store → Type 0
IsOrdered store = all (λ (c : Conversation). is_ordered c.turns) store ≡ true

numbered_from-snoc :
    (n : ℕ) (turns : List ConversationTurn) (t : ConversationTurn)
    → numbered_from n (turns ++ (t ∷ []))
      ≡ (numbered_from n turns && t.sequence == n + length turns)
numbered_from-snoc n [] t = ground arith
numbered_from-snoc n (x ∷ rest) t = ground (arith, numbered_from-snoc (suc n) rest t)

last_only_active-snoc :
    (turns : List ConversationTurn) (t : ConversationTurn)
    → find is_active turns ≡ none
    → last_only_active (turns ++ (t ∷ [])) ≡ true
last_only_active-snoc [] t h = ground arith
last_only_active-snoc (x ∷ rest) t h = ground (arith, last_only_active-snoc rest t)

-- What holds of the turns that an operation returns, if it does not raise.
abbrev pub every : (List ConversationTurn → Bool) → Result (List ConversationTurn) → Bool
every p (ok turns) = p turns
every p (err e) = true

append_turn-is_ordered :
    (turns : List ConversationTurn) (t : ConversationTurn)
    → is_ordered turns ≡ true
    → every is_ordered (append_turn turns t) ≡ true
unfolding append_turn
append_turn-is_ordered turns t v = elim (Option-cases (find is_active turns)) [
  | inl e ↦ ground (arith, e, v, numbered_from-snoc 1 turns t, last_only_active-snoc turns t e)
  | inr (a, e) ↦ ground (arith, e)
]

replace_turn-numbered_from :
    (n : ℕ) (turns : List ConversationTurn) (t : ConversationTurn)
    → numbered_from n turns ≡ true
    → every (numbered_from n) (replace_turn turns t) ≡ true
unfolding replace_turn
replace_turn-numbered_from n [] t v = refl
replace_turn-numbered_from n (x ∷ rest) t v =
    ground (arith, replace_turn-numbered_from (suc n) rest t)

replace_turn-empty :
    (turns : List ConversationTurn) (t : ConversationTurn)
    → every empty (replace_turn turns t) ≡ (empty turns || not (is_ok (replace_turn turns t)))
unfolding replace_turn
replace_turn-empty [] t = refl
replace_turn-empty (x ∷ rest) t = ground arith

-- A turn that is active may only replace the last one.
replace_turn-last_only_active :
    (n : ℕ) (turns : List ConversationTurn) (t : ConversationTurn)
    → numbered_from n turns ≡ true
    → last_only_active turns ≡ true
    → (is_active t && not (t.sequence + 1 == n + length turns)) ≡ false
    → every last_only_active (replace_turn turns t) ≡ true
unfolding replace_turn
replace_turn-last_only_active n [] t v h fits = refl
replace_turn-last_only_active n (x ∷ rest) t v h fits = elim (Result-cases (replace_turn rest t)) [
  | inl (e, r) ↦ ground (arith, r)
  | inr (ts, r) ↦
      let ih = replace_turn-last_only_active (suc n) rest t in
      let nonempty = replace_turn-empty rest t in ground (arith, r, ih, nonempty)
]

-- The turn fits the turns that are stored under its conversation: it is the last one, or it has
-- ended.
abbrev pub fits : List ConversationTurn → ConversationTurn → Bool
fits turns t = not (is_active t) || t.sequence == length turns

replace_turn-is_ordered :
    (turns : List ConversationTurn) (t : ConversationTurn)
    → is_ordered turns ≡ true
    → fits turns t ≡ true
    → every is_ordered (replace_turn turns t) ≡ true
replace_turn-is_ordered turns t v h =
    let numbers = replace_turn-numbered_from 1 turns t in
    let actives = replace_turn-last_only_active 1 turns t in
    elim (Result-cases (replace_turn turns t)) [
      | inl (e, r) ↦ ground (arith, r)
      | inr (ts, r) ↦ ground (arith, r, numbers, actives)
    ]

setdefault-IsOrdered :
    (store : Store) (id : String) → IsOrdered store → IsOrdered (setdefault store id)
unfolding setdefault
setdefault-IsOrdered [] id v = refl
setdefault-IsOrdered (c ∷ rest) id v = ground (arith, setdefault-IsOrdered rest id)

turns_of-is_ordered :
    (store : Store) (id : String) → IsOrdered store → is_ordered (turns_of store id) ≡ true
unfolding turns_of
turns_of-is_ordered [] id v = refl
turns_of-is_ordered (c ∷ rest) id v = ground (arith, turns_of-is_ordered rest id)

set_turns-IsOrdered :
    (store : Store) (id : String) (turns : List ConversationTurn)
    → IsOrdered store
    → is_ordered turns ≡ true
    → IsOrdered (set_turns store id turns)
unfolding set_turns
set_turns-IsOrdered [] id turns v h = refl
set_turns-IsOrdered (c ∷ rest) id turns v h = ground (arith, set_turns-IsOrdered rest id turns)

stored-IsOrdered :
    (store : Store) (id : String) (r : Result (List ConversationTurn))
    → IsOrdered store
    → every is_ordered r ≡ true
    → IsOrdered (stored store id r).1
stored-IsOrdered store id (ok turns) v h = set_turns-IsOrdered store id turns v h
stored-IsOrdered store id (err e) v h = v

-- From a store in which the turns of every conversation are numbered 1, 2, 3, ... with no turn
-- but the last one active, `append` leads to such a store, whether it accepts the turn or
-- raises.
pub append-IsOrdered :
    (store : Store) (t : ConversationTurn) → IsOrdered store → IsOrdered (append t store).1
unfolding append
append-IsOrdered store t v =
    let created = setdefault-IsOrdered store t.conv_id v in
    stored-IsOrdered (setdefault store t.conv_id) t.conv_id _ created (
      append_turn-is_ordered (turns_of (setdefault store t.conv_id) t.conv_id) t
        (turns_of-is_ordered (setdefault store t.conv_id) t.conv_id created))

pub find-turns_of :
    (store : Store) (id : String) (c : Conversation)
    → find (λ (c : Conversation). c.conv_id == id) store ≡ some c
    → c.turns ≡ turns_of store id
unfolding turns_of
find-turns_of [] id c h = cc
find-turns_of (x ∷ rest) id c h = ground (arith, find-turns_of rest id c)

-- From a store in which the turns of every conversation are numbered 1, 2, 3, ... with no turn
-- but the last one active, `update` leads to such a store, when the new turn has ended or is
-- the last one of its conversation.
pub update-IsOrdered :
    (store : Store) (t : ConversationTurn)
    → IsOrdered store
    → fits (turns_of store t.conv_id) t ≡ true
    → IsOrdered (update t store).1
unfolding update get
update-IsOrdered store t v h =
    elim (Option-cases (find (λ (c : Conversation). c.conv_id == t.conv_id) store)) [
      | inl e ↦ rw e v
      | inr (c, e) ↦
          let turns = find-turns_of store t.conv_id c e in
          rw (e, turns)
            (stored-IsOrdered store t.conv_id _ v (
              replace_turn-is_ordered (turns_of store t.conv_id) t
                (turns_of-is_ordered store t.conv_id v) h))
    ]
