-- ===== src/Conversation/Order.antt =====
-- agent/conversation.py: the service keeps the order of the turns of every conversation.
use codex_py.Conversation.{
  Conversation, ConversationStatus, is_active, running, ended_turn, ExecutionAnswer,
  ConversationTurn,
}
use codex_py.Conversation.Service.{
  continue_conversation, end_by, reconcile_active, refuse_active, end_with, reconcile_durable,
  terminal_status, RunResult, reconcile_turn, reconcile_ephemeral, ending_of, is_ephemeral,
  ConversationInput, on_outside, add_if, execute_turn, on_store, raised, failed_answer, interrupted,
  discard_active, answered, end_turn, finish, Ending, World, ConversationStore, Factories,
}
use codex_py.Base.Effect.{lift, After-world, Run, After-weaken, After, After-bind}
use codex_py.Base.{
  find, guard, value_error, Option, Bool-cases, arith, contains, inl, inr, nat_eq, none, refl, some,
  string_eq, ◌≡◌, err, List, ok, Bool, String, false, true, Result,
}
use codex_py.Conversation.Ordered.{update-IsOrdered, IsOrdered}
use codex_py.Conversation.Held.{append-Holds, update-Holds, Holds}
use codex_py.Conversation.Memory.{Store}
use codex_py.Conversation.Memory

abbrev pub memory_store : ConversationStore Store
memory_store = record { append = Memory.append; get = Memory.get; update = Memory.update }

module _ {S E A : Type 0} where
  After-stored :
      (returned : A → S → Type 0) (failing : S → Type 0) (r : Result A × S) (w : World S E)
      → After returned failing r
      → After
          (λ a (u : World S E). returned a u.store)
          (λ (u : World S E). failing u.store)
          (r.0, record w { store = r.1 })
  After-stored returned failing (ok a, s) w h = h
  After-stored returned failing (err e, s) w h = h

  -- A call out of the program leaves the store.
  After-outside :
      (kept failing : S → Type 0) (r : Result A × E) (w : World S E)
      → kept w.store
      → failing w.store
      → After
          (λ a (u : World S E). kept u.store)
          (λ (u : World S E). failing u.store)
          (r.0, record w { outside = r.1 })
  After-outside kept failing (ok a, e) w h g = h
  After-outside kept failing (err x, e) w h g = g

module _ {E : Type 0} (factories : Factories E) where
  abbrev pub InOrder : World Store E → Type 0
  InOrder w = IsOrdered w.store

  abbrev pub Always : {A : Type 0} → A → World Store E → Type 0
  Always a w = InOrder w

  abbrev HeldAfter : {A : Type 0} → ConversationTurn → A → World Store E → Type 0
  HeldAfter t a w = Holds t w.store

  pub end_turn-InOrder :
      (t : ConversationTurn) (a : ExecutionAnswer) (w : World Store E)
      → Holds t w.store
      → After Always InOrder (end_turn memory_store factories t a w)
  end_turn-InOrder t a w h =
      After-stored (λ _. IsOrdered) IsOrdered (Memory.update (ended_turn t a) w.store) w
        (After-weaken (λ _. Holds (ended_turn t a)) (λ _. IsOrdered) IsOrdered
          (Memory.update (ended_turn t a) w.store) (update-Holds (ended_turn t a) w.store h)
          (λ _ s v. v.0))

  finish-InOrder :
      (t : ConversationTurn) (ended : Ending) (w : World Store E)
      → Holds t w.store
      → After Always InOrder (finish memory_store factories t ended w)
  finish-InOrder t (answered a) w h =
      After-bind Always Always InOrder
        (end_turn memory_store factories t a (discard_active t.run_id w).1) _
        (end_turn-InOrder t a _ h) (λ _ u v. v)
  finish-InOrder t (interrupted e) w h =
      let a = failed_answer "conversation execution interrupted" in
      After-bind Always Always InOrder (end_turn memory_store factories t a w) _
        (end_turn-InOrder t a w h) (λ _ u v. v)
  finish-InOrder t (raised e) w h = h.0

  outside-Holds :
      {A : Type 0} (t : ConversationTurn) (m : Run E A) (w : World Store E)
      → Holds t w.store
      → After (λ _ (u : World Store E). Holds t u.store) InOrder (on_outside m w)
  outside-Holds t m w h = After-outside (Holds t) IsOrdered (m w.outside) w h h.0

  start-Holds :
      (t : ConversationTurn) (w : World Store E)
      → InOrder w
      → After (λ _ (u : World Store E). Holds t u.store) InOrder (on_store (Memory.append t) w)
  start-Holds t w v =
      After-stored (λ _. Holds t) IsOrdered (Memory.append t w.store) w (append-Holds t w.store v)

  running-Holds :
      (t : ConversationTurn) (w : World Store E)
      → Holds t w.store
      → After
          (λ _ (u : World Store E). Holds t u.store)
          InOrder
          (on_store (Memory.update (record t { status = running })) w)
  running-Holds t w h =
      After-stored (λ _. Holds t) IsOrdered (Memory.update (record t { status = running }) w.store)
        w (update-Holds (record t { status = running }) w.store h)

  add_if-Holds :
      (t : ConversationTurn) (ephemeral : Bool) (run_id : String) (w : World Store E)
      → Holds t w.store
      → After
          (λ _ (u : World Store E). Holds t u.store)
          InOrder
          (add_if memory_store factories ephemeral run_id w)
  add_if-Holds t true run_id w h = h
  add_if-Holds t false run_id w h = h

  pub execute_turn-InOrder :
      (t : ConversationTurn) (criteria : List String) (input : ConversationInput) (layout : String)
      (w : World Store E)
      → InOrder w
      → After Always InOrder (execute_turn memory_store factories t criteria input layout w)
  unfolding execute_turn
  execute_turn-InOrder t criteria input layout w v =
      let begun = on_store {S = Store} {E = E} (Memory.update (record t { status = running })) in
      let noted = add_if memory_store factories (is_ephemeral t.execution_mode) t.run_id in
      let made = factories.make_runner t.execution_mode t.run_id criteria layout in
      After-bind (HeldAfter t) Always InOrder (on_store (Memory.append t) w) _ (start-Holds t w v)
        (λ _ w₁ h₁.
          After-bind (HeldAfter t) Always InOrder (begun w₁) _ (running-Holds t w₁ h₁) (λ _ w₂ h₂.
            After-bind (HeldAfter t) Always InOrder (noted w₂) _
              (add_if-Holds t (is_ephemeral t.execution_mode) t.run_id w₂ h₂)
              (λ _ w₃ h₃.
                After-bind (HeldAfter t) Always InOrder (on_outside made w₃) _
                  (outside-Holds t made w₃ h₃)
                  (λ runner w₄ h₄.
                    finish-InOrder t
                      (ending_of "conversation execution failed" (runner input w₄.outside).0)
                      (record w₄ { outside = (runner input w₄.outside).1 }) h₄))))

  -- A turn that has ended may be written whatever its sequence.
  ended-InOrder :
      (t : ConversationTurn) (w : World Store E)
      → is_active t ≡ false
      → InOrder w
      → After Always InOrder (on_store (Memory.update t) w)
  ended-InOrder t w over v =
      After-stored (λ _. IsOrdered) IsOrdered (Memory.update t w.store) w
        (After-world IsOrdered (Memory.update t w.store)
          (update-IsOrdered w.store t v (rw over refl)))

  terminal_status-ended :
      (s : Option String) (status : ConversationStatus) (t : ConversationTurn)
      (answer error : Option String)
      → terminal_status s ≡ some status
      → is_active (ended_turn t (record { answer = answer; status = status; error = error }))
        ≡ false
  terminal_status-ended none status t answer error h = cc
  terminal_status-ended (some s) status t answer error h = ground arith

  end_by-InOrder :
      (active : ConversationTurn) (r : RunResult) (status : Option ConversationStatus)
      (w : World Store E)
      → terminal_status r.status ≡ status
      → InOrder w
      → After Always InOrder (end_by memory_store factories active r status w)
  end_by-InOrder active r none w e v = v
  end_by-InOrder active r (some status) w e v =
      ended-InOrder
        (ended_turn active (record { answer = r.answer; status = status; error = r.error })) w
        (terminal_status-ended r.status status active r.answer r.error e) v

  end_with-InOrder :
      (active : ConversationTurn) (r : Option RunResult) (w : World Store E)
      → InOrder w
      → After Always InOrder (end_with memory_store factories active r w)
  end_with-InOrder active none w v = v
  end_with-InOrder active (some r) w v = end_by-InOrder active r (terminal_status r.status) w refl v

  reconcile_durable-InOrder :
      (run_result : Option (String → Run E (Option RunResult))) (active : ConversationTurn)
      (w : World Store E)
      → InOrder w
      → After Always InOrder (reconcile_durable memory_store factories run_result active w)
  reconcile_durable-InOrder none active w v = v
  reconcile_durable-InOrder (some run_result) active w v =
      After-bind Always Always InOrder (on_outside (run_result active.run_id) w) _
        (After-outside IsOrdered IsOrdered (run_result active.run_id w.outside) w v v)
        (λ r u. end_with-InOrder active r u)

  reconcile_ephemeral-InOrder :
      (active : ConversationTurn) (w : World Store E)
      → InOrder w
      → After Always InOrder (reconcile_ephemeral memory_store factories active w)
  reconcile_ephemeral-InOrder active w v =
      elim (Bool-cases (contains w.active_runs active.run_id)) [
        | inl here ↦ rw here v
        | inr gone ↦ rw gone (ended-InOrder _ w refl v)
      ]

  reconcile_turn-InOrder :
      (active : Option ConversationTurn) (w : World Store E)
      → InOrder w
      → After Always InOrder (reconcile_turn memory_store factories active w)
  reconcile_turn-InOrder none w v = v
  reconcile_turn-InOrder (some active) w v =
      elim (Bool-cases (is_ephemeral active.execution_mode)) [
        | inl ephemeral ↦ rw ephemeral (reconcile_ephemeral-InOrder active w v)
        | inr durable ↦ rw durable (reconcile_durable-InOrder factories.run_result active w v)
      ]

  pub lift-InOrder :
      {A : Type 0} (r : Result A) (w : World Store E) → InOrder w → After Always InOrder (lift r w)
  lift-InOrder (ok a) w v = v
  lift-InOrder (err e) w v = v

  pub outside-InOrder :
      {A : Type 0} (m : Run E A) (w : World Store E)
      → InOrder w
      → After Always InOrder (on_outside m w)
  outside-InOrder m w v = After-outside IsOrdered IsOrdered (m w.outside) w v v

  pub get-InOrder :
      (id : String) (w : World Store E)
      → InOrder w
      → After Always InOrder (on_store (Memory.get id) w)
  unfolding Memory.get
  get-InOrder id w v =
      After-stored (λ _. IsOrdered) IsOrdered (Memory.get id w.store) w
        (After-world IsOrdered (Memory.get id w.store) v)

  refuse_active-InOrder :
      (active : Option ConversationTurn) (w : World Store E)
      → InOrder w
      → After Always InOrder (refuse_active memory_store factories active w)
  refuse_active-InOrder none w v = v
  refuse_active-InOrder (some active) w v = v

  pub continue_conversation-InOrder :
      (id : String) (w : World Store E)
      → InOrder w
      → After Always InOrder (continue_conversation memory_store factories id w)
  unfolding reconcile_active
  continue_conversation-InOrder id w v =
      let checked =
        guard (factories.is_uuid4 id) (value_error "conversation requires a UUIDv4 conv_id") in
      let find_active = λ (c : Conversation). find is_active c.turns in
      let read = on_store {S = Store} {E = E} (Memory.get id) in
      After-bind Always Always InOrder (lift checked w) _ (lift-InOrder checked w v) (λ _ w₁ v₁.
        After-bind Always Always InOrder (read w₁) _ (get-InOrder id w₁ v₁) (λ found w₂ v₂.
          After-bind Always Always InOrder
            (reconcile_turn memory_store factories (find_active found) w₂) _
            (reconcile_turn-InOrder (find_active found) w₂ v₂)
            (λ _ w₃ v₃.
              After-bind Always Always InOrder (read w₃) _ (get-InOrder id w₃ v₃) (λ c w₄ v₄.
                After-bind Always Always InOrder
                  (refuse_active memory_store factories (find_active c) w₄) _
                  (refuse_active-InOrder (find_active c) w₄ v₄) (λ _ w₅ v₅. v₅)))))
