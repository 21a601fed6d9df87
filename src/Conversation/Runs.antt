-- ===== src/Conversation/Runs.antt =====
-- agent/conversation.py: `run` and `resume` of the service on the in-memory store.
use codex_py.Conversation.Service.{
  is_mode, selected, on_outside, check_mode, choose_mode, locate, ConversationInput, World, run,
  Factories,
}
use codex_py.Conversation.Order.{
  execute_turn-InOrder, continue_conversation-InOrder, lift-InOrder, outside-InOrder, Always,
  memory_store, InOrder,
}
use codex_py.Base.Effect.{Run, After-raised, After, After-bind, lift}
use codex_py.Base.{
  List, type_error, Option, Bool, value_error, String, false, guard, is_blank, none, not, some,
  true,
}
use codex_py.Conversation.Ordered.{IsOrdered}
use codex_py.Conversation.Memory.{Store}

module _ {E : Type 0} (factories : Factories E) where
  locate-InOrder :
      (conv_id : Option String) (create : Bool) (w : World Store E)
      → InOrder factories w
      → After
          (Always factories)
          (InOrder factories)
          (locate memory_store factories conv_id create w)
  locate-InOrder none create w v =
      After-bind (Always factories) (Always factories) (InOrder factories)
        (on_outside factories.new_uuid w) _ (outside-InOrder factories factories.new_uuid w v)
        (λ _ u v'. v')
  locate-InOrder (some id) true w v =
      let checked =
        guard (factories.is_uuid4 id) (value_error "conversation requires a UUIDv4 conv_id") in
      After-bind (Always factories) (Always factories) (InOrder factories) (lift checked w) _
        (lift-InOrder factories checked w v) (λ _ u v'. v')
  locate-InOrder (some id) false w v = continue_conversation-InOrder factories id w v

  selected-InOrder :
      (select : Option (ConversationInput → String → Run E (String × Option (List String))))
      (input : ConversationInput) (run_id : String) (w : World Store E)
      → InOrder factories w
      → After
          (Always factories)
          (InOrder factories)
          (selected memory_store factories select input run_id w)
  selected-InOrder none input run_id w v = v
  selected-InOrder (some select) input run_id w v =
      After-bind (Always factories) (Always factories) (InOrder factories)
        (on_outside (select input run_id) w) _ (outside-InOrder factories (select input run_id) w v)
        (λ chosen w₁ v₁.
          let valid =
            guard (is_mode chosen.0)
              (type_error "task analyzer returned an invalid execution mode") in
          After-bind (Always factories) (Always factories) (InOrder factories) (lift valid w₁) _
            (lift-InOrder factories valid w₁ v₁) (λ _ w₂ v₂. v₂))

  choose_mode-InOrder :
      (mode : Option String) (input : ConversationInput) (run_id : String) (w : World Store E)
      → InOrder factories w
      → After
          (Always factories)
          (InOrder factories)
          (choose_mode memory_store factories mode input run_id w)
  choose_mode-InOrder none input run_id w v =
      selected-InOrder factories.select_mode input run_id w v
  choose_mode-InOrder (some mode) input run_id w v = v

  -- From an in-memory store in which the turns of every conversation are numbered 1, 2, 3, ...
  -- with no turn but the last one active, `run` leads to such a store, whatever the factories
  -- do and whether it returns a result or raises.
  pub run-IsOrdered :
      (user_input : String) (mode conv_id : Option String) (create : Bool) (layout : String)
      (w : World Store E)
      → IsOrdered w.store
      → IsOrdered (run memory_store factories user_input mode conv_id create layout w).1.store
  unfolding run
  run-IsOrdered user_input mode conv_id create layout w v =
      let given =
        guard (not (is_blank user_input))
          (value_error "conversation run requires nonempty user input") in
      let known =
        guard (check_mode memory_store factories mode)
          (value_error "execution mode must be direct, tool_agent, react, or plan_execute") in
      let order = InOrder factories in
      After-raised (Always factories) order _ (λ _ u v'. v')
        (After-bind (Always factories) (Always factories) order (lift given w) _
          (lift-InOrder factories given w v)
          (λ _ w₁ v₁.
            After-bind (Always factories) (Always factories) order (lift known w₁) _
              (lift-InOrder factories known w₁ v₁)
              (λ _ w₂ v₂.
                After-bind (Always factories) (Always factories) order
                  (locate memory_store factories conv_id create w₂) _
                  (locate-InOrder conv_id create w₂ v₂)
                  (λ place w₃ v₃.
                    After-bind (Always factories) (Always factories) order
                      (on_outside factories.new_uuid w₃) _
                      (outside-InOrder factories factories.new_uuid w₃ v₃)
                      (λ run_id w₄ v₄.
                        let input : ConversationInput = record {
                          conv_id = place.0;
                          history = place.1;
                          current_input = user_input;
                        } in
                        After-bind (Always factories) (Always factories) order
                          (choose_mode memory_store factories mode input run_id w₄) _
                          (choose_mode-InOrder mode input run_id w₄ v₄)
                          (λ chosen w₅ v₅.
                            execute_turn-InOrder factories _ chosen.1 input layout w₅ v₅))))))
