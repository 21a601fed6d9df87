-- ===== src/Durable/Walks.antt =====
-- agent/durable.py: where a walk through the graph can stop, and what a run of the graph returns.
use codex_py.Base.{◌≡◌, Option, Result, arith, err, false, ok, refl, suc, zero, ℕ}
use codex_py.Durable.{GraphState, Node, StepExecutor, RecoveryStore, step, plan, start_node}
use codex_py.Base.Json.{Json}
use codex_py.Durable.Places.{IsAt, is_blocked}
use codex_py.Durable.Routes.{step-IsAt}
use codex_py.Durable.Runs.{walk, Stop, continue_walk}
use codex_py.State.{Plan}
use codex_py.State.Agent.{AgentState}
use codex_py.Base.Effect.{Run}

start_node-free : (g : GraphState) → start_node g ≡ plan → is_blocked g.status ≡ false
start_node-free g h = ground (arith, h)

module _ {W : Type 0} (planner : AgentState → Option Json → Run W Plan) (executor : StepExecutor W)
    (store : Option (RecoveryStore W)) where
  continue_walk-IsAt :
      (n : Node) (g : GraphState) (rest : Node → GraphState → W → Stop × W)
      (r : Result (Node × GraphState) × W)
      → IsAt n g
      → ((n' : Node) (g' : GraphState) (w' : W)
          → r ≡ (ok (n', g'), w')
          → IsAt (rest n' g' w').0.node (rest n' g' w').0.checkpoint)
      → IsAt
          (continue_walk planner executor store n g rest r).0.node
          (continue_walk planner executor store n g rest r).0.checkpoint
  continue_walk-IsAt n g rest (err e, w) here next = here
  continue_walk-IsAt n g rest (ok (n', g'), w) here next = next n' g' w refl

  -- A walk that starts where `IsAt` holds stops where it holds, whatever the Planner, the Executor
  -- and the store do, with or without an exception, and however far the fuel takes it: it is at END
  -- only with the status completed and every step of the last plan completed, or with the status
  -- blocked and a last plan of revision 3.
  pub walk-IsAt :
      (fuel : ℕ) (n : Node) (g : GraphState) (w : W)
      → IsAt n g
      → IsAt
          (walk planner executor store fuel n g w).0.node
          (walk planner executor store fuel n g w).0.checkpoint
  unfolding walk
  walk-IsAt zero n g w here = here
  walk-IsAt (suc fuel) n g w here =
      continue_walk-IsAt n g (walk planner executor store fuel) (step planner executor store n g w)
        here
        (λ n' g' w' stepped.
          walk-IsAt fuel n' g' w' (step-IsAt planner executor store n n' g g' w w' here stepped))
