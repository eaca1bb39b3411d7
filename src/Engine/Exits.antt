-- ===== src/Engine/Exits.antt =====
-- exit_order_book.cpp, process_stop_loss_heap and process_take_profit_heap, with the callbacks of
-- back_test_engine.cpp, execute_exit_orders.
use quant_forge_quant_resear.Common.{ℕ, zero, suc, String, none, some, List, [], ◌∷◌, ◌++◌}
use quant_forge_quant_resear.Result.{Result, ok, unfinished, ◌>>=◌}
use quant_forge_quant_resear.Double.{Double}
use quant_forge_quant_resear.Heap
use quant_forge_quant_resear.Heap.Refill.{push_all}
use quant_forge_quant_resear.Models.{
  StopLossExitOrder, TakeProfitExitOrder, stop_loss_before, take_profit_before,
  stop_loss_to_close_instruction, take_profit_to_close_instruction,
}
use quant_forge_quant_resear.Params.{HostParams}
use quant_forge_quant_resear.ExitBook.{discard, trigger, keep, judge_stop_loss, judge_take_profit}
use quant_forge_quant_resear.Engine.{Engine, execute}

module _ {D : Type 0} where
  abbrev pub set_stop_loss_heap : List (StopLossExitOrder D) → Engine D → Engine D
  set_stop_loss_heap heap e = record e {
    exit_order_book = record (e.exit_order_book) { stop_loss_heap = heap };
  }

  abbrev pub set_take_profit_heap : List (TakeProfitExitOrder D) → Engine D → Engine D
  set_take_profit_heap heap e = record e {
    exit_order_book = record (e.exit_order_book) { take_profit_heap = heap };
  }

module _ {D : Type 0} ⦃d : Double D⦄ (create_uuid : ℕ → String) where
  -- Empties the heap of stop losses; those not triggered wait in a vector and go back at the end.
  unfoldable pub process_stop_loss_loop :
      ℕ → HostParams D → List (StopLossExitOrder D) → Engine D → Result (Engine D)
  process_stop_loss_loop zero host_params not_triggered e = unfinished
  process_stop_loss_loop (suc rounds) host_params not_triggered e =
      let heap = e.exit_order_book.stop_loss_heap in
      let popped = set_stop_loss_heap (Heap.pop stop_loss_before heap) e in
      elim (Heap.top heap) [
        | none ↦ ok (set_stop_loss_heap (push_all stop_loss_before heap not_triggered) e)
        | some exit_order ↦ elim (judge_stop_loss e.state exit_order) [
          | discard ↦ process_stop_loss_loop rounds host_params not_triggered popped
          | trigger ↦
              execute create_uuid (stop_loss_to_close_instruction exit_order) host_params popped
              >>= process_stop_loss_loop rounds host_params not_triggered
          | keep ↦
              process_stop_loss_loop rounds host_params (not_triggered ++ exit_order ∷ []) popped
        ]
      ]

  unfoldable pub process_take_profit_loop :
      ℕ → HostParams D → List (TakeProfitExitOrder D) → Engine D → Result (Engine D)
  process_take_profit_loop zero host_params not_triggered e = unfinished
  process_take_profit_loop (suc rounds) host_params not_triggered e =
      let heap = e.exit_order_book.take_profit_heap in
      let popped = set_take_profit_heap (Heap.pop take_profit_before heap) e in
      elim (Heap.top heap) [
        | none ↦ ok (set_take_profit_heap (push_all take_profit_before heap not_triggered) e)
        | some exit_order ↦ elim (judge_take_profit e.state exit_order) [
          | discard ↦ process_take_profit_loop rounds host_params not_triggered popped
          | trigger ↦
              execute create_uuid (take_profit_to_close_instruction exit_order) host_params popped
              >>= process_take_profit_loop rounds host_params not_triggered
          | keep ↦
              process_take_profit_loop rounds host_params (not_triggered ++ exit_order ∷ []) popped
        ]
      ]

  unfoldable pub execute_exit_orders : ℕ → HostParams D → Engine D → Result (Engine D)
  unfolding process_stop_loss_loop process_take_profit_loop
  execute_exit_orders rounds host_params e =
      process_stop_loss_loop rounds host_params [] e
      >>= process_take_profit_loop rounds host_params []
