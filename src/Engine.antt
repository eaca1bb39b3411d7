-- ===== src/Engine.antt =====
-- src/simulators/back_test/back_test_engine.hpp and .cpp: the bars of a back test drive the order book,
-- the limit orders, the exit orders and the plugin. `create_uuid n` is the text that the n-th fill draws.
-- A loop that may run on takes a number of rounds, and is `unfinished` where they do not suffice.
pub mod Limits
pub mod Exits
pub mod Run
pub mod Kept
pub mod Bars
pub mod Ordered
pub mod Due
pub mod Closes
pub mod Rounds
pub mod Account
use quant_forge_quant_resear.Common.{
  ℕ, zero, suc, ◌+◌, String, Bool, true, false, not, Option, none, some, List, [], ◌∷◌, ◌++◌, map,
  if◌then◌else◌,
}
use quant_forge_quant_resear.Common.Int.{ℤ, pos, ltb_ℤ, eqb_ℤ}
use quant_forge_quant_resear.Common.Dict
use quant_forge_quant_resear.Common.Dict.{Dict}
use quant_forge_quant_resear.Result.{Result, ok, throw, unfinished, runtime_error, ◌>>=◌}
use quant_forge_quant_resear.Double.{Double}
use quant_forge_quant_resear.Heap
use quant_forge_quant_resear.Heap.Refill.{push_all}
use quant_forge_quant_resear.Models.{
  Order, Fill, ScheduledOrder, scheduled_before, LimitOrder, ScheduledLimitOrder, limit_buy,
  limit_sell, buy_before, sell_before, StopLossExitOrder, TakeProfitExitOrder, ExitOrder,
  stop_loss_before, take_profit_before, stop_loss_to_close_instruction,
  take_profit_to_close_instruction, ExecutionResultSuccess, ExecutionResult, success, error,
  is_buy_action, is_sell_action, is_limit_order,
}
use quant_forge_quant_resear.Params.{HostParams}
use quant_forge_quant_resear.State.{State}
use quant_forge_quant_resear.Ledger.{update_state}
use quant_forge_quant_resear.Snapshot.{record_bar_equity_snapshot}
use quant_forge_quant_resear.Exchange.{
  is_within_market_hour_restrictions, calculate_slippage_time_ns,
}
use quant_forge_quant_resear.PositionCalc.{
  find_buy_fill_uuids_closed_by_sell, find_sell_fill_uuids_closed_by_buy,
}
use quant_forge_quant_resear.Executor.{execute_order, signal_to_order}
use quant_forge_quant_resear.AbiConverter.{
  PluginResult, CInstruction, Instruction, signal, order, to_instruction,
}
use quant_forge_quant_resear.ExitBook.{
  ExitOrderBook, Verdict, discard, trigger, keep, add_exit_order, judge_stop_loss,
  judge_take_profit, reduce_exit_orders_by_fills,
}
use quant_forge_quant_resear.LimitBook.{LimitOrderBook, add_limit_order, heap_of}

pub record Engine (D : Type 0) : Type 0 where
  pub state : State D
  pub order_book : List (ScheduledOrder D)
  pub exit_order_book : ExitOrderBook D
  pub limit_order_book : LimitOrderBook D
  pub uuids_drawn : ℕ

module _ {D : Type 0} ⦃d : Double D⦄ where
  unfoldable pub create_scheduled_order : Order D → HostParams D → State D → ScheduledOrder D
  create_scheduled_order o host_params s = record {
    order = o;
    scheduled_fill_at_ns = calculate_slippage_time_ns o host_params s;
  }

  unfoldable pub create_scheduled_limit_order : Order D → Result (ScheduledLimitOrder D)
  create_scheduled_limit_order o = elim o.limit_price [
    | none ↦ throw (runtime_error "Cannot create limit order without limit price")
    | some price ↦ ok (
        if is_buy_action o.action
        then limit_buy (record { order = o; limit_price = price })
        else limit_sell (record { order = o; limit_price = price }))
  ]

  -- A limit order goes to the limit book, any other to the order book at its slipped time.
  unfoldable pub schedule : Order D → HostParams D → Engine D → Result (Engine D)
  unfolding create_scheduled_order create_scheduled_limit_order
  schedule o host_params e =
      if is_limit_order o
      then (do
        limit ← create_scheduled_limit_order o
        ok (record e { limit_order_book = add_limit_order limit e.limit_order_book }))
      else ok (record e {
        order_book =
            Heap.push scheduled_before e.order_book (create_scheduled_order o host_params e.state);
      })

  unfoldable pub add_exit_orders : List (ExitOrder D) → ExitOrderBook D → ExitOrderBook D
  add_exit_orders [] book = book
  add_exit_orders (e ∷ es) book = add_exit_orders es (add_exit_order e book)

  -- The open fills that a fill closes, by the state before the fill is recorded
  unfoldable pub closed_fills : Fill D → State D → List (String × D)
  closed_fills fill s =
      if is_sell_action fill.action
      then find_buy_fill_uuids_closed_by_sell fill s
      else (if is_buy_action fill.action then find_sell_fill_uuids_closed_by_buy fill s else [])

  unfoldable pub book_success :
      ExecutionResultSuccess D → HostParams D → Engine D → Result (Engine D)
  unfolding schedule add_exit_orders closed_fills
  book_success result host_params e = do
    let reduced = reduce_exit_orders_by_fills (closed_fills result.fill e.state) e.exit_order_book
    let booked = record e { exit_order_book = add_exit_orders result.exit_orders reduced }
    scheduled ← elim result.partial_order [
      | none ↦ ok booked
      | some partial ↦ schedule partial host_params booked
    ]
    ok (record scheduled { state = update_state result scheduled.state })

  unfoldable pub handle_execution_result :
      ExecutionResult D → HostParams D → Engine D → Result (Engine D)
  unfolding book_success
  handle_execution_result (error message) host_params e = ok e
  handle_execution_result (success result) host_params e = book_success result host_params e

  module _ (create_uuid : ℕ → String) where
    -- `execute_order`, then `handle_execution_result`: the body of every loop and callback below
    unfoldable pub execute : Order D → HostParams D → Engine D → Result (Engine D)
    unfolding handle_execution_result
    execute o host_params e = do
      result ← execute_order o host_params e.state (create_uuid e.uuids_drawn)
      handle_execution_result result host_params (record e { uuids_drawn = suc e.uuids_drawn })

    -- Runs the orders that are due at the bar's time.
    unfoldable pub execute_order_book : ℕ → ℤ → HostParams D → Engine D → Result (Engine D)
    execute_order_book zero now host_params e = unfinished
    execute_order_book (suc rounds) now host_params e = elim (Heap.top e.order_book) [
      | none ↦ ok e
      | some scheduled ↦ elim (ltb_ℤ now scheduled.scheduled_fill_at_ns) [
        | true ↦ ok e
        | false ↦
            execute scheduled.order host_params
              (record e { order_book = Heap.pop scheduled_before e.order_book })
            >>= execute_order_book rounds now host_params
      ]
    ]
