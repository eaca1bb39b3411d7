-- ===== src/Tests/Unfolded.antt =====
-- The computations that the tests run, with all that they unfold.
use quant_forge_quant_resear.Common.{List}
use quant_forge_quant_resear.Common.Int.{ℤ}
use quant_forge_quant_resear.AbiConverter
use quant_forge_quant_resear.Closing
use quant_forge_quant_resear.Common.Dict
use quant_forge_quant_resear.Common.Int
use quant_forge_quant_resear.Double
use quant_forge_quant_resear.Engine
use quant_forge_quant_resear.Equity
use quant_forge_quant_resear.Exchange
use quant_forge_quant_resear.Executor
use quant_forge_quant_resear.ExitBook
use quant_forge_quant_resear.Heap
use quant_forge_quant_resear.Ledger
use quant_forge_quant_resear.LimitBook
use quant_forge_quant_resear.Margin
use quant_forge_quant_resear.Models
use quant_forge_quant_resear.Money
use quant_forge_quant_resear.PositionCalc
use quant_forge_quant_resear.Snapshot
use quant_forge_quant_resear.State
use quant_forge_quant_resear.Result.{Result}
use quant_forge_quant_resear.Models.{Order, ExecutionResult}
use quant_forge_quant_resear.Engine.Run.{Environment}
use quant_forge_quant_resear.Tests.Fixed.{fixed}
use quant_forge_quant_resear.Tests.Data.{cash_account}

unfoldable pub executed : Order ℤ → State.State ℤ → Result (ExecutionResult ℤ)
unfolding fixed Int.◌+ℤ◌ Int.◌-ℤ◌ Int.◌*ℤ◌ Dict.lookup Dict.contains Dict.insert Dict.erase
    Double.min Double.max Double.abs Money.from_dollars Money.to_dollars Money.scale Money.divide
    Money.min Money.max Models.is_buy_action Models.is_sell_action Models.is_limit_order
    Models.is_market_order Models.make_order Models.stop_loss_before
    Models.stop_loss_to_close_instruction Models.take_profit_before
    Models.take_profit_to_close_instruction Models.make_success Models.scheduled_before
    Models.buy_before Models.sell_before State.is_side State.get_symbol_close State.get_symbol_high
    State.get_symbol_low State.has_symbol_prices State.get_symbol_volume State.has_symbol_volume
    State.get_symbol_position_or State.has_symbol_position State.clear_previous_bar_state
    State.prepare_initial_state State.prepare_next_bar_state Equity.unrealized_pnl_loop
    Equity.calculate_equity Equity.calculate_return Equity.calculate_max_drawdown
    Equity.calculate_available_margin Exchange.weekday Exchange.hour Exchange.is_within_market_hours
    Exchange.is_within_market_hour_restrictions Exchange.calculate_commission
    Exchange.time_based_delay Exchange.volume_based_delay Exchange.calculate_slippage_time_ns
    PositionCalc.sized_quantity PositionCalc.cap_quantity
    PositionCalc.calculate_signal_position_size PositionCalc.calculate_signal_stop_loss_price
    PositionCalc.calculate_signal_take_profit_price PositionCalc.blended_price
    PositionCalc.bought_price PositionCalc.sold_price PositionCalc.settle
    PositionCalc.calculate_position PositionCalc.closed_loop
    PositionCalc.find_buy_fill_uuids_closed_by_sell PositionCalc.find_sell_fill_uuids_closed_by_buy
    Ledger.release_margin Ledger.reduce_active_fill Ledger.close_fill Ledger.closable
    Ledger.reduce_loop Ledger.reduce_active_buy_fills_fifo Ledger.reduce_active_sell_fills_fifo
    Ledger.populate_active_fills Ledger.record_active_fill Ledger.record_fill
    Ledger.record_exit_orders Ledger.update_position Ledger.is_closing Ledger.update_state
    Ledger.total_margin Ledger.recalculate_margin_in_use Closing.released_margin Closing.realized_on
    Closing.closing_loop Closing.calculate_closing_margin_info Margin.calculate_margin_required
    Margin.validate_closing Margin.validate_margin Executor.get_fillable_and_remaining_quantities
    Executor.calculate_position_opening_quantity Executor.create_exit_orders
    Executor.calculate_fill_price Executor.calculate_cash_delta Executor.signal_to_order
    Executor.source_is_inactive Executor.make_fill Executor.make_partial_order
    Executor.current_quantity Executor.new_quantity Executor.opening_quantity Executor.commission_on
    Executor.margin_on Executor.validation_error Executor.success_result Executor.fill_order
    Executor.size_order Executor.execute_order
executed order s = Executor.execute_order order cash_account s "x"

unfoldable pub tested :
    Environment ℤ Unit → List (State.Bar ℤ) → Engine.Engine ℤ → Result (Engine.Engine ℤ)
unfolding executed Snapshot.new_snapshot Snapshot.extend_curve Snapshot.record_bar_equity_snapshot
    Heap.swap Heap.pop_back Heap.back Heap.top Heap.empty Heap.less_at Heap.bubble_up_loop
    Heap.bubble_up Heap.prefer Heap.smallest Heap.bubble_down_loop Heap.bubble_down Heap.push
    Heap.pop Heap.Refill.push_all Heap.Refill.drain_loop Heap.Refill.refill ExitBook.add_exit_order
    ExitBook.judge_stop_loss ExitBook.judge_take_profit ExitBook.reduce_stop_loss
    ExitBook.reduce_take_profit ExitBook.reduce_exit_orders_by_fill_uuid
    ExitBook.reduce_exit_orders_by_fills LimitBook.add_limit_order
    LimitBook.cancel_orders_for_symbol LimitBook.all_empty LimitBook.empty
    Engine.create_scheduled_order Engine.create_scheduled_limit_order Engine.schedule
    Engine.add_exit_orders Engine.closed_fills Engine.book_success Engine.handle_execution_result
    Engine.execute Engine.execute_order_book Engine.Limits.run_buy_limits
    Engine.Limits.run_sell_limits Engine.Limits.process_buy_limits Engine.Limits.process_sell_limits
    Engine.Limits.execute_limit_orders Engine.Exits.process_stop_loss_loop
    Engine.Exits.process_take_profit_loop Engine.Exits.execute_exit_orders
    Engine.Run.instruction_order Engine.Run.schedule_plugin_instructions Engine.Run.end_bar
    Engine.Run.run_bar Engine.Run.run_bars Engine.Run.run AbiConverter.optional_price
    AbiConverter.order_of_c AbiConverter.to_instruction
tested env bars e = Engine.Run.run env 9 cash_account bars e tt
