-- ===== src/Tests/Orders.antt =====
-- Executions of orders on the account of Data.
use quant_forge_quant_resear.Common.{
  String, ◌≡◌, refl, true, false, none, some, [], ◌∷◌, ◌++◌, str_eq, if◌then◌else◌, arith,
}
use quant_forge_quant_resear.Common.Int.{ℤ, pos, negsuc, ◌+ℤ◌, ◌≤ℤ◌}
use quant_forge_quant_resear.Common.Dict
use quant_forge_quant_resear.Result.{Result, ok, Returns}
use quant_forge_quant_resear.Double.{nought}
use quant_forge_quant_resear.Models.{
  EquitySnapshot, Order, Position, ExecutionResult, ExecutionResultSuccess, success,
}
use quant_forge_quant_resear.State.{buys, sells}
use quant_forge_quant_resear.Ledger.{update_state}
use quant_forge_quant_resear.Ledger.Fresh.{AreDistinct}
use quant_forge_quant_resear.Ledger.Keys.{update_state_effect}
use quant_forge_quant_resear.Snapshot.{record_bar_equity_snapshot}
use quant_forge_quant_resear.Snapshot.Latest.{latest, Shows, recorded_shown}
use quant_forge_quant_resear.PositionCalc.Closed.{close_all}
use quant_forge_quant_resear.Ledger.{populate_active_fills, is_closing, record_fill}
use quant_forge_quant_resear.Engine.{closed_fills}
use quant_forge_quant_resear.Engine.Closes.{populate-closed_fills}
use quant_forge_quant_resear.Closing.{calculate_closing_margin_info}
use quant_forge_quant_resear.Closing.Agrees.{close_quantity, closing-frees-margin}
use quant_forge_quant_resear.Equity.{calculate_available_margin}
use quant_forge_quant_resear.Executor.{execute_order, commission_on}
use quant_forge_quant_resear.Executor.Total.{execute_order-Returns}
use quant_forge_quant_resear.Executor.Cash.{
  opening_affordable, no_short_position, closing_keeps_cash,
}
use quant_forge_quant_resear.Exchange.{is_within_market_hours}
use quant_forge_quant_resear.Executor.Partial.{partial_remainder, fill_capped}
use quant_forge_quant_resear.Executor.Price.{Honours, limit_honoured}
use quant_forge_quant_resear.Tests.Fixed.{fixed, fixed_IsIeee}
use quant_forge_quant_resear.Tests.Unfolded.{executed}
use quant_forge_quant_resear.Tests.Data.{
  units, cash_account, capped_account, opened, holding, holding_two, bought_fill, market_order,
  limit_order,
}

abbrev nothing_done : ExecutionResultSuccess ℤ
nothing_done = record {
  message = "";
  cash_delta = pos 0;
  margin_used = pos 0;
  leverage = pos 0;
  position = record { symbol = ""; quantity = pos 0; average_price = pos 0 };
  fill = bought_fill;
  exit_orders = [];
  partial_order = none;
}

abbrev success_of : Result (ExecutionResult ℤ) → ExecutionResultSuccess ℤ
success_of (ok (success r)) = r
success_of _ = nothing_done

abbrev bought : ExecutionResultSuccess ℤ
bought = success_of (execute_order (market_order "buy" (units 5)) cash_account opened "x")

abbrev sold : ExecutionResultSuccess ℤ
sold = success_of (execute_order (market_order "sell" (units 4)) cash_account holding "x")

abbrev limited : ExecutionResultSuccess ℤ
limited = success_of (execute_order (limit_order "buy" (units 19)) cash_account opened "x")

bought_ok :
    execute_order (market_order "buy" (units 5)) cash_account opened "x" ≡ ok (success bought)
unfolding executed
bought_ok = refl

sold_ok : execute_order (market_order "sell" (units 4)) cash_account holding "x" ≡ ok (success sold)
unfolding executed
sold_ok = refl

limited_ok :
    execute_order (limit_order "buy" (units 19)) cash_account opened "x" ≡ ok (success limited)
unfolding executed
limited_ok = refl

-- The five shares are bought at the bar's close of twenty, with their whole price as margin.
bought_margin : (bought.margin_used ≡ units 100) × (bought.cash_delta ≡ negsuc 99999999)
unfolding executed
bought_margin = (refl, refl)

opening_affordable_example :
    bought.margin_used
      +ℤ commission_on
          (market_order "buy" (units 5))
          cash_account
          opened
          bought.fill.quantity
          bought.fill.price
    ≤ℤ calculate_available_margin opened
unfolding executed
opening_affordable_example =
    opening_affordable (market_order "buy" (units 5)) cash_account opened "x" bought bought_ok refl

no_short_position_example : fixed.lt sold.position.quantity nought ≡ false
unfolding executed
no_short_position_example =
    no_short_position (market_order "sell" (units 4)) cash_account holding fixed_IsIeee "x" sold
      sold_ok refl refl

closing_keeps_cash_example : pos 0 ≤ℤ (update_state sold holding).cash
unfolding executed
closing_keeps_cash_example =
    closing_keeps_cash (market_order "sell" (units 4)) cash_account holding fixed_IsIeee "x" sold
      sold_ok refl refl (omega arith)

abbrev part : ExecutionResultSuccess ℤ
part = success_of (execute_order (market_order "buy" (units 5)) capped_account opened "x")

abbrev rest : Order ℤ
rest = record (market_order "buy" (units 3)) { created_at_ns = pos 1000 }

part_ok : execute_order (market_order "buy" (units 5)) capped_account opened "x" ≡ ok (success part)
unfolding executed
part_ok = refl

partial_remainder_example : rest.quantity ≡ fixed.sub (units 5) part.fill.quantity
unfolding executed
partial_remainder_example =
    partial_remainder (market_order "buy" (units 5)) capped_account opened fixed_IsIeee "x" part
      rest refl part_ok refl

fill_capped_example :
    fixed.lt (fixed.mul (fixed.of_int (pos 100)) (pos 20000)) part.fill.quantity ≡ false
unfolding executed
fill_capped_example =
    fill_capped (market_order "buy" (units 5)) capped_account opened fixed_IsIeee "x" part
      (pos 20000) (pos 100) refl refl refl part_ok

-- A Wednesday before 1970 at half past ten, in the morning
open_before_epoch : is_within_market_hours (negsuc 48600000000000) ≡ true
unfolding executed is_within_market_hours
open_before_epoch = refl

limit_honoured_example :
    Honours (limit_order "buy" (units 19)) cash_account opened (units 19) limited.fill.price
unfolding executed
limit_honoured_example =
    limit_honoured (limit_order "buy" (units 19)) cash_account opened "x" limited (units 19)
      limited_ok refl refl

execute_order-Returns_example :
    Returns (execute_order (market_order "hold" (units 5)) cash_account opened "x")
execute_order-Returns_example =
    execute_order-Returns (market_order "hold" (units 5)) cash_account opened "x"

distinct_fills : AreDistinct holding_two.fills
distinct_fills = ((refl, tt), (tt, tt))

closing-frees-margin_example :
    (close_quantity (market_order "sell" (units 12)) (units 12) holding_two).margin_in_use
      +ℤ (calculate_closing_margin_info
          (market_order "sell" (units 12))
          (units 20)
          (units 12)
          holding_two).margin_to_release
    ≡ holding_two.margin_in_use
closing-frees-margin_example =
    closing-frees-margin (market_order "sell" (units 12)) (units 20) (units 12) holding_two
      distinct_fills

-- Twelve of the thirteen shares that two fills bought are sold.
abbrev sold_two : ExecutionResultSuccess ℤ
sold_two = success_of (execute_order (market_order "sell" (units 12)) cash_account holding_two "x")

abbrev thirteen : Position ℤ
thirteen = record { symbol = "A"; quantity = units 13; average_price = units 15 }

populate-closed_fills_example :
    (populate_active_fills sold_two.fill thirteen.quantity
      (is_closing sold_two.fill thirteen.quantity)
      (record_fill sold_two holding_two)).1
    ≡ close_all buys (closed_fills sold_two.fill holding_two) (record_fill sold_two holding_two)
unfolding executed
populate-closed_fills_example =
    populate-closed_fills sells sold_two thirteen holding_two fixed_IsIeee
      ((refl, (refl, tt)), ((refl, tt), (tt, tt))) refl refl refl refl

update_state_effect_example :
    let t = update_state sold holding in
    (t.cash ≡ holding.cash +ℤ sold.cash_delta)
    × (t.fills ≡ holding.fills ++ sold.fill ∷ [])
    × (t.exit_orders ≡ holding.exit_orders ++ sold.exit_orders)
    × (t.current_bar_prices ≡ holding.current_bar_prices)
    × (t.current_bar_volumes ≡ holding.current_bar_volumes)
    × ((symbol : String)
        → Dict.lookup symbol t.positions ≡ (
            if str_eq sold.position.symbol symbol
            then (if fixed.eq sold.position.quantity nought then none else some sold.position)
            else Dict.lookup symbol holding.positions))
update_state_effect_example = update_state_effect sold holding

recorded_shown_example :
    let t = record_bar_equity_snapshot cash_account holding in
    ((snapshot : EquitySnapshot ℤ) × (latest t.equity_curve ≡ some snapshot)
      × Shows cash_account t snapshot)
    × (fixed.lt t.max_drawdown holding.max_drawdown ≡ false)
recorded_shown_example = recorded_shown fixed_IsIeee cash_account holding
