-- ===== src/Executor.antt =====
-- src/simulators/back_test/executor.cpp: an order becomes a fill, with its cash flow, margin and exit
-- orders, or an error. `fill_uuid` is what `create_uuid` gives to the fill.
pub mod Total
pub mod Success
pub mod Cash
pub mod Price
pub mod Partial
use quant_forge_quant_resear.Common.{
  String, Bool, false, not, ◌&&◌, ◌||◌, Option, none, some, List, [], ◌∷◌, ◌++◌, str_append,
  if◌then◌else◌,
}
use quant_forge_quant_resear.Common.Int.{ℤ, pos, ◌+ℤ◌, ◌-ℤ◌}
use quant_forge_quant_resear.Common.Dict
use quant_forge_quant_resear.Result.{Result, ok, ◌>>=◌}
use quant_forge_quant_resear.Double.{Double, nought, one, epsilon, max}
use quant_forge_quant_resear.Money
use quant_forge_quant_resear.Money.{Money, from_dollars, to_dollars, scale}
use quant_forge_quant_resear.Models.{
  Signal, Order, Fill, Position, ExitOrder, stop_loss, take_profit, ExecutionResult,
  ExecutionResultSuccess, success, error, is_buy_action, is_sell_action, is_limit_order, value_or,
  make_order, make_success,
}
use quant_forge_quant_resear.Params.{HostParams}
use quant_forge_quant_resear.State.{
  State, get_symbol_close, get_symbol_volume, has_symbol_prices, has_symbol_volume,
  get_symbol_position_or, has_symbol_position,
}
use quant_forge_quant_resear.Exchange.{calculate_commission}
use quant_forge_quant_resear.PositionCalc.{
  calculate_signal_stop_loss_price, calculate_signal_take_profit_price,
  calculate_signal_position_size, calculate_position,
}
use quant_forge_quant_resear.Closing.{calculate_closing_margin_info}
use quant_forge_quant_resear.Margin.{calculate_margin_required, validate_margin}

module _ {D : Type 0} ⦃d : Double D⦄ where
  open d use {lt, le, add, sub, mul, div, neg, floor, of_int}

  unfoldable pub get_fillable_and_remaining_quantities :
      Order D → HostParams D → State D → Result (D × D)
  get_fillable_and_remaining_quantities order host_params s =
      elim host_params.fill_max_pct_of_volume [
        | none ↦ ok (order.quantity, nought)
        | some pct ↦ do
          volume ← get_symbol_volume s order.symbol
          let max_fill_quantity = mul (of_int volume) pct
          ok (
              if lt max_fill_quantity order.quantity
              then (max_fill_quantity, sub order.quantity max_fill_quantity)
              else (order.quantity, nought))
      ]

  unfoldable pub calculate_position_opening_quantity : Order D → D → D → D → D
  calculate_position_opening_quantity order fillable current_quantity new_quantity =
      if is_buy_action order.action
      then (if le nought current_quantity then fillable else max nought new_quantity)
      else (if le current_quantity nought then fillable else max nought (neg new_quantity))

  unfoldable pub create_exit_orders : Order D → Fill D → State D → D → D → List (ExitOrder D)
  create_exit_orders order fill s opening_quantity new_quantity =
      let is_short = is_sell_action order.action && le new_quantity nought in
      let stop : List (ExitOrder D) = elim order.stop_loss_price [
        | none ↦ []
        | some price ↦
            stop_loss (record {
              is_triggered = false;
              is_short_position = is_short;
              trigger_quantity = opening_quantity;
              stop_loss_price = price;
              price = fill.price;
              created_at_ns = s.current_timestamp_ns;
              symbol = order.symbol;
              fill_uuid = fill.uuid;
            })
            ∷ []
      ] in
      let profit : List (ExitOrder D) = elim order.take_profit_price [
        | none ↦ []
        | some price ↦
            take_profit (record {
              is_triggered = false;
              is_short_position = is_short;
              trigger_quantity = opening_quantity;
              take_profit_price = price;
              price = fill.price;
              created_at_ns = s.current_timestamp_ns;
              symbol = order.symbol;
              fill_uuid = fill.uuid;
            })
            ∷ []
      ] in
      if le opening_quantity epsilon then [] else stop ++ profit

  unfoldable pub calculate_fill_price : Order D → State D → Result Money
  calculate_fill_price order s = do
    current_bar_close ← get_symbol_close s order.symbol
    ok (elim order.limit_price [
      | none ↦ current_bar_close
      | some limit ↦
          if is_limit_order order
          then (if is_buy_action order.action
              then Money.min limit current_bar_close
              else Money.max limit current_bar_close)
          else current_bar_close
    ])

  unfoldable pub calculate_cash_delta : Order D → Money → D → Money → D → Money → State D → Money
  calculate_cash_delta order fill_price fillable commission opening_quantity margin_required s =
      let info = calculate_closing_margin_info order fill_price (sub fillable opening_quantity) s in
      if is_buy_action order.action || is_sell_action order.action
      then info.margin_to_release +ℤ info.realized_pnl -ℤ margin_required -ℤ commission
      else pos 0

  unfoldable pub signal_to_order : Signal → HostParams D → State D → Result (Order D)
  unfolding make_order
  signal_to_order signal host_params s = do
    stop_loss_price ← calculate_signal_stop_loss_price signal host_params s
    take_profit_price ← calculate_signal_take_profit_price signal host_params s
    quantity ← calculate_signal_position_size signal host_params s
    ok (
        make_order quantity s.current_timestamp_ns signal.symbol signal.action "market" none
          stop_loss_price take_profit_price)

  unfoldable pub source_is_inactive : Order D → State D → Bool
  source_is_inactive order s = elim order.source_fill_uuid [
    | none ↦ false
    | some uuid ↦
        order.is_exit_order
        && not (Dict.contains uuid s.active_buy_fills || Dict.contains uuid s.active_sell_fills)
  ]

  -- The Fill constructor, with the uuid that it draws
  unfoldable pub make_fill : String → String → D → Money → ℤ → D → Money → String → Fill D
  make_fill symbol action quantity price created_at_ns leverage margin_used uuid = record {
    quantity = quantity;
    leverage = leverage;
    created_at_ns = created_at_ns;
    price = price;
    margin_used = margin_used;
    symbol = symbol;
    uuid = uuid;
    action = action;
  }

  -- The order, with what the bar's volume leaves over
  unfoldable pub make_partial_order : Order D → D → State D → Option (Order D)
  make_partial_order order remaining s =
      if lt nought remaining
      then some (record order { quantity = remaining; created_at_ns = s.current_timestamp_ns })
      else none

  unfoldable pub current_quantity : Order D → State D → D
  current_quantity order s =
      let none_held : Position D = record {
        symbol = order.symbol;
        quantity = nought;
        average_price = pos 0;
      } in
      if has_symbol_position s order.symbol
      then (get_symbol_position_or s order.symbol none_held).quantity
      else nought

  unfoldable pub new_quantity : Order D → State D → D → D
  unfolding current_quantity
  new_quantity order s fillable =
      add (current_quantity order s) (if is_buy_action order.action then fillable else neg fillable)

  unfoldable pub opening_quantity : Order D → State D → D → D
  unfolding new_quantity
  opening_quantity order s fillable =
      calculate_position_opening_quantity order fillable (current_quantity order s)
        (new_quantity order s fillable)

  -- The commission of a Fill that is made for it alone
  unfoldable pub commission_on : Order D → HostParams D → State D → D → Money → Money
  unfolding make_fill
  commission_on order host_params s fillable fill_price =
      calculate_commission
        (make_fill order.symbol order.action fillable fill_price s.current_timestamp_ns one (pos 0)
          "")
        host_params

  unfoldable pub margin_on : Order D → HostParams D → Money → D → Money
  margin_on order host_params fill_price opening =
      if lt epsilon opening
      then calculate_margin_required host_params fill_price opening (value_or order.leverage one)
      else pos 0

  unfoldable pub validation_error : Order D → HostParams D → State D → D → Money → Option String
  validation_error order host_params s fillable fill_price =
      let opening = opening_quantity order s fillable in
      validate_margin order fill_price (commission_on order host_params s fillable fill_price)
        host_params s opening (new_quantity order s fillable)
        (margin_on order host_params fill_price opening) fillable

  unfoldable pub success_result :
      Order D → HostParams D → State D → String → D → D → Money → ExecutionResultSuccess D
  unfolding make_fill make_partial_order make_success
  success_result order host_params s fill_uuid fillable remaining fill_price =
      let opening = opening_quantity order s fillable in
      let commission = commission_on order host_params s fillable fill_price in
      let leverage = value_or order.leverage one in
      let margin_required = margin_on order host_params fill_price opening in
      let fill =
        make_fill order.symbol order.action fillable fill_price s.current_timestamp_ns leverage
          margin_required fill_uuid in
      make_success
        (calculate_cash_delta order fill_price fillable commission opening margin_required s)
        margin_required leverage (make_partial_order order remaining s)
        (calculate_position order fillable fill_price s) fill
        (create_exit_orders order fill s opening (new_quantity order s fillable))

  -- From `calculate_fill_price` on: the fill of a quantity, or the error of `validate_margin`.
  unfoldable pub fill_order :
      Order D → HostParams D → State D → String → D → D → Result (ExecutionResult D)
  unfolding success_result validation_error
  fill_order order host_params s fill_uuid fillable remaining = do
    fill_price ← calculate_fill_price order s
    ok (elim (validation_error order host_params s fillable fill_price) [
      | some message ↦ error message
      | none ↦ success (success_result order host_params s fill_uuid fillable remaining fill_price)
    ])

  -- From the quantities on
  unfoldable pub size_order : Order D → HostParams D → State D → String → Result (ExecutionResult D)
  unfolding fill_order
  size_order order host_params s fill_uuid = do
    quantities ← get_fillable_and_remaining_quantities order host_params s
    let fractional = value_or host_params.allow_fractional_shares false
    let fillable = if fractional then quantities.0 else floor quantities.0
    (if not fractional && le fillable nought
        then ok (error "Order quantity is too small to execute")
        else fill_order order host_params s fill_uuid fillable quantities.1)

  unfoldable pub execute_order :
      Order D → HostParams D → State D → String → Result (ExecutionResult D)
  unfolding source_is_inactive size_order
  execute_order order host_params s fill_uuid =
      if le order.quantity nought
      then ok (error "Order quantity must be positive")
      else (if not (has_symbol_prices s order.symbol)
          then ok (error (str_append "No price data for symbol: " order.symbol))
          else (if not (has_symbol_volume s order.symbol)
              then ok (error (str_append "No volume data for symbol: " order.symbol))
              else (if source_is_inactive order s
                  then ok (error "Exit order source fill no longer active - skipping")
                  else size_order order host_params s fill_uuid)))
