-- ===== src/PositionCalc.antt =====
-- src/simulators/back_test/position_calculator.cpp: sizes and prices of a signal, the position after a
-- fill, and the open fills that a fill closes.
pub mod Closed
use quant_forge_quant_resear.Common.{
  ℕ, zero, suc, String, Bool, true, false, ◌&&◌, ◌||◌, Option, none, some, List, [], ◌∷◌, str_eq,
  if◌then◌else◌, length, ◌==◌,
}
use quant_forge_quant_resear.Common.Int.{ℤ, pos, ◌+ℤ◌}
use quant_forge_quant_resear.Common.Dict
use quant_forge_quant_resear.Result.{Result, ok, ◌>>=◌}
use quant_forge_quant_resear.Double.{Double, nought, one, epsilon, min, abs}
use quant_forge_quant_resear.Money.{Money, to_dollars, scale, divide}
use quant_forge_quant_resear.Models.{
  Signal, Order, Fill, Position, is_buy_action, is_sell_action, value_or,
}
use quant_forge_quant_resear.Params.{HostParams}
use quant_forge_quant_resear.State.{
  State, Side, buys, sells, get_symbol_close, get_symbol_position_or,
}
use quant_forge_quant_resear.Ledger.{closable}
use quant_forge_quant_resear.Equity.{calculate_equity}

module _ {D : Type 0} ⦃d : Double D⦄ where
  open d use {lt, le, add, sub, mul, div, of_int, decimal}

  -- The quantity by the sizing method, before the cap; an unknown method leaves 0.
  unfoldable pub sized_quantity : String → D → ℕ → Money → Money → D
  sized_quantity sizing_method position_size_value symbol_count equity current_price =
      if str_eq sizing_method "fixed_percentage"
      then div (to_dollars (scale equity position_size_value)) (to_dollars current_price)
      else (if str_eq sizing_method "fixed_dollar"
          then div position_size_value (to_dollars current_price)
          else (if str_eq sizing_method "equal_weight"
              then div (to_dollars (divide equity (of_int (pos symbol_count))))
                  (to_dollars current_price)
              else nought))

  unfoldable pub cap_quantity : Option D → D → D
  cap_quantity none quantity = quantity
  cap_quantity (some cap) quantity = if lt cap quantity then cap else quantity

  unfoldable pub calculate_signal_position_size : Signal → HostParams D → State D → Result D
  unfolding sized_quantity cap_quantity
  calculate_signal_position_size signal host_params s = do
    current_price ← get_symbol_close s signal.symbol
    let sizing_method = value_or host_params.position_sizing_method "fixed_percentage"
    let position_size_value = value_or host_params.position_size_value (decimal 1 2)
    let symbol_count = length host_params.symbols
    let quantity =
        sized_quantity sizing_method position_size_value symbol_count (calculate_equity s)
          current_price
    ok (
        if str_eq sizing_method "equal_weight" && symbol_count == 0
        then nought
        else cap_quantity host_params.max_position_size quantity)

  unfoldable pub calculate_signal_stop_loss_price :
      Signal → HostParams D → State D → Result (Option Money)
  calculate_signal_stop_loss_price signal host_params s =
      if value_or host_params.use_stop_loss false
      then (do
        current_price ← get_symbol_close s signal.symbol
        ok (elim host_params.stop_loss_pct [
          | none ↦ none
          | some pct ↦
              if is_buy_action signal.action
              then some (scale current_price (sub one pct))
              else (if is_sell_action signal.action
                  then some (scale current_price (add one pct))
                  else none)
        ]))
      else ok none

  unfoldable pub calculate_signal_take_profit_price :
      Signal → HostParams D → State D → Result (Option Money)
  calculate_signal_take_profit_price signal host_params s =
      if value_or host_params.use_take_profit false
      then (do
        current_price ← get_symbol_close s signal.symbol
        ok (elim host_params.take_profit_pct [
          | none ↦ none
          | some pct ↦
              if is_buy_action signal.action
              then some (scale current_price (add one pct))
              else (if is_sell_action signal.action
                  then some (scale current_price (sub one pct))
                  else none)
        ]))
      else ok none

  -- (average * held + price * quantity) / new_quantity
  unfoldable pub blended_price : Money → D → Money → D → D → Money
  blended_price average held price quantity new_quantity =
      divide (scale average held +ℤ scale price quantity) new_quantity

  unfoldable pub bought_price : Position D → D → Money → Money
  unfolding blended_price
  bought_price position quantity fill_price =
      let old_quantity = position.quantity in
      let new_quantity = add old_quantity quantity in
      if lt old_quantity nought && lt nought new_quantity
      then fill_price
      else (if le nought old_quantity
          then blended_price position.average_price old_quantity fill_price quantity new_quantity
          else position.average_price)

  unfoldable pub sold_price : Position D → D → Money → Money
  unfolding blended_price
  sold_price position quantity fill_price =
      let old_quantity = position.quantity in
      let new_quantity = sub old_quantity quantity in
      if lt nought old_quantity && lt new_quantity nought
      then fill_price
      else (if le old_quantity nought
          then blended_price position.average_price (abs old_quantity) fill_price quantity
              (abs new_quantity)
          else position.average_price)

  -- A quantity below EPSILON counts as none.
  unfoldable pub settle : Position D → Position D
  settle position =
      if lt (abs position.quantity) epsilon
      then record position { quantity = nought; average_price = pos 0 }
      else position

  unfoldable pub calculate_position : Order D → D → Money → State D → Position D
  unfolding bought_price sold_price settle
  calculate_position order fillable_quantity fill_price s =
      let none_held : Position D = record {
        symbol = order.symbol;
        quantity = nought;
        average_price = pos 0;
      } in
      let position = get_symbol_position_or s order.symbol none_held in
      settle (
        if is_buy_action order.action
        then record position {
          quantity = add position.quantity fillable_quantity;
          average_price = bought_price position fillable_quantity fill_price;
        }
        else (if is_sell_action order.action
            then record position {
              quantity = sub position.quantity fillable_quantity;
              average_price = sold_price position fillable_quantity fill_price;
            }
            else position))

  -- The open fills of a side that a quantity closes, oldest first, each with the quantity taken.
  unfoldable pub closed_loop : Side → String → State D → List (Fill D) → D → List (String × D)
  closed_loop side symbol s [] remaining = []
  closed_loop side symbol s (fill ∷ fills) remaining = elim (le remaining epsilon) [
    | true ↦ []
    | false ↦ elim (closable side symbol s fill) [
      | none ↦ closed_loop side symbol s fills remaining
      | some available ↦
          (fill.uuid, min available remaining)
          ∷ closed_loop side symbol s fills (sub remaining (min available remaining))
    ]
  ]

  unfoldable pub find_buy_fill_uuids_closed_by_sell : Fill D → State D → List (String × D)
  unfolding closed_loop
  find_buy_fill_uuids_closed_by_sell sell_fill s = elim (Dict.lookup sell_fill.symbol s.positions) [
    | none ↦ []
    | some p ↦
        if le p.quantity nought
        then []
        else closed_loop buys sell_fill.symbol s s.fills (min sell_fill.quantity p.quantity)
  ]

  unfoldable pub find_sell_fill_uuids_closed_by_buy : Fill D → State D → List (String × D)
  unfolding closed_loop
  find_sell_fill_uuids_closed_by_buy buy_fill s = elim (Dict.lookup buy_fill.symbol s.positions) [
    | none ↦ []
    | some p ↦
        if le nought p.quantity
        then []
        else closed_loop sells buy_fill.symbol s s.fills (min buy_fill.quantity (abs p.quantity))
  ]
