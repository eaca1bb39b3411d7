-- ===== src/Margin.antt =====
-- src/simulators/back_test/executor.cpp, calculate_margin_required and validate_margin.
use quant_forge_quant_resear.Common.{String, true, not, ◌&&◌, Option, none, some, if◌then◌else◌}
use quant_forge_quant_resear.Common.Int.{pos, ◌+ℤ◌, ◌-ℤ◌, ltb_ℤ}
use quant_forge_quant_resear.Double.{Double, nought, one, epsilon, max}
use quant_forge_quant_resear.Money.{Money, from_dollars, to_dollars}
use quant_forge_quant_resear.Models.{Order, is_sell_action, value_or}
use quant_forge_quant_resear.Params.{HostParams}
use quant_forge_quant_resear.State.{State}
use quant_forge_quant_resear.Equity.{calculate_available_margin}
use quant_forge_quant_resear.Closing.{calculate_closing_margin_info}

module _ {D : Type 0} ⦃d : Double D⦄ where
  open d use {lt, le, mul, div}

  unfoldable pub calculate_margin_required : HostParams D → Money → D → D → Money
  calculate_margin_required host_params fill_price opening_quantity leverage =
      let opening_value = mul (to_dollars fill_price) opening_quantity in
      from_dollars (
        max (div opening_value leverage)
          (mul opening_value (value_or host_params.initial_margin_pct one)))

  -- The cash that closing needs, against the cash there is.
  unfoldable pub validate_closing : Order D → Money → Money → State D → D → Option String
  validate_closing order fill_price commission s fillable =
      let info = calculate_closing_margin_info order fill_price fillable s in
      let net_cash_flow = info.margin_to_release +ℤ info.realized_pnl -ℤ commission in
      if ltb_ℤ net_cash_flow (pos 0) && ltb_ℤ s.cash (pos 0 -ℤ net_cash_flow)
      then some "Insufficient cash to close position."
      else none

  unfoldable pub validate_margin :
      Order D → Money → Money → HostParams D → State D → D → D → Money → D → Option String
  unfolding validate_closing
  validate_margin order fill_price commission host_params s opening_quantity new_quantity
        margin_required fillable =
      let leverage = value_or order.leverage one in
      if is_sell_action order.action
        && not (value_or host_params.allow_short_selling true)
        && lt new_quantity nought
      then some "Short selling is not allowed"
      else (if lt leverage one
          then some "Leverage must be >= 1.0"
          else (if lt (value_or host_params.max_leverage one) leverage
              then some "Order leverage exceeds maximum allowed"
              else (if le opening_quantity epsilon
                  then validate_closing order fill_price commission s fillable
                  else (if ltb_ℤ (calculate_available_margin s) (margin_required +ℤ commission)
                      then some "Insufficient margin."
                      else none))))
