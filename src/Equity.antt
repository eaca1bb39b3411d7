-- ===== src/Equity.antt =====
-- src/simulators/back_test/equity_calculator.cpp
use quant_forge_quant_resear.Common.{none, some, [], ◌∷◌, if◌then◌else◌}
use quant_forge_quant_resear.Common.Int.{pos, ◌+ℤ◌, ◌-ℤ◌}
use quant_forge_quant_resear.Common.Dict
use quant_forge_quant_resear.Common.Dict.{Dict}
use quant_forge_quant_resear.Double.{Double, nought, epsilon, max}
use quant_forge_quant_resear.Money.{Money, to_dollars, scale}
use quant_forge_quant_resear.Models.{Position}
use quant_forge_quant_resear.Params.{HostParams}
use quant_forge_quant_resear.State.{State, CurrentBarPrices}

module _ {D : Type 0} ⦃d : Double D⦄ where
  open d use {lt, div}

  -- The loop over the positions; one with no price of its symbol is passed over.
  unfoldable pub unrealized_pnl_loop : Dict CurrentBarPrices → Dict (Position D) → Money → Money
  unrealized_pnl_loop prices [] acc = acc
  unrealized_pnl_loop prices ((symbol, position) ∷ positions) acc =
      unrealized_pnl_loop prices positions (elim (Dict.lookup symbol prices) [
        | none ↦ acc
        | some bar ↦ acc +ℤ scale (bar.close -ℤ position.average_price) position.quantity
      ])

  unfoldable pub calculate_equity : State D → Money
  unfolding unrealized_pnl_loop
  calculate_equity s =
      s.cash +ℤ s.margin_in_use +ℤ unrealized_pnl_loop s.current_bar_prices s.positions (pos 0)

  unfoldable pub calculate_return : HostParams D → Money → D
  calculate_return host_params equity =
      div (to_dollars (equity -ℤ host_params.initial_capital))
        (to_dollars host_params.initial_capital)

  unfoldable pub calculate_max_drawdown : State D → Money → D
  calculate_max_drawdown s current_equity =
      max
        (if lt epsilon (to_dollars s.peak_equity)
          then div (to_dollars (s.peak_equity -ℤ current_equity)) (to_dollars s.peak_equity)
          else nought)
        s.max_drawdown

  unfoldable pub calculate_available_margin : State D → Money
  unfolding calculate_equity
  calculate_available_margin s = calculate_equity s -ℤ s.margin_in_use
