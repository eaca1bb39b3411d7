-- ===== src/Snapshot.antt =====
-- src/simulators/back_test/state.cpp, record_bar_equity_snapshot: the equity curve and its peak.
pub mod Peak
pub mod Latest
use quant_forge_quant_resear.Common.{List, [], ◌∷◌, if◌then◌else◌}
use quant_forge_quant_resear.Common.Int.{ℤ, ltb_ℤ, eqb_ℤ}
use quant_forge_quant_resear.Double.{Double, nought}
use quant_forge_quant_resear.Money.{Money}
use quant_forge_quant_resear.Models.{EquitySnapshot}
use quant_forge_quant_resear.Params.{HostParams}
use quant_forge_quant_resear.State.{State}
use quant_forge_quant_resear.Equity.{calculate_equity, calculate_return, calculate_max_drawdown}

module _ {D : Type 0} ⦃d : Double D⦄ where
  open d use {lt}

  unfoldable pub new_snapshot : ℤ → Money → D → D → EquitySnapshot D
  new_snapshot timestamp_ns equity return_value max_drawdown = record {
    timestamp_ns = timestamp_ns;
    equity = equity;
    return_ = return_value;
    max_drawdown = max_drawdown;
    sharpe_ratio = nought;
    sharpe_ratio_rolling = nought;
    sortino_ratio = nought;
    sortino_ratio_rolling = nought;
    calmar_ratio = nought;
    calmar_ratio_rolling = nought;
    tail_ratio = nought;
    tail_ratio_rolling = nought;
    value_at_risk = nought;
    value_at_risk_rolling = nought;
    conditional_value_at_risk = nought;
    conditional_value_at_risk_rolling = nought;
  }

  -- The curve with a point for the time stamp: the last one is written over if it has that stamp.
  unfoldable pub extend_curve :
      ℤ → Money → D → D → List (EquitySnapshot D) → List (EquitySnapshot D)
  unfolding new_snapshot
  extend_curve now equity return_value max_drawdown [] =
      new_snapshot now equity return_value max_drawdown ∷ []
  extend_curve now equity return_value max_drawdown (last ∷ []) =
      if eqb_ℤ last.timestamp_ns now
      then record last { equity = equity; return_ = return_value; max_drawdown = max_drawdown } ∷ []
      else last ∷ new_snapshot now equity return_value max_drawdown ∷ []
  extend_curve now equity return_value max_drawdown (first ∷ second ∷ rest) =
      first ∷ extend_curve now equity return_value max_drawdown (second ∷ rest)

  unfoldable pub record_bar_equity_snapshot : HostParams D → State D → State D
  unfolding extend_curve
  record_bar_equity_snapshot host_params s =
      let equity = calculate_equity s in
      let peaked = record s {
        peak_equity = if ltb_ℤ s.peak_equity equity then equity else s.peak_equity;
      } in
      let current_drawdown = calculate_max_drawdown peaked equity in
      let max_drawdown =
        if lt s.max_drawdown current_drawdown then current_drawdown else s.max_drawdown in
      record peaked {
        max_drawdown = max_drawdown;
        equity_curve =
            extend_curve s.current_timestamp_ns equity (calculate_return host_params equity)
              max_drawdown s.equity_curve;
      }
