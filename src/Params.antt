-- ===== src/Params.antt =====
-- src/plugins/manifest/manifest.hpp: the parameters of a plugin that the engine reads.
use quant_forge_quant_resear.Common.{String, Bool, Option, List}
use quant_forge_quant_resear.Common.Int.{ℤ}

pub record Symbol : Type 0 where
  pub primary : Bool
  pub timespan : ℤ
  pub symbol : String
  pub timespan_unit : String

pub record HostParams (D : Type 0) : Type 0 where
  pub market_hours_only : Option Bool
  pub allow_fractional_shares : Option Bool
  pub monte_carlo_runs : ℤ
  pub monte_carlo_seed : ℤ
  pub commission : Option D
  pub slippage : Option D
  pub initial_capital : ℤ
  pub commission_type : Option String
  pub slippage_model : Option String
  pub default_currency : Option String
  pub timezone : Option String
  pub optimization_mode : Option String
  pub backtest_start_datetime : String
  pub backtest_end_datetime : String
  pub symbols : List Symbol
  pub position_sizing_method : Option String
  pub position_size_value : Option D
  pub max_position_size : Option D
  pub use_stop_loss : Option Bool
  pub stop_loss_pct : Option D
  pub use_take_profit : Option Bool
  pub take_profit_pct : Option D
  pub fill_max_pct_of_volume : Option D
  pub risk_free_rate : Option D
  pub allow_short_selling : Option Bool
  pub initial_margin_pct : Option D
  pub max_leverage : Option D
