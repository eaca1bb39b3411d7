-- ===== src/Manifest/Options.antt =====
-- src/plugins/manifest/manifest.hpp: what `parse_value` accepts for each value of a manifest.
use quant_forge_quant_resear.Common.{String, Bool, true, false, List, [], ◌∷◌}
use quant_forge_quant_resear.Common.Int.{ℤ, pos}
use quant_forge_quant_resear.Double.{Double}

-- `parse_value` reads neither whether a value is required nor the fallback.
pub record ParserOptions (A : Type 0) : Type 0 where
  pub is_required : Bool
  pub allowed_values : List A
  pub fallback_value : A
  pub error_message : String

abbrev options : {A : Type 0} → Bool → List A → A → String → ParserOptions A
options is_required allowed_values fallback_value error_message = record {
  is_required = is_required;
  allowed_values = allowed_values;
  fallback_value = fallback_value;
  error_message = error_message;
}

-- PLUGIN_API_VERSION of abi.h
abbrev pub plugin_api_version : ℤ
plugin_api_version = pos 1

abbrev pub name_parser_options : ParserOptions String
name_parser_options = options true ([]) "" "Invalid name"

abbrev pub kind_parser_options : ParserOptions String
kind_parser_options = options true ("python" ∷ "native" ∷ []) "" "Invalid kind"

abbrev pub entry_parser_options : ParserOptions String
entry_parser_options = options true ([]) "" "Invalid entry"

abbrev pub description_parser_options : ParserOptions String
description_parser_options = options false ([]) "" "Invalid description"

abbrev pub author_parser_options : ParserOptions String
author_parser_options = options false ([]) "" "Invalid author"

abbrev pub api_version_parser_options : ParserOptions ℤ
api_version_parser_options = options true (plugin_api_version ∷ []) (pos 0) "Invalid api version"

abbrev pub version_parser_options : ParserOptions String
version_parser_options = options true ([]) "" "Invalid version"

abbrev pub strategy_params_parser_options : ParserOptions String
strategy_params_parser_options = options true ([]) "" "Invalid strategy params"

abbrev pub primary_parser_options : ParserOptions Bool
primary_parser_options = options true (true ∷ false ∷ []) false "Invalid primary"

abbrev pub timespan_parser_options : ParserOptions ℤ
timespan_parser_options = options true ([]) (pos 0) "Invalid timespan"

abbrev pub symbol_parser_options : ParserOptions String
symbol_parser_options = options true ([]) "" "Invalid symbol"

abbrev pub timespan_unit_parser_options : ParserOptions String
timespan_unit_parser_options =
    options true ("second" ∷ "minute" ∷ "hour" ∷ "day" ∷ "week" ∷ "month" ∷ "year" ∷ []) ""
      "Invalid timespan unit"

abbrev pub market_hours_only_parser_options : ParserOptions Bool
market_hours_only_parser_options =
    options true (true ∷ false ∷ []) false "Invalid market hours only"

abbrev pub allow_fractional_shares_parser_options : ParserOptions Bool
allow_fractional_shares_parser_options =
    options true (true ∷ false ∷ []) false "Invalid allow fractional shares"

abbrev pub monte_carlo_runs_parser_options : ParserOptions ℤ
monte_carlo_runs_parser_options = options true ([]) (pos 0) "Invalid monte carlo runs"

abbrev pub monte_carlo_seed_parser_options : ParserOptions ℤ
monte_carlo_seed_parser_options = options true ([]) (pos 0) "Invalid monte carlo seed"

abbrev pub leverage_parser_options : ParserOptions ℤ
leverage_parser_options = options true ([]) (pos 0) "Invalid leverage"

abbrev pub commission_type_parser_options : ParserOptions String
commission_type_parser_options =
    options true ("per_share" ∷ "percentage" ∷ "flat" ∷ []) "" "Invalid commission type"

abbrev pub slippage_model_parser_options : ParserOptions String
slippage_model_parser_options =
    options true ("none" ∷ "time_based" ∷ "time_volume_based" ∷ []) "" "Invalid slippage model"

abbrev pub default_currency_parser_options : ParserOptions String
default_currency_parser_options = options true ("USD" ∷ []) "" "Invalid currency"

abbrev pub timezone_parser_options : ParserOptions String
timezone_parser_options = options true ("America/New_York" ∷ []) "" "Invalid timezone"

abbrev pub optimization_mode_parser_options : ParserOptions String
optimization_mode_parser_options =
    options true ("none" ∷ "grid_search" ∷ "bayesian" ∷ "genetic" ∷ []) ""
      "Invalid optimization mode"

abbrev pub backtest_start_datetime_parser_options : ParserOptions String
backtest_start_datetime_parser_options = options true ([]) "" "Invalid backtest start datetime"

abbrev pub backtest_end_datetime_parser_options : ParserOptions String
backtest_end_datetime_parser_options = options true ([]) "" "Invalid backtest end datetime"

abbrev pub initial_capital_parser_options : ParserOptions String
initial_capital_parser_options =
    options true ([]) "0" "Invalid initial capital, please provide a valid money string"

abbrev pub position_sizing_method_parser_options : ParserOptions String
position_sizing_method_parser_options =
    options false ("fixed_percentage" ∷ "fixed_dollar" ∷ "equal_weight" ∷ []) "fixed_percentage"
      "Invalid position sizing method"

abbrev pub use_stop_loss_parser_options : ParserOptions Bool
use_stop_loss_parser_options = options false (true ∷ false ∷ []) false "Invalid use stop loss"

abbrev pub use_take_profit_parser_options : ParserOptions Bool
use_take_profit_parser_options = options false (true ∷ false ∷ []) false "Invalid use take profit"

abbrev pub allow_short_selling_parser_options : ParserOptions Bool
allow_short_selling_parser_options =
    options false (true ∷ false ∷ []) true "Invalid allow short selling"

module _ {D : Type 0} ⦃d : Double D⦄ where
  open d use {decimal}

  abbrev pub commission_parser_options : ParserOptions D
  commission_parser_options = options true ([]) (decimal 0 1) "Invalid commission"

  abbrev pub slippage_parser_options : ParserOptions D
  slippage_parser_options = options true ([]) (decimal 0 1) "Invalid slippage"

  abbrev pub position_size_value_parser_options : ParserOptions D
  position_size_value_parser_options =
      options false ([]) (decimal 1 2) "Invalid position size value"

  abbrev pub max_position_size_parser_options : ParserOptions D
  max_position_size_parser_options = options false ([]) (decimal 0 1) "Invalid max position size"

  abbrev pub stop_loss_pct_parser_options : ParserOptions D
  stop_loss_pct_parser_options = options false ([]) (decimal 5 2) "Invalid stop loss pct"

  abbrev pub take_profit_pct_parser_options : ParserOptions D
  take_profit_pct_parser_options = options false ([]) (decimal 5 2) "Invalid take profit pct"

  abbrev pub fill_max_pct_of_volume_parser_options : ParserOptions D
  fill_max_pct_of_volume_parser_options =
      options false ([]) (decimal 10 2) "Invalid fill max pct of volume"

  abbrev pub risk_free_rate_parser_options : ParserOptions D
  risk_free_rate_parser_options = options false ([]) (decimal 2 2) "Invalid risk free rate"

  abbrev pub initial_margin_pct_parser_options : ParserOptions D
  initial_margin_pct_parser_options = options false ([]) (decimal 10 1) "Invalid initial margin pct"

  abbrev pub max_leverage_parser_options : ParserOptions D
  max_leverage_parser_options = options false ([]) (decimal 10 1) "Invalid max leverage"
