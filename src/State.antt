-- ===== src/State.antt =====
-- src/simulators/back_test/state.hpp and the first part of state.cpp: the account that a back test keeps,
-- its accessors and what each bar sets. Ledger has what a fill does to it, Snapshot the equity curve.
use quant_forge_quant_resear.Common.{String, Bool, none, some, List, []}
use quant_forge_quant_resear.Common.Int.{ℤ, pos}
use quant_forge_quant_resear.Common.Dict
use quant_forge_quant_resear.Common.Dict.{Dict}
use quant_forge_quant_resear.Result.{Result, or_out_of_range, ◌>>=◌, ok}
use quant_forge_quant_resear.Double.{Double, nought}
use quant_forge_quant_resear.Money.{Money, from_dollars}
use quant_forge_quant_resear.Models.{
  Fill, ExitOrder, Position, EquitySnapshot, is_buy_action, is_sell_action,
}
use quant_forge_quant_resear.Params.{HostParams}

pub record CurrentBarPrices : Type 0 where
  pub close : Money
  pub open_price : Money
  pub high : Money
  pub low : Money

-- src/http/api/stock_api.hpp, AggregateBarResult
pub record Bar (D : Type 0) : Type 0 where
  pub symbol : String
  pub is_otc : Bool
  pub tx_count : ℤ
  pub volume : D
  pub volume_weighted_price : D
  pub open_price : D
  pub close : D
  pub high : D
  pub low : D
  pub unix_ts_ns : ℤ

pub record State (D : Type 0) : Type 0 where
  pub cash : Money
  pub margin_in_use : Money
  pub current_timestamp_ns : ℤ
  pub positions : Dict (Position D)
  pub current_bar_prices : Dict CurrentBarPrices
  pub current_bar_volumes : Dict ℤ
  pub fills : List (Fill D)
  pub exit_orders : List (ExitOrder D)
  pub equity_curve : List (EquitySnapshot D)
  pub new_fills : List (Fill D)
  pub new_exit_orders : List (ExitOrder D)
  pub active_buy_fills : Dict D
  pub active_sell_fills : Dict D
  pub active_margin_for_fills : Dict Money
  pub active_leverage_for_fills : Dict D
  pub peak_equity : Money
  pub max_drawdown : D

-- The two maps of open fills, and the two functions that reduce them, are one text up to the side.
pub data Side : Type 0 where
  buys sells : Side

unfoldable pub is_side : Side → String → Bool
unfolding is_buy_action is_sell_action
is_side buys action = is_buy_action action
is_side sells action = is_sell_action action

module _ {D : Type 0} where
  unfoldable pub get_symbol_close : State D → String → Result Money
  get_symbol_close s symbol = do
    prices ← or_out_of_range (Dict.lookup symbol s.current_bar_prices)
    ok prices.close

  unfoldable pub get_symbol_high : State D → String → Result Money
  get_symbol_high s symbol = do
    prices ← or_out_of_range (Dict.lookup symbol s.current_bar_prices)
    ok prices.high

  unfoldable pub get_symbol_low : State D → String → Result Money
  get_symbol_low s symbol = do
    prices ← or_out_of_range (Dict.lookup symbol s.current_bar_prices)
    ok prices.low

  unfoldable pub has_symbol_prices : State D → String → Bool
  has_symbol_prices s symbol = Dict.contains symbol s.current_bar_prices

  unfoldable pub get_symbol_volume : State D → String → Result ℤ
  get_symbol_volume s symbol = or_out_of_range (Dict.lookup symbol s.current_bar_volumes)

  unfoldable pub has_symbol_volume : State D → String → Bool
  has_symbol_volume s symbol = Dict.contains symbol s.current_bar_volumes

  unfoldable pub get_symbol_position_or : State D → String → Position D → Position D
  get_symbol_position_or s symbol default_position = elim (Dict.lookup symbol s.positions) [
    | none ↦ default_position
    | some p ↦ p
  ]

  unfoldable pub has_symbol_position : State D → String → Bool
  has_symbol_position s symbol = Dict.contains symbol s.positions

  abbrev pub active_fills : Side → State D → Dict D
  active_fills buys s = s.active_buy_fills
  active_fills sells s = s.active_sell_fills

  abbrev pub set_active_fills : Side → Dict D → State D → State D
  set_active_fills buys m s = record s { active_buy_fills = m }
  set_active_fills sells m s = record s { active_sell_fills = m }

  unfoldable pub clear_previous_bar_state : State D → State D
  clear_previous_bar_state s = record s { new_fills = []; new_exit_orders = [] }

module _ {D : Type 0} ⦃d : Double D⦄ where
  open d use {lt, le, eq, sub, div, trunc_int}

  unfoldable pub prepare_initial_state : HostParams D → State D → State D
  prepare_initial_state host_params s = record s {
    cash = host_params.initial_capital;
    margin_in_use = pos 0;
    peak_equity = host_params.initial_capital;
    max_drawdown = nought;
  }

  unfoldable pub prepare_next_bar_state : Bar D → State D → State D
  prepare_next_bar_state bar s = record s {
    current_timestamp_ns = bar.unix_ts_ns;
    current_bar_prices =
        Dict.insert bar.symbol
          (record {
            close = from_dollars bar.close;
            open_price = from_dollars bar.open_price;
            high = from_dollars bar.high;
            low = from_dollars bar.low;
          })
          s.current_bar_prices;
    current_bar_volumes = Dict.insert bar.symbol (trunc_int bar.volume) s.current_bar_volumes;
  }
