-- ===== src/Tests/Data.antt =====
-- One symbol, an account and a few orders.
use quant_forge_quant_resear.Common.{
  ℕ, zero, suc, ◌*◌, String, false, true, none, some, [], ◌∷◌, str_append,
}
use quant_forge_quant_resear.Common.Int.{ℤ, pos}
use quant_forge_quant_resear.Models.{
  Order, Fill, ScheduledOrder, StopLossExitOrder, TakeProfitExitOrder,
}
use quant_forge_quant_resear.Params.{HostParams}
use quant_forge_quant_resear.State.{State, Bar}
use quant_forge_quant_resear.ExitBook.{ExitOrderBook}
use quant_forge_quant_resear.Engine.{Engine}
use quant_forge_quant_resear.Engine.Run.{Environment}

-- A number of whole units, as a fixed-point number and as an amount of money
abbrev pub units : ℕ → ℤ
units n = pos (n * 1000000)

abbrev pub cash_account : HostParams ℤ
cash_account = record {
  market_hours_only = none;
  allow_fractional_shares = none;
  monte_carlo_runs = pos 0;
  monte_carlo_seed = pos 0;
  commission = none;
  slippage = none;
  initial_capital = units 10000;
  commission_type = none;
  slippage_model = none;
  default_currency = none;
  timezone = none;
  optimization_mode = none;
  backtest_start_datetime = "";
  backtest_end_datetime = "";
  symbols = [];
  position_sizing_method = none;
  position_size_value = none;
  max_position_size = none;
  use_stop_loss = none;
  stop_loss_pct = none;
  use_take_profit = none;
  take_profit_pct = none;
  fill_max_pct_of_volume = none;
  risk_free_rate = none;
  allow_short_selling = some false;
  initial_margin_pct = none;
  max_leverage = none;
}

-- Fractional shares, and at most a fiftieth of a bar's volume for a fill
abbrev pub capped_account : HostParams ℤ
capped_account = record cash_account {
  allow_fractional_shares = some true;
  fill_max_pct_of_volume = some (pos 20000);
}

abbrev pub opened : State ℤ
opened = record {
  cash = units 10000;
  margin_in_use = pos 0;
  current_timestamp_ns = pos 1000;
  positions = [];
  current_bar_prices =
      ("A", record { close = units 20; open_price = units 19; high = units 21; low = units 18 })
      ∷ [];
  current_bar_volumes = ("A", pos 100) ∷ [];
  fills = [];
  exit_orders = [];
  equity_curve = [];
  new_fills = [];
  new_exit_orders = [];
  active_buy_fills = [];
  active_sell_fills = [];
  active_margin_for_fills = [];
  active_leverage_for_fills = [];
  peak_equity = units 10000;
  max_drawdown = pos 0;
}

abbrev pub bought_fill : Fill ℤ
bought_fill = record {
  quantity = units 10;
  leverage = units 1;
  created_at_ns = pos 500;
  price = units 15;
  margin_used = units 150;
  symbol = "A";
  uuid = "u";
  action = "buy";
}

-- The account that has bought ten shares
abbrev pub holding : State ℤ
holding = record opened {
  cash = units 9850;
  margin_in_use = units 150;
  positions = ("A", record { symbol = "A"; quantity = units 10; average_price = units 15 }) ∷ [];
  fills = bought_fill ∷ [];
  active_buy_fills = ("u", units 10) ∷ [];
  active_margin_for_fills = ("u", units 150) ∷ [];
  active_leverage_for_fills = ("u", units 1) ∷ [];
}

-- The account that has bought three more
abbrev pub holding_two : State ℤ
holding_two = record holding {
  cash = units 9805;
  margin_in_use = units 195;
  positions = ("A", record { symbol = "A"; quantity = units 13; average_price = units 15 }) ∷ [];
  fills =
      bought_fill
      ∷ record bought_fill { uuid = "w"; quantity = units 3; margin_used = units 45 }
      ∷ [];
  active_buy_fills = ("u", units 10) ∷ ("w", units 3) ∷ [];
  active_margin_for_fills = ("u", units 150) ∷ ("w", units 45) ∷ [];
  active_leverage_for_fills = ("u", units 1) ∷ ("w", units 1) ∷ [];
}

abbrev pub market_order : String → ℤ → Order ℤ
market_order action quantity = record {
  is_exit_order = false;
  quantity = quantity;
  created_at_ns = pos 0;
  symbol = "A";
  action = action;
  order_type = "market";
  source_fill_uuid = none;
  limit_price = none;
  stop_loss_price = none;
  take_profit_price = none;
  leverage = none;
}

abbrev pub limit_order : String → ℤ → Order ℤ
limit_order action price = record (market_order action (units 5)) {
  order_type = "limit";
  limit_price = some price;
}

abbrev pub due_at : ℤ → ScheduledOrder ℤ
due_at time = record { order = market_order "buy" (units 5); scheduled_fill_at_ns = time }

abbrev pub stop_at : ℤ → ℤ → StopLossExitOrder ℤ
stop_at price quantity = record {
  is_triggered = false;
  is_short_position = false;
  trigger_quantity = quantity;
  stop_loss_price = price;
  price = units 15;
  created_at_ns = pos 500;
  symbol = "A";
  fill_uuid = "u";
}

abbrev pub profit_at : ℤ → ℤ → TakeProfitExitOrder ℤ
profit_at price quantity = record {
  is_triggered = false;
  is_short_position = false;
  trigger_quantity = quantity;
  take_profit_price = price;
  price = units 15;
  created_at_ns = pos 500;
  symbol = "A";
  fill_uuid = "u";
}

abbrev pub exit_book : ExitOrderBook ℤ
exit_book = record {
  stop_loss_heap = stop_at (units 12) (units 4) ∷ stop_at (units 19) (units 6) ∷ [];
  take_profit_heap = profit_at (units 30) (units 4) ∷ [];
}

abbrev pub engine : Engine ℤ
engine = record {
  state = holding;
  order_book = due_at (pos 900) ∷ due_at (pos 2000) ∷ [];
  exit_order_book = exit_book;
  limit_order_book = record {
    buy_limits =
        (
          "A",
          record { order = limit_order "buy" (units 19); limit_price = units 19 }
              ∷ record { order = limit_order "buy" (units 12); limit_price = units 12 }
              ∷ [],
        )
        ∷ [];
    sell_limits =
        ("A", record { order = limit_order "sell" (units 20); limit_price = units 20 } ∷ []) ∷ [];
  };
  uuids_drawn = 0;
}

abbrev pub uuid_of : ℕ → String
uuid_of zero = "v"
uuid_of (suc n) = str_append "w" (uuid_of n)

-- A day of one bar, and a plugin that does nothing
abbrev pub bar : Bar ℤ
bar = record {
  symbol = "A";
  is_otc = false;
  tx_count = pos 1;
  volume = units 100;
  volume_weighted_price = units 20;
  open_price = units 19;
  close = units 20;
  high = units 21;
  low = units 18;
  unix_ts_ns = pos 1000;
}

abbrev pub idle : Environment ℤ Unit
idle = record {
  on_bar = λ p b s. (record { code = pos 0; message = ""; instructions = [] }, p);
  on_end = λ p. record { code = pos 0; message = ""; instructions = [] };
  clock = λ p i. pos 0;
  create_uuid = uuid_of;
}

-- The engine before its first bar, with an order that is due
abbrev pub fresh : Engine ℤ
fresh = record {
  state = record opened { current_bar_prices = []; current_bar_volumes = [] };
  order_book = due_at (pos 900) ∷ [];
  exit_order_book = record { stop_loss_heap = []; take_profit_heap = [] };
  limit_order_book = record { buy_limits = []; sell_limits = [] };
  uuids_drawn = 0;
}
