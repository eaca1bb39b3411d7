-- ===== src/Models.antt =====
-- src/simulators/back_test/models.hpp: the orders, fills and results of a back test.
-- The time stamps that default to the clock are arguments.
use quant_forge_quant_resear.Common.{
  String, Bool, true, false, not, ◌&&◌, ◌||◌, Option, none, some, List, str_eq, if◌then◌else◌,
}
use quant_forge_quant_resear.Common.Int.{ℤ, ltb_ℤ}
use quant_forge_quant_resear.Money.{Money}

unfoldable pub is_buy_action : String → Bool
is_buy_action action = str_eq action "buy"

unfoldable pub is_sell_action : String → Bool
is_sell_action action = str_eq action "sell"

pub record Signal : Type 0 where
  pub created_at_ns : ℤ
  pub symbol : String
  pub action : String

pub record Order (D : Type 0) : Type 0 where
  pub is_exit_order : Bool
  pub quantity : D
  pub created_at_ns : ℤ
  pub symbol : String
  pub action : String
  pub order_type : String
  pub source_fill_uuid : Option String
  pub limit_price : Option Money
  pub stop_loss_price : Option Money
  pub take_profit_price : Option Money
  pub leverage : Option D

abbrev pub has_value {ℓ} : {A : Type ℓ} → Option A → Bool
has_value none = false
has_value (some a) = true

abbrev pub value_or {ℓ} : {A : Type ℓ} → Option A → A → A
value_or none d = d
value_or (some a) d = a

module _ {D : Type 0} where
  unfoldable pub is_limit_order : Order D → Bool
  is_limit_order order = str_eq order.order_type "limit" && has_value order.limit_price

  unfoldable pub is_market_order : Order D → Bool
  is_market_order order = str_eq order.order_type "market" || not (has_value order.limit_price)

  -- The constructor Order(quantity, created_at_ns, …, take_profit_price): no leverage, not an exit order.
  unfoldable pub make_order :
      D → ℤ → String → String → String → Option Money → Option Money → Option Money → Order D
  make_order quantity created_at_ns symbol action order_type limit_price stop_loss take_profit =
      record {
        is_exit_order = false;
        quantity = quantity;
        created_at_ns = created_at_ns;
        symbol = symbol;
        action = action;
        order_type = order_type;
        source_fill_uuid = none;
        limit_price = limit_price;
        stop_loss_price = stop_loss;
        take_profit_price = take_profit;
        leverage = none;
      }

pub record Fill (D : Type 0) : Type 0 where
  pub quantity : D
  pub leverage : D
  pub created_at_ns : ℤ
  pub price : Money
  pub margin_used : Money
  pub symbol : String
  pub uuid : String
  pub action : String

pub record StopLossExitOrder (D : Type 0) : Type 0 where
  pub is_triggered : Bool
  pub is_short_position : Bool
  pub trigger_quantity : D
  pub stop_loss_price : Money
  pub price : Money
  pub created_at_ns : ℤ
  pub symbol : String
  pub fill_uuid : String

pub record TakeProfitExitOrder (D : Type 0) : Type 0 where
  pub is_triggered : Bool
  pub is_short_position : Bool
  pub trigger_quantity : D
  pub take_profit_price : Money
  pub price : Money
  pub created_at_ns : ℤ
  pub symbol : String
  pub fill_uuid : String

pub data ExitOrder (D : Type 0) : Type 0 where
  stop_loss : StopLossExitOrder D → ExitOrder D
  take_profit : TakeProfitExitOrder D → ExitOrder D

-- The market order that closes what an exit order guards.
close_order : {D : Type 0} → Bool → D → ℤ → String → String → Order D
unfolding make_order
close_order is_short quantity created_at_ns symbol fill_uuid =
    let action = if is_short then "buy" else "sell" in
    let order = make_order quantity created_at_ns symbol action "market" none none none in
    record order { is_exit_order = true; source_fill_uuid = some fill_uuid }

module _ {D : Type 0} where
  -- StopLossExitOrder::operator<, the order of the MinHeap
  unfoldable pub stop_loss_before : StopLossExitOrder D → StopLossExitOrder D → Bool
  stop_loss_before a b = ltb_ℤ a.stop_loss_price b.stop_loss_price

  unfoldable pub stop_loss_to_close_instruction : StopLossExitOrder D → Order D
  unfolding close_order
  stop_loss_to_close_instruction e =
      close_order e.is_short_position e.trigger_quantity e.created_at_ns e.symbol e.fill_uuid

  -- TakeProfitExitOrder::operator>, the order of the MaxHeap: the lower price is the greater order
  unfoldable pub take_profit_before : TakeProfitExitOrder D → TakeProfitExitOrder D → Bool
  take_profit_before a b = ltb_ℤ a.take_profit_price b.take_profit_price

  unfoldable pub take_profit_to_close_instruction : TakeProfitExitOrder D → Order D
  unfolding close_order
  take_profit_to_close_instruction e =
      close_order e.is_short_position e.trigger_quantity e.created_at_ns e.symbol e.fill_uuid

pub record Position (D : Type 0) : Type 0 where
  pub symbol : String
  pub quantity : D
  pub average_price : Money

pub record EquitySnapshot (D : Type 0) : Type 0 where
  pub timestamp_ns : ℤ
  pub equity : Money
  pub return_ : D
  pub max_drawdown : D
  pub sharpe_ratio : D
  pub sharpe_ratio_rolling : D
  pub sortino_ratio : D
  pub sortino_ratio_rolling : D
  pub calmar_ratio : D
  pub calmar_ratio_rolling : D
  pub tail_ratio : D
  pub tail_ratio_rolling : D
  pub value_at_risk : D
  pub value_at_risk_rolling : D
  pub conditional_value_at_risk : D
  pub conditional_value_at_risk_rolling : D

pub record ExecutionResultSuccess (D : Type 0) : Type 0 where
  pub message : String
  pub cash_delta : Money
  pub margin_used : Money
  pub leverage : D
  pub position : Position D
  pub fill : Fill D
  pub exit_orders : List (ExitOrder D)
  pub partial_order : Option (Order D)

pub data ExecutionResult (D : Type 0) : Type 0 where
  success : ExecutionResultSuccess D → ExecutionResult D
  error : String → ExecutionResult D

unfoldable pub make_success :
    {D : Type 0}
    → Money
    → Money
    → D
    → Option (Order D)
    → Position D
    → Fill D
    → List (ExitOrder D)
    → ExecutionResultSuccess D
make_success cash_delta margin_used leverage partial_order position fill exit_orders = record {
  message = if has_value partial_order then "Partial fill" else "Complete fill";
  cash_delta = cash_delta;
  margin_used = margin_used;
  leverage = leverage;
  position = position;
  fill = fill;
  exit_orders = exit_orders;
  partial_order = partial_order;
}

pub record ScheduledOrder (D : Type 0) : Type 0 where
  pub order : Order D
  pub scheduled_fill_at_ns : ℤ

-- ScheduledOrder::operator<
unfoldable pub scheduled_before : {D : Type 0} → ScheduledOrder D → ScheduledOrder D → Bool
scheduled_before a b = ltb_ℤ a.scheduled_fill_at_ns b.scheduled_fill_at_ns

-- LimitBuyOrder and LimitSellOrder have the same fields.
pub record LimitOrder (D : Type 0) : Type 0 where
  pub order : Order D
  pub limit_price : Money

-- LimitBuyOrder::operator>, the order of the MaxHeap of buys
unfoldable pub buy_before : {D : Type 0} → LimitOrder D → LimitOrder D → Bool
buy_before a b = ltb_ℤ b.limit_price a.limit_price

-- LimitSellOrder::operator<, the order of the MinHeap of sells
unfoldable pub sell_before : {D : Type 0} → LimitOrder D → LimitOrder D → Bool
sell_before a b = ltb_ℤ a.limit_price b.limit_price

pub data ScheduledLimitOrder (D : Type 0) : Type 0 where
  limit_buy : LimitOrder D → ScheduledLimitOrder D
  limit_sell : LimitOrder D → ScheduledLimitOrder D
