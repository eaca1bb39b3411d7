-- ===== src/ExitBook.antt =====
-- src/simulators/back_test/exit_order_book.hpp and .cpp: the pending stop losses and take profits.
-- The two loops that run orders are in Engine, since their callback changes the book itself.
pub mod Reduce
use quant_forge_quant_resear.Common.{
  String, Bool, true, false, Option, none, some, List, [], ◌∷◌, str_eq, if◌then◌else◌,
}
use quant_forge_quant_resear.Common.Int.{ℤ, leb_ℤ}
use quant_forge_quant_resear.Common.Dict
use quant_forge_quant_resear.Double.{Double}
use quant_forge_quant_resear.Heap
use quant_forge_quant_resear.Heap.Refill.{refill}
use quant_forge_quant_resear.Models.{
  StopLossExitOrder, TakeProfitExitOrder, ExitOrder, stop_loss, take_profit, stop_loss_before,
  take_profit_before,
}
use quant_forge_quant_resear.State.{State}

pub record ExitOrderBook (D : Type 0) : Type 0 where
  pub stop_loss_heap : List (StopLossExitOrder D)
  pub take_profit_heap : List (TakeProfitExitOrder D)

-- What a loop does with the order on top: drop it (no position, or no price), run it, or keep it.
pub data Verdict : Type 0 where
  discard trigger keep : Verdict

module _ {D : Type 0} where
  unfoldable pub add_exit_order : ExitOrder D → ExitOrderBook D → ExitOrderBook D
  add_exit_order (stop_loss e) book = record book {
    stop_loss_heap = Heap.push stop_loss_before book.stop_loss_heap e;
  }
  add_exit_order (take_profit e) book = record book {
    take_profit_heap = Heap.push take_profit_before book.take_profit_heap e;
  }

  unfoldable pub judge_stop_loss : State D → StopLossExitOrder D → Verdict
  judge_stop_loss s e = elim (Dict.lookup e.symbol s.positions) [
    | none ↦ discard
    | some position ↦ elim (Dict.lookup e.symbol s.current_bar_prices) [
      | none ↦ discard
      | some bar ↦
          if (if e.is_short_position
            then leb_ℤ e.stop_loss_price bar.high
            else leb_ℤ bar.low e.stop_loss_price)
          then trigger
          else keep
    ]
  ]

  unfoldable pub judge_take_profit : State D → TakeProfitExitOrder D → Verdict
  judge_take_profit s e = elim (Dict.lookup e.symbol s.positions) [
    | none ↦ discard
    | some position ↦ elim (Dict.lookup e.symbol s.current_bar_prices) [
      | none ↦ discard
      | some bar ↦
          if (if e.is_short_position
            then leb_ℤ bar.low e.take_profit_price
            else leb_ℤ e.take_profit_price bar.high)
          then trigger
          else keep
    ]
  ]

module _ {D : Type 0} ⦃d : Double D⦄ where
  open d use {lt, sub}

  -- An order of the fill loses the quantity sold, or goes; an order of another fill stays.
  unfoldable pub reduce_stop_loss : String → D → StopLossExitOrder D → Option (StopLossExitOrder D)
  reduce_stop_loss fill_uuid quantity_sold e =
      if str_eq e.fill_uuid fill_uuid
      then (if lt quantity_sold e.trigger_quantity
          then some (record e { trigger_quantity = sub e.trigger_quantity quantity_sold })
          else none)
      else some e

  unfoldable pub reduce_take_profit :
      String → D → TakeProfitExitOrder D → Option (TakeProfitExitOrder D)
  reduce_take_profit fill_uuid quantity_sold e =
      if str_eq e.fill_uuid fill_uuid
      then (if lt quantity_sold e.trigger_quantity
          then some (record e { trigger_quantity = sub e.trigger_quantity quantity_sold })
          else none)
      else some e

  unfoldable pub reduce_exit_orders_by_fill_uuid : String → D → ExitOrderBook D → ExitOrderBook D
  unfolding reduce_stop_loss reduce_take_profit
  reduce_exit_orders_by_fill_uuid fill_uuid quantity_sold book = record {
    stop_loss_heap =
        refill stop_loss_before (reduce_stop_loss fill_uuid quantity_sold) book.stop_loss_heap;
    take_profit_heap =
        refill take_profit_before (reduce_take_profit fill_uuid quantity_sold)
          book.take_profit_heap;
  }

  unfoldable pub reduce_exit_orders_by_fills : List (String × D) → ExitOrderBook D → ExitOrderBook D
  unfolding reduce_exit_orders_by_fill_uuid
  reduce_exit_orders_by_fills [] book = book
  reduce_exit_orders_by_fills ((fill_uuid, quantity) ∷ closed) book =
      reduce_exit_orders_by_fills closed (reduce_exit_orders_by_fill_uuid fill_uuid quantity book)
