-- ===== src/LimitBook.antt =====
-- src/simulators/back_test/limit_order_book.hpp and .cpp: the pending limit orders of each symbol.
-- The two loops that run orders are in Engine, since their callback changes the book itself.
use quant_forge_quant_resear.Common.{String, Bool, true, ◌&&◌, none, some, List, [], ◌∷◌}
use quant_forge_quant_resear.Common.Dict
use quant_forge_quant_resear.Common.Dict.{Dict}
use quant_forge_quant_resear.Heap
use quant_forge_quant_resear.Models.{
  LimitOrder, ScheduledLimitOrder, limit_buy, limit_sell, buy_before, sell_before,
}

pub record LimitOrderBook (D : Type 0) : Type 0 where
  pub buy_limits : Dict (List (LimitOrder D))
  pub sell_limits : Dict (List (LimitOrder D))

module _ {D : Type 0} where
  -- `limits[symbol]`, which starts a missing heap
  abbrev pub heap_of : String → Dict (List (LimitOrder D)) → List (LimitOrder D)
  heap_of symbol limits = elim (Dict.lookup symbol limits) [ none ↦ [] | some heap ↦ heap ]

  unfoldable pub add_limit_order : ScheduledLimitOrder D → LimitOrderBook D → LimitOrderBook D
  add_limit_order (limit_buy arg) book = record book {
    buy_limits =
        Dict.insert arg.order.symbol
          (Heap.push buy_before (heap_of arg.order.symbol book.buy_limits) arg) book.buy_limits;
  }
  add_limit_order (limit_sell arg) book = record book {
    sell_limits =
        Dict.insert arg.order.symbol
          (Heap.push sell_before (heap_of arg.order.symbol book.sell_limits) arg) book.sell_limits;
  }

  unfoldable pub cancel_orders_for_symbol : String → LimitOrderBook D → LimitOrderBook D
  cancel_orders_for_symbol symbol book = record {
    buy_limits = Dict.erase symbol book.buy_limits;
    sell_limits = Dict.erase symbol book.sell_limits;
  }

  unfoldable pub all_empty : Dict (List (LimitOrder D)) → Bool
  all_empty [] = true
  all_empty ((symbol, heap) ∷ limits) = Heap.empty heap && all_empty limits

  unfoldable pub empty : LimitOrderBook D → Bool
  unfolding all_empty
  empty book = all_empty book.buy_limits && all_empty book.sell_limits
