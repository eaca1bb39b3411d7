-- ===== src/Engine/Limits.antt =====
-- limit_order_book.cpp, process_buy_limits and process_sell_limits, with the callback of
-- back_test_engine.cpp, execute_limit_orders.
use quant_forge_quant_resear.Common.{
  ℕ, zero, suc, String, true, false, none, some, List, [], ◌∷◌, map,
}
use quant_forge_quant_resear.Common.Int.{ℤ, ltb_ℤ}
use quant_forge_quant_resear.Common.Dict
use quant_forge_quant_resear.Common.Dict.{Dict}
use quant_forge_quant_resear.Result.{Result, ok, unfinished, ◌>>=◌}
use quant_forge_quant_resear.Double.{Double}
use quant_forge_quant_resear.Heap
use quant_forge_quant_resear.Models.{LimitOrder, buy_before, sell_before}
use quant_forge_quant_resear.Params.{HostParams}
use quant_forge_quant_resear.LimitBook.{heap_of}
use quant_forge_quant_resear.Engine.{Engine, execute}

module _ {D : Type 0} where
  abbrev pub set_buy_limits : Dict (List (LimitOrder D)) → Engine D → Engine D
  set_buy_limits limits e = record e {
    limit_order_book = record (e.limit_order_book) { buy_limits = limits };
  }

  abbrev pub set_sell_limits : Dict (List (LimitOrder D)) → Engine D → Engine D
  set_sell_limits limits e = record e {
    limit_order_book = record (e.limit_order_book) { sell_limits = limits };
  }

module _ {D : Type 0} ⦃d : Double D⦄ (create_uuid : ℕ → String) where
  -- The buys of one symbol whose limit is not below the bar's low, best price first
  unfoldable pub run_buy_limits : ℕ → String → ℤ → HostParams D → Engine D → Result (Engine D)
  run_buy_limits zero symbol low host_params e = unfinished
  run_buy_limits (suc rounds) symbol low host_params e =
      let limits = e.limit_order_book.buy_limits in
      let heap = heap_of symbol limits in
      elim (Heap.top heap) [
        | none ↦ ok e
        | some limit ↦ elim (ltb_ℤ limit.limit_price low) [
          | true ↦ ok e
          | false ↦
              execute create_uuid limit.order host_params
                (set_buy_limits (Dict.insert symbol (Heap.pop buy_before heap) limits) e)
              >>= run_buy_limits rounds symbol low host_params
        ]
      ]

  unfoldable pub run_sell_limits : ℕ → String → ℤ → HostParams D → Engine D → Result (Engine D)
  run_sell_limits zero symbol high host_params e = unfinished
  run_sell_limits (suc rounds) symbol high host_params e =
      let limits = e.limit_order_book.sell_limits in
      let heap = heap_of symbol limits in
      elim (Heap.top heap) [
        | none ↦ ok e
        | some limit ↦ elim (ltb_ℤ high limit.limit_price) [
          | true ↦ ok e
          | false ↦
              execute create_uuid limit.order host_params
                (set_sell_limits (Dict.insert symbol (Heap.pop sell_before heap) limits) e)
              >>= run_sell_limits rounds symbol high host_params
        ]
      ]

  -- The loop over the symbols with limit orders; one with no price is passed over. The orders that a
  -- run adds to the map have a symbol that stands in it already.
  unfoldable pub process_buy_limits : ℕ → List String → HostParams D → Engine D → Result (Engine D)
  unfolding run_buy_limits
  process_buy_limits rounds [] host_params e = ok e
  process_buy_limits rounds (symbol ∷ symbols) host_params e =
      elim (Dict.lookup symbol e.state.current_bar_prices) [
        | none ↦ process_buy_limits rounds symbols host_params e
        | some bar ↦
            run_buy_limits rounds symbol bar.low host_params e
            >>= process_buy_limits rounds symbols host_params
      ]

  unfoldable pub process_sell_limits : ℕ → List String → HostParams D → Engine D → Result (Engine D)
  unfolding run_sell_limits
  process_sell_limits rounds [] host_params e = ok e
  process_sell_limits rounds (symbol ∷ symbols) host_params e =
      elim (Dict.lookup symbol e.state.current_bar_prices) [
        | none ↦ process_sell_limits rounds symbols host_params e
        | some bar ↦
            run_sell_limits rounds symbol bar.high host_params e
            >>= process_sell_limits rounds symbols host_params
      ]

  unfoldable pub execute_limit_orders : ℕ → HostParams D → Engine D → Result (Engine D)
  unfolding process_buy_limits process_sell_limits
  execute_limit_orders rounds host_params e = do
    bought ←
        process_buy_limits rounds (map (λ entry. entry.0) e.limit_order_book.buy_limits) host_params
          e
    process_sell_limits rounds (map (λ entry. entry.0) bought.limit_order_book.sell_limits)
        host_params bought
