-- ===== src/Engine/Kept.antt =====
-- back_test_engine.cpp, the loops over the books: a predicate of the engine, from step to step.
use quant_forge_quant_resear.Common.{ℕ, zero, suc, String, List, [], ◌∷◌, map}
use quant_forge_quant_resear.Common.Int.{ℤ, ltb_ℤ}
use quant_forge_quant_resear.Common.Dict
use quant_forge_quant_resear.Result.{Result}
use quant_forge_quant_resear.Result.Leaves.{
  Leaves, Leaves-bind, Leaves-after, Leaves-option, Leaves-elim,
}
use quant_forge_quant_resear.Double.{Double}
use quant_forge_quant_resear.Heap
use quant_forge_quant_resear.Heap.Refill.{push_all}
use quant_forge_quant_resear.Models.{
  Order, StopLossExitOrder, TakeProfitExitOrder, scheduled_before, buy_before, sell_before,
  stop_loss_before, take_profit_before,
}
use quant_forge_quant_resear.Params.{HostParams}
use quant_forge_quant_resear.State.{Bar, prepare_next_bar_state}
use quant_forge_quant_resear.LimitBook.{heap_of}
use quant_forge_quant_resear.ExitBook.{
  Verdict, discard, trigger, keep, judge_stop_loss, judge_take_profit,
}
use quant_forge_quant_resear.AbiConverter.{CInstruction, to_instruction}
use quant_forge_quant_resear.Engine.{Engine, schedule, execute, execute_order_book}
use quant_forge_quant_resear.Engine.Limits.{
  set_buy_limits, set_sell_limits, run_buy_limits, run_sell_limits, process_buy_limits,
  process_sell_limits, execute_limit_orders,
}
use quant_forge_quant_resear.Engine.Exits.{
  set_stop_loss_heap, set_take_profit_heap, process_stop_loss_loop, process_take_profit_loop,
  execute_exit_orders,
}
use quant_forge_quant_resear.Engine.Run.{instruction_order, schedule_plugin_instructions, end_bar}

Leaves-verdict {ℓ} :
    {A : Type ℓ} (P : A → Type 0) (v : Verdict) (x y z : Result A)
    → Leaves P x
    → Leaves P y
    → Leaves P z
    → Leaves P (elim v [ discard ↦ x | trigger ↦ y | keep ↦ z ])
Leaves-verdict P discard x y z h k l = h
Leaves-verdict P trigger x y z h k l = k
Leaves-verdict P keep x y z h k l = l

module _ {D : Type 0} ⦃d : Double D⦄ (create_uuid : ℕ → String) (host_params : HostParams D) where
  -- The steps that the loops are made of
  pub record IsKept (P : Engine D → Type 0) : Type 0 where
    pub executed :
        (o : Order D) (e : Engine D) → P e → Leaves P (execute create_uuid o host_params e)
    pub scheduled : (o : Order D) (e : Engine D) → P e → Leaves P (schedule o host_params e)
    pub order_popped :
        (e : Engine D) → P e → P (record e { order_book = Heap.pop scheduled_before e.order_book })
    pub buy_popped :
        (symbol : String) (e : Engine D)
        → P e
        → let limits = e.limit_order_book.buy_limits in
          P (
            set_buy_limits
              (Dict.insert symbol (Heap.pop buy_before (heap_of symbol limits)) limits)
              e)
    pub sell_popped :
        (symbol : String) (e : Engine D)
        → P e
        → let limits = e.limit_order_book.sell_limits in
          P (
            set_sell_limits
              (Dict.insert symbol (Heap.pop sell_before (heap_of symbol limits)) limits)
              e)
    pub stop_loss_popped :
        (e : Engine D)
        → P e
        → P (set_stop_loss_heap (Heap.pop stop_loss_before e.exit_order_book.stop_loss_heap) e)
    pub take_profit_popped :
        (e : Engine D)
        → P e
        → P (
            set_take_profit_heap (Heap.pop take_profit_before e.exit_order_book.take_profit_heap) e)
    pub stop_losses_kept :
        (e : Engine D) (orders : List (StopLossExitOrder D))
        → P e
        → P (
            set_stop_loss_heap
              (push_all stop_loss_before e.exit_order_book.stop_loss_heap orders)
              e)
    pub take_profits_kept :
        (e : Engine D) (orders : List (TakeProfitExitOrder D))
        → P e
        → P (
            set_take_profit_heap
              (push_all take_profit_before e.exit_order_book.take_profit_heap orders)
              e)
    pub bar_started :
        (bar : Bar D) (e : Engine D)
        → P e
        → P (record e { state = prepare_next_bar_state bar e.state })
    pub bar_ended : (e : Engine D) → P e → P (end_bar host_params e)

  module _ (P : Engine D → Type 0) (kept : IsKept P) where
    pub execute_order_book-Leaves :
        (rounds : ℕ) (now : ℤ) (e : Engine D)
        → P e
        → Leaves P (execute_order_book create_uuid rounds now host_params e)
    unfolding execute_order_book
    execute_order_book-Leaves zero now e h = tt
    execute_order_book-Leaves (suc rounds) now e h =
        Leaves-option P (Heap.top e.order_book) _ _ h (λ scheduled q.
          Leaves-elim P (ltb_ℤ now scheduled.scheduled_fill_at_ns) _ _ (λ p. h)
            (λ p.
              Leaves-bind P P _ _ (kept.executed scheduled.order _ (kept.order_popped e h))
                (execute_order_book-Leaves rounds now)))

    run_buy_limits-Leaves :
        (rounds : ℕ) (symbol : String) (low : ℤ) (e : Engine D)
        → P e
        → Leaves P (run_buy_limits create_uuid rounds symbol low host_params e)
    unfolding run_buy_limits
    run_buy_limits-Leaves zero symbol low e h = tt
    run_buy_limits-Leaves (suc rounds) symbol low e h =
        Leaves-option P (Heap.top (heap_of symbol e.limit_order_book.buy_limits)) _ _ h (λ limit q.
          Leaves-elim P (ltb_ℤ limit.limit_price low) _ _ (λ p. h)
            (λ p.
              Leaves-bind P P _ _ (kept.executed limit.order _ (kept.buy_popped symbol e h))
                (run_buy_limits-Leaves rounds symbol low)))

    run_sell_limits-Leaves :
        (rounds : ℕ) (symbol : String) (high : ℤ) (e : Engine D)
        → P e
        → Leaves P (run_sell_limits create_uuid rounds symbol high host_params e)
    unfolding run_sell_limits
    run_sell_limits-Leaves zero symbol high e h = tt
    run_sell_limits-Leaves (suc rounds) symbol high e h =
        Leaves-option P (Heap.top (heap_of symbol e.limit_order_book.sell_limits)) _ _ h (λ limit q.
          Leaves-elim P (ltb_ℤ high limit.limit_price) _ _ (λ p. h)
            (λ p.
              Leaves-bind P P _ _ (kept.executed limit.order _ (kept.sell_popped symbol e h))
                (run_sell_limits-Leaves rounds symbol high)))

    process_buy_limits-Leaves :
        (rounds : ℕ) (symbols : List String) (e : Engine D)
        → P e
        → Leaves P (process_buy_limits create_uuid rounds symbols host_params e)
    unfolding process_buy_limits
    process_buy_limits-Leaves rounds [] e h = h
    process_buy_limits-Leaves rounds (symbol ∷ symbols) e h =
        Leaves-option P (Dict.lookup symbol e.state.current_bar_prices) _ _
          (process_buy_limits-Leaves rounds symbols e h)
          (λ bar q.
            Leaves-bind P P _ _ (run_buy_limits-Leaves rounds symbol bar.low e h)
              (process_buy_limits-Leaves rounds symbols))

    process_sell_limits-Leaves :
        (rounds : ℕ) (symbols : List String) (e : Engine D)
        → P e
        → Leaves P (process_sell_limits create_uuid rounds symbols host_params e)
    unfolding process_sell_limits
    process_sell_limits-Leaves rounds [] e h = h
    process_sell_limits-Leaves rounds (symbol ∷ symbols) e h =
        Leaves-option P (Dict.lookup symbol e.state.current_bar_prices) _ _
          (process_sell_limits-Leaves rounds symbols e h)
          (λ bar q.
            Leaves-bind P P _ _ (run_sell_limits-Leaves rounds symbol bar.high e h)
              (process_sell_limits-Leaves rounds symbols))

    pub execute_limit_orders-Leaves :
        (rounds : ℕ) (e : Engine D)
        → P e
        → Leaves P (execute_limit_orders create_uuid rounds host_params e)
    unfolding execute_limit_orders
    execute_limit_orders-Leaves rounds e h =
        let symbols = map (λ entry. entry.0) e.limit_order_book.buy_limits in
        Leaves-bind P P (process_buy_limits create_uuid rounds symbols host_params e) _
          (process_buy_limits-Leaves rounds symbols e h)
          (λ bought.
            process_sell_limits-Leaves rounds
              (map (λ entry. entry.0) bought.limit_order_book.sell_limits) bought)

    process_stop_loss_loop-Leaves :
        (rounds : ℕ) (orders : List (StopLossExitOrder D)) (e : Engine D)
        → P e
        → Leaves P (process_stop_loss_loop create_uuid rounds host_params orders e)
    unfolding process_stop_loss_loop
    process_stop_loss_loop-Leaves zero orders e h = tt
    process_stop_loss_loop-Leaves (suc rounds) orders e h =
        Leaves-option P (Heap.top e.exit_order_book.stop_loss_heap) _ _
          (kept.stop_losses_kept e orders h)
          (λ exit_order q.
            Leaves-verdict P (judge_stop_loss e.state exit_order) _ _ _
              (process_stop_loss_loop-Leaves rounds orders _ (kept.stop_loss_popped e h))
              (Leaves-bind P P _ _ (kept.executed _ _ (kept.stop_loss_popped e h))
                (process_stop_loss_loop-Leaves rounds orders))
              (process_stop_loss_loop-Leaves rounds _ _ (kept.stop_loss_popped e h)))

    process_take_profit_loop-Leaves :
        (rounds : ℕ) (orders : List (TakeProfitExitOrder D)) (e : Engine D)
        → P e
        → Leaves P (process_take_profit_loop create_uuid rounds host_params orders e)
    unfolding process_take_profit_loop
    process_take_profit_loop-Leaves zero orders e h = tt
    process_take_profit_loop-Leaves (suc rounds) orders e h =
        Leaves-option P (Heap.top e.exit_order_book.take_profit_heap) _ _
          (kept.take_profits_kept e orders h)
          (λ exit_order q.
            Leaves-verdict P (judge_take_profit e.state exit_order) _ _ _
              (process_take_profit_loop-Leaves rounds orders _ (kept.take_profit_popped e h))
              (Leaves-bind P P _ _ (kept.executed _ _ (kept.take_profit_popped e h))
                (process_take_profit_loop-Leaves rounds orders))
              (process_take_profit_loop-Leaves rounds _ _ (kept.take_profit_popped e h)))

    pub execute_exit_orders-Leaves :
        (rounds : ℕ) (e : Engine D)
        → P e
        → Leaves P (execute_exit_orders create_uuid rounds host_params e)
    unfolding execute_exit_orders
    execute_exit_orders-Leaves rounds e h =
        Leaves-bind P P _ _ (process_stop_loss_loop-Leaves rounds [] e h)
          (process_take_profit_loop-Leaves rounds [])

    pub schedule_plugin_instructions-Leaves :
        (clock : ℕ → ℤ) (i : ℕ) (instructions : List (CInstruction D)) (e : Engine D)
        → P e
        → Leaves P (schedule_plugin_instructions clock i instructions host_params e)
    unfolding schedule_plugin_instructions
    schedule_plugin_instructions-Leaves clock i [] e h = h
    schedule_plugin_instructions-Leaves clock i (c_instruction ∷ rest) e h =
        Leaves-after P (to_instruction (clock i) c_instruction) _ (λ instruction.
          Leaves-after P (instruction_order instruction host_params e.state) _ (λ o.
            Leaves-bind P P _ _ (kept.scheduled o e h)
              (schedule_plugin_instructions-Leaves clock (suc i) rest)))
