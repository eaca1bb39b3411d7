-- ===== src/Engine/Ordered.antt =====
-- back_test_engine.cpp, run: the heap order of the engine's queues.
use quant_forge_quant_resear.Common.{
  ℕ, String, ◌≡◌, refl, inl, inr, Bool, List, [], ◌∷◌, str_eq, Bool-cases,
}
use quant_forge_quant_resear.Common.Dict
use quant_forge_quant_resear.Common.Dict.{Dict}
use quant_forge_quant_resear.Result.{ok}
use quant_forge_quant_resear.Result.Leaves.{
  Leaves, Leaves-bind, Leaves-after, Leaves-ok, Leaves-option, Leaves-if,
}
use quant_forge_quant_resear.Double.{Double}
use quant_forge_quant_resear.Heap
use quant_forge_quant_resear.Heap.Order.{IsStrictWeak, IsHeap}
use quant_forge_quant_resear.Heap.Laws.{push-Reheaped, pop-Reheaped}
use quant_forge_quant_resear.Heap.Refill.{push_all-Reheaped}
use quant_forge_quant_resear.Heap.Keyed.{
  scheduled_order, buy_order, sell_order, stop_loss_order, take_profit_order,
}
use quant_forge_quant_resear.Models.{
  Order, ExitOrder, ExecutionResult, ExecutionResultSuccess, success, error, LimitOrder,
  ScheduledLimitOrder, limit_buy, limit_sell, scheduled_before, buy_before, sell_before,
  is_limit_order,
}
use quant_forge_quant_resear.Params.{HostParams}
use quant_forge_quant_resear.State.{State, Bar}
use quant_forge_quant_resear.ExitBook.{ExitOrderBook}
use quant_forge_quant_resear.ExitBook.Reduce.{IsOrdered, add_exit_order-IsOrdered, reduce_lem}
use quant_forge_quant_resear.LimitBook.{LimitOrderBook, heap_of, add_limit_order}
use quant_forge_quant_resear.Executor.{execute_order}
use quant_forge_quant_resear.Engine.{
  Engine, create_scheduled_limit_order, schedule, add_exit_orders, closed_fills, book_success,
  handle_execution_result, execute,
}
use quant_forge_quant_resear.Engine.Run.{Environment, end_bar, run}
use quant_forge_quant_resear.Engine.Kept.{IsKept}
use quant_forge_quant_resear.Engine.Bars.{run-Leaves}

-- Popping an empty heap leaves it empty.
pop-IsHeap {ℓ} :
    {A : Type ℓ} {before : A → A → Bool}
    → IsStrictWeak before
    → (xs : List A) → IsHeap before xs
    → IsHeap before (Heap.pop before xs)
unfolding Heap.pop Heap.empty Heap.top
pop-IsHeap order [] h = λ d c p q. h d c p q
pop-IsHeap order (x ∷ xs) h = (pop-Reheaped order (x ∷ xs) h refl).0

module _ {D : Type 0} where
  -- The heap of every symbol is in order.
  abbrev pub AreHeaps : (LimitOrder D → LimitOrder D → Bool) → Dict (List (LimitOrder D)) → Type 0
  AreHeaps before limits = (symbol : String) → IsHeap before (heap_of symbol limits)

  pub record IsValid (e : Engine D) : Type 0 where
    pub orders : IsHeap scheduled_before e.order_book
    pub exits : IsOrdered e.exit_order_book
    pub buys : AreHeaps buy_before e.limit_order_book.buy_limits
    pub sells : AreHeaps sell_before e.limit_order_book.sell_limits

  insert-AreHeaps :
      (before : LimitOrder D → LimitOrder D → Bool) (symbol : String) (heap : List (LimitOrder D))
      (limits : Dict (List (LimitOrder D)))
      → AreHeaps before limits
      → IsHeap before heap
      → AreHeaps before (Dict.insert symbol heap limits)
  insert-AreHeaps before symbol heap limits h k other = elim (Bool-cases (str_eq symbol other)) [
    | inl e ↦ rw (Dict.lookup-insert symbol other heap limits, e, heap_of) k
    | inr e ↦ rw (Dict.lookup-insert symbol other heap limits, e, heap_of) (h other)
  ]

  -- The account and the counter have no part in it.
  same_books :
      (e : Engine D) (s : State D) (n : ℕ)
      → IsValid e
      → IsValid (record e { state = s; uuids_drawn = n })
  same_books e s n v = record { orders = v.orders; exits = v.exits; buys = v.buys; sells = v.sells }

  same_orders :
      (e : Engine D) (book : ExitOrderBook D)
      → IsValid e
      → IsOrdered book
      → IsValid (record e { exit_order_book = book })
  same_orders e book v o = record { orders = v.orders; exits = o; buys = v.buys; sells = v.sells }

module _ {D : Type 0} ⦃d : Double D⦄ (host_params : HostParams D) where
  add_limit_order-AreHeaps :
      (limit : ScheduledLimitOrder D) (book : LimitOrderBook D)
      → AreHeaps buy_before book.buy_limits
      → AreHeaps sell_before book.sell_limits
      → let after = add_limit_order limit book in
        AreHeaps buy_before after.buy_limits × AreHeaps sell_before after.sell_limits
  unfolding add_limit_order
  add_limit_order-AreHeaps (limit_buy arg) book h k =
      let symbol = arg.order.symbol in
      (
        insert-AreHeaps buy_before symbol _ book.buy_limits h
            (push-Reheaped buy_order (heap_of symbol book.buy_limits) arg (h symbol)).0,
        k,
      )
  add_limit_order-AreHeaps (limit_sell arg) book h k =
      let symbol = arg.order.symbol in
      (
        h,
        insert-AreHeaps sell_before symbol _ book.sell_limits k
            (push-Reheaped sell_order (heap_of symbol book.sell_limits) arg (k symbol)).0,
      )

  schedule-IsValid :
      (o : Order D) (e : Engine D) → IsValid e → Leaves IsValid (schedule o host_params e)
  unfolding schedule
  schedule-IsValid o e v =
      Leaves-if IsValid (is_limit_order o) _ _
        (λ limited. Leaves-after IsValid (create_scheduled_limit_order o) _ (λ limit.
          let (h, k) = add_limit_order-AreHeaps limit e.limit_order_book v.buys v.sells in
          record { orders = v.orders; exits = v.exits; buys = h; sells = k }))
        (λ market. record {
          orders = (push-Reheaped scheduled_order e.order_book _ v.orders).0;
          exits = v.exits;
          buys = v.buys;
          sells = v.sells;
        })

  add_exit_orders-IsOrdered :
      (es : List (ExitOrder D)) (book : ExitOrderBook D)
      → IsOrdered book
      → IsOrdered (add_exit_orders es book)
  unfolding add_exit_orders
  add_exit_orders-IsOrdered [] book v = v
  add_exit_orders-IsOrdered (x ∷ es) book v =
      add_exit_orders-IsOrdered es _ (add_exit_order-IsOrdered x book v)

  book_success-IsValid :
      (result : ExecutionResultSuccess D) (e : Engine D)
      → IsValid e
      → Leaves IsValid (book_success result host_params e)
  unfolding book_success
  book_success-IsValid result e v =
      let reduced = (reduce_lem (closed_fills result.fill e.state) e.exit_order_book v.exits).0 in
      let booked = same_orders e _ v (add_exit_orders-IsOrdered result.exit_orders _ reduced) in
      Leaves-bind IsValid IsValid _ _
        (Leaves-option IsValid result.partial_order _ _ booked
          (λ partial q. schedule-IsValid partial _ booked))
        (λ scheduled w. same_books scheduled _ scheduled.uuids_drawn w)

  handle-IsValid :
      (result : ExecutionResult D) (e : Engine D)
      → IsValid e
      → Leaves IsValid (handle_execution_result result host_params e)
  unfolding handle_execution_result
  handle-IsValid (error message) e v = v
  handle-IsValid (success result) e v = book_success-IsValid result e v

  execute-IsValid :
      (create_uuid : ℕ → String) (o : Order D) (e : Engine D)
      → IsValid e
      → Leaves IsValid (execute create_uuid o host_params e)
  unfolding execute
  execute-IsValid create_uuid o e v =
      Leaves-after IsValid (execute_order o host_params e.state (create_uuid e.uuids_drawn)) _
        (λ result. handle-IsValid result _ (same_books e e.state _ v))

  pub valid_kept : (create_uuid : ℕ → String) → IsKept create_uuid host_params IsValid
  unfolding end_bar
  valid_kept create_uuid = record {
    executed = execute-IsValid create_uuid;
    scheduled = schedule-IsValid;
    order_popped = λ e v. record {
      orders = pop-IsHeap scheduled_order e.order_book v.orders;
      exits = v.exits;
      buys = v.buys;
      sells = v.sells;
    };
    buy_popped = λ symbol e v. record {
      orders = v.orders;
      exits = v.exits;
      buys =
          insert-AreHeaps buy_before symbol _ e.limit_order_book.buy_limits v.buys
            (pop-IsHeap buy_order (heap_of symbol e.limit_order_book.buy_limits) (v.buys symbol));
      sells = v.sells;
    };
    sell_popped = λ symbol e v. record {
      orders = v.orders;
      exits = v.exits;
      buys = v.buys;
      sells =
          insert-AreHeaps sell_before symbol _ e.limit_order_book.sell_limits v.sells (
            pop-IsHeap sell_order (heap_of symbol e.limit_order_book.sell_limits) (v.sells symbol));
    };
    stop_loss_popped = λ e v. same_orders e _ v (record {
      stops = pop-IsHeap stop_loss_order e.exit_order_book.stop_loss_heap v.exits.stops;
      profits = v.exits.profits;
    });
    take_profit_popped = λ e v. same_orders e _ v (record {
      stops = v.exits.stops;
      profits = pop-IsHeap take_profit_order e.exit_order_book.take_profit_heap v.exits.profits;
    });
    stop_losses_kept = λ e orders v. same_orders e _ v (record {
      stops =
          (push_all-Reheaped stop_loss_order e.exit_order_book.stop_loss_heap orders
            v.exits.stops).0;
      profits = v.exits.profits;
    });
    take_profits_kept = λ e orders v. same_orders e _ v (record {
      stops = v.exits.stops;
      profits =
          (push_all-Reheaped take_profit_order e.exit_order_book.take_profit_heap orders
            v.exits.profits).0;
    });
    bar_started = λ bar e v. same_books e _ e.uuids_drawn v;
    bar_ended = λ e v. same_books e _ e.uuids_drawn v;
  }

-- A back test that starts with its books in heap order and returns has them in heap order.
pub run-IsValid :
    {D P : Type 0} ⦃d : Double D⦄ (env : Environment D P) (rounds : ℕ) (host_params : HostParams D)
    (bars : List (Bar D)) (e : Engine D) (p : P) (ended : Engine D)
    → IsValid e
    → run env rounds host_params bars e p ≡ ok ended
    → IsValid ended
run-IsValid env rounds host_params bars e p ended v done =
    Leaves-ok IsValid _
      (run-Leaves env host_params IsValid (valid_kept host_params env.create_uuid) rounds bars e p
        (same_books e _ e.uuids_drawn v))
      done
