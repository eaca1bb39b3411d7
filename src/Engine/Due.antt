-- ===== src/Engine/Due.antt =====
-- back_test_engine.cpp, execute_order_book, and the loops of limit_order_book.cpp: what they leave.
use quant_forge_quant_resear.Common.{
  ℕ, zero, suc, String, ◌≡◌, true, false, none, some, List, [], ◌∷◌, arith, get_elem?,
}
use quant_forge_quant_resear.Common.Int.{ℤ, ltb_ℤ}
use quant_forge_quant_resear.Result.{ok}
use quant_forge_quant_resear.Result.Leaves.{
  Leaves, Leaves-bind, Leaves-ok, Leaves-split, Leaves-elim,
}
use quant_forge_quant_resear.Double.{Double}
use quant_forge_quant_resear.Heap
use quant_forge_quant_resear.Heap.Laws.{top_first_elem}
use quant_forge_quant_resear.Heap.Keyed.{scheduled_order, buy_order, sell_order}
use quant_forge_quant_resear.Models.{
  ScheduledOrder, LimitOrder, scheduled_before, buy_before, sell_before,
}
use quant_forge_quant_resear.Params.{HostParams}
use quant_forge_quant_resear.LimitBook.{heap_of}
use quant_forge_quant_resear.Engine.{Engine, execute, execute_order_book}
use quant_forge_quant_resear.Engine.Limits.{run_buy_limits, run_sell_limits}
use quant_forge_quant_resear.Engine.Kept.{IsKept}
use quant_forge_quant_resear.Engine.Ordered.{IsValid, valid_kept}

later : (now a b : ℤ) → ltb_ℤ now a ≡ true → ltb_ℤ b a ≡ false → ltb_ℤ now b ≡ true
later now a b h k = ground arith

nothing_at {ℓ} :
    {A : Type ℓ} (xs : List A) (i : ℕ) {x : A} → Heap.top xs ≡ none → get_elem? xs i ≡ some x → ⊥
unfolding Heap.top
nothing_at [] i e h = cc
nothing_at (y ∷ xs) i e h = cc

module _ {D : Type 0} ⦃d : Double D⦄ (create_uuid : ℕ → String) (host_params : HostParams D) where
  abbrev AllLater : ℤ → Engine D → Type 0
  AllLater now e =
      (i : ℕ) (x : ScheduledOrder D)
      → get_elem? e.order_book i ≡ some x
      → ltb_ℤ now x.scheduled_fill_at_ns ≡ true

  abbrev kept : IsKept create_uuid host_params IsValid
  kept = valid_kept host_params create_uuid

  execute_order_book-AllLater :
      (rounds : ℕ) (now : ℤ) (e : Engine D)
      → IsValid e
      → Leaves (AllLater now) (execute_order_book create_uuid rounds now host_params e)
  unfolding execute_order_book scheduled_before
  execute_order_book-AllLater zero now e v = tt
  execute_order_book-AllLater (suc rounds) now e v =
      Leaves-split (AllLater now) (Heap.top e.order_book) _ _
        (λ q i x h. absurd (nothing_at e.order_book i q h))
        (λ scheduled q.
          Leaves-elim (AllLater now) (ltb_ℤ now scheduled.scheduled_fill_at_ns) _ _
            (λ p i x h.
              later now _ _ p (top_first_elem scheduled_order e.order_book i v.orders q h))
            (λ p.
              Leaves-bind IsValid (AllLater now) (execute create_uuid scheduled.order host_params _)
                _ (kept.executed scheduled.order _ (kept.order_popped e v))
                (execute_order_book-AllLater rounds now)))

  -- Where the loop over the order book returns, from books in heap order, every order that is left in the
  -- order book has its fill time after the bar's time.
  pub due_orders_done :
      (rounds : ℕ) (now : ℤ) (e ended : Engine D) (i : ℕ) (x : ScheduledOrder D)
      → IsValid e
      → execute_order_book create_uuid rounds now host_params e ≡ ok ended
      → get_elem? ended.order_book i ≡ some x
      → ltb_ℤ now x.scheduled_fill_at_ns ≡ true
  due_orders_done rounds now e ended i x v done =
      Leaves-ok (AllLater now) (execute_order_book create_uuid rounds now host_params e)
        (execute_order_book-AllLater rounds now e v) done i x

  abbrev AllBelow : String → ℤ → Engine D → Type 0
  AllBelow symbol low e =
      (i : ℕ) (x : LimitOrder D)
      → get_elem? (heap_of symbol e.limit_order_book.buy_limits) i ≡ some x
      → ltb_ℤ x.limit_price low ≡ true

  abbrev AllAbove : String → ℤ → Engine D → Type 0
  AllAbove symbol high e =
      (i : ℕ) (x : LimitOrder D)
      → get_elem? (heap_of symbol e.limit_order_book.sell_limits) i ≡ some x
      → ltb_ℤ high x.limit_price ≡ true

  below : (low a b : ℤ) → ltb_ℤ a low ≡ true → ltb_ℤ a b ≡ false → ltb_ℤ b low ≡ true
  below low a b h k = ground arith

  run_buy_limits-AllBelow :
      (rounds : ℕ) (symbol : String) (low : ℤ) (e : Engine D)
      → IsValid e
      → Leaves (AllBelow symbol low) (run_buy_limits create_uuid rounds symbol low host_params e)
  unfolding run_buy_limits buy_before
  run_buy_limits-AllBelow zero symbol low e v = tt
  run_buy_limits-AllBelow (suc rounds) symbol low e v =
      let heap = heap_of symbol e.limit_order_book.buy_limits in
      Leaves-split (AllBelow symbol low) (Heap.top heap) _ _
        (λ q i x h. absurd (nothing_at heap i q h))
        (λ limit q.
          Leaves-elim (AllBelow symbol low) (ltb_ℤ limit.limit_price low) _ _
            (λ p i x h.
              below low limit.limit_price x.limit_price p
                (top_first_elem buy_order heap i (v.buys symbol) q h))
            (λ p.
              Leaves-bind IsValid (AllBelow symbol low)
                (execute create_uuid limit.order host_params _) _
                (kept.executed limit.order _ (kept.buy_popped symbol e v))
                (run_buy_limits-AllBelow rounds symbol low)))

  run_sell_limits-AllAbove :
      (rounds : ℕ) (symbol : String) (high : ℤ) (e : Engine D)
      → IsValid e
      → Leaves (AllAbove symbol high) (run_sell_limits create_uuid rounds symbol high host_params e)
  unfolding run_sell_limits sell_before
  run_sell_limits-AllAbove zero symbol high e v = tt
  run_sell_limits-AllAbove (suc rounds) symbol high e v =
      let heap = heap_of symbol e.limit_order_book.sell_limits in
      Leaves-split (AllAbove symbol high) (Heap.top heap) _ _
        (λ q i x h. absurd (nothing_at heap i q h))
        (λ limit q.
          Leaves-elim (AllAbove symbol high) (ltb_ℤ high limit.limit_price) _ _
            (λ p i x h. later high _ _ p (top_first_elem sell_order heap i (v.sells symbol) q h))
            (λ p.
              Leaves-bind IsValid (AllAbove symbol high)
                (execute create_uuid limit.order host_params _) _
                (kept.executed limit.order _ (kept.sell_popped symbol e v))
                (run_sell_limits-AllAbove rounds symbol high)))

  -- Where the loop over the buys of a symbol returns, from books in heap order, every buy of the symbol
  -- that is left has its limit below the bar's low.
  pub crossed_buys_done :
      (rounds : ℕ) (symbol : String) (low : ℤ) (e ended : Engine D) (i : ℕ) (x : LimitOrder D)
      → IsValid e
      → run_buy_limits create_uuid rounds symbol low host_params e ≡ ok ended
      → get_elem? (heap_of symbol ended.limit_order_book.buy_limits) i ≡ some x
      → ltb_ℤ x.limit_price low ≡ true
  crossed_buys_done rounds symbol low e ended i x v done =
      Leaves-ok (AllBelow symbol low) (run_buy_limits create_uuid rounds symbol low host_params e)
        (run_buy_limits-AllBelow rounds symbol low e v) done i x

  -- Where the loop over the sells of a symbol returns, from books in heap order, every sell of the symbol
  -- that is left has its limit above the bar's high.
  crossed_sells_done :
      (rounds : ℕ) (symbol : String) (high : ℤ) (e ended : Engine D) (i : ℕ) (x : LimitOrder D)
      → IsValid e
      → run_sell_limits create_uuid rounds symbol high host_params e ≡ ok ended
      → get_elem? (heap_of symbol ended.limit_order_book.sell_limits) i ≡ some x
      → ltb_ℤ high x.limit_price ≡ true
  crossed_sells_done rounds symbol high e ended i x v done =
      Leaves-ok (AllAbove symbol high)
        (run_sell_limits create_uuid rounds symbol high host_params e)
        (run_sell_limits-AllAbove rounds symbol high e v) done i x
