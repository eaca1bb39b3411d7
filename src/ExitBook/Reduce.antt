-- ===== src/ExitBook/Reduce.antt =====
-- exit_order_book.cpp, reduce_exit_orders_by_fills: the orders that closed fills leave.
use mathlib.Core.List.{filter_map}
use mathlib.Core.List.Perm
use quant_forge_quant_resear.Common.{
  String, Bool, true, false, List, [], ◌∷◌, Perm, Option, none, some, ◌≡◌, refl, sym, subst, ◌∙◌,
  str_eq, if◌then◌else◌, Option-cases, inl, inr,
}
use quant_forge_quant_resear.Double.{Double}
use quant_forge_quant_resear.Heap.Order.{IsHeap}
use quant_forge_quant_resear.Heap.Laws.{push-Reheaped}
use quant_forge_quant_resear.Heap.Refill.{refill-Reheaped}
use quant_forge_quant_resear.Heap.Keyed.{stop_loss_order, take_profit_order}
use quant_forge_quant_resear.Models.{
  StopLossExitOrder, TakeProfitExitOrder, ExitOrder, stop_loss, take_profit, stop_loss_before,
  take_profit_before,
}
use quant_forge_quant_resear.ExitBook.{
  ExitOrderBook, add_exit_order, reduce_stop_loss, reduce_take_profit,
  reduce_exit_orders_by_fill_uuid, reduce_exit_orders_by_fills,
}

module _ {D : Type 0} where
  pub record IsOrdered (book : ExitOrderBook D) : Type 0 where
    pub stops : IsHeap stop_loss_before book.stop_loss_heap
    pub profits : IsHeap take_profit_before book.take_profit_heap

  pub add_exit_order-IsOrdered :
      (e : ExitOrder D) (book : ExitOrderBook D)
      → IsOrdered book
      → IsOrdered (add_exit_order e book)
  unfolding add_exit_order
  add_exit_order-IsOrdered (stop_loss e) book v = record {
    stops = (push-Reheaped stop_loss_order book.stop_loss_heap e v.stops).0;
    profits = v.profits;
  }
  add_exit_order-IsOrdered (take_profit e) book v = record {
    stops = v.stops;
    profits = (push-Reheaped take_profit_order book.take_profit_heap e v.profits).0;
  }

module _ {A : Type 0} where
  next : (A → Option A) → Option A → Option A
  next g none = none
  next g (some x) = g x

  next-tests :
      (g : A → Option A) (same below : Bool) (x e : A)
      → next g (if same then (if below then some x else none) else some e)
        ≡ (if same then (if below then g x else none) else g e)
  next-tests g true true x e = unfold next in refl
  next-tests g true false x e = unfold next in refl
  next-tests g false below x e = unfold next in refl

  filter_map-some :
      (f : A → Option A) → ((x : A) → f x ≡ some x) → (l : List A) → filter_map f l ≡ l
  unfolding filter_map
  filter_map-some f h [] = refl
  filter_map-some f h (x ∷ l) = rw (h x, filter_map-some f h l) refl

  -- Two passes over a list are one.
  filter_map-filter_map :
      (f g both : A → Option A)
      → ((x : A) → both x ≡ next g (f x))
      → (l : List A) → filter_map both l ≡ filter_map g (filter_map f l)
  unfolding filter_map next
  filter_map-filter_map f g both h [] = refl
  filter_map-filter_map f g both h (x ∷ l) = elim (Option-cases (f x)) [
    | inl e ↦ rw (h x, e, filter_map-filter_map f g both h l) refl
    | inr (y, e) ↦ rw (h x, e, filter_map-filter_map f g both h l) refl
  ]

-- a record with the quantity that is left, or none
pub with_left : {D A : Type 0} → (D → A) → Option D → Option A
with_left w none = none
with_left w (some quantity) = some (w quantity)

with_left-tests :
    {D A : Type 0} (w : D → A) (same below : Bool) (taken whole : Option D)
    → with_left w (if same then (if below then taken else none) else whole)
      ≡ (if same then (if below then with_left w taken else none) else with_left w whole)
with_left-tests w true true taken whole = refl
with_left-tests w true false taken whole = unfold with_left in refl
with_left-tests w false below taken whole = refl

module _ {D : Type 0} ⦃d : Double D⦄ where
  open d use {lt, sub}

  -- What is left of a quantity of a fill when the fills closed are taken off it, one after another: nothing
  -- once as much is taken as there is.
  pub left_of : List (String × D) → String → D → Option D
  left_of [] fill_uuid quantity = some quantity
  left_of ((closed_uuid, sold) ∷ closed) fill_uuid quantity =
      if str_eq fill_uuid closed_uuid
      then (if lt sold quantity then left_of closed fill_uuid (sub quantity sold) else none)
      else left_of closed fill_uuid quantity

  -- An order with what is left of its quantity.
  pub stop_left : List (String × D) → StopLossExitOrder D → Option (StopLossExitOrder D)
  stop_left closed e =
      with_left (λ quantity. record e { trigger_quantity = quantity })
        (left_of closed e.fill_uuid e.trigger_quantity)

  pub profit_left : List (String × D) → TakeProfitExitOrder D → Option (TakeProfitExitOrder D)
  profit_left closed e =
      with_left (λ quantity. record e { trigger_quantity = quantity })
        (left_of closed e.fill_uuid e.trigger_quantity)

  stop_left-step :
      (fill_uuid : String) (sold : D) (closed : List (String × D)) (e : StopLossExitOrder D)
      → stop_left ((fill_uuid, sold) ∷ closed) e
        ≡ next (stop_left closed) (reduce_stop_loss fill_uuid sold e)
  unfolding stop_left left_of reduce_stop_loss with_left next
  stop_left-step fill_uuid sold closed e =
      let same = str_eq e.fill_uuid fill_uuid in
      let below = lt sold e.trigger_quantity in
      with_left-tests (λ quantity. record e { trigger_quantity = quantity }) same below _ _
      ∙ sym (next-tests (stop_left closed) same below _ e)

  profit_left-step :
      (fill_uuid : String) (sold : D) (closed : List (String × D)) (e : TakeProfitExitOrder D)
      → profit_left ((fill_uuid, sold) ∷ closed) e
        ≡ next (profit_left closed) (reduce_take_profit fill_uuid sold e)
  unfolding profit_left left_of reduce_take_profit with_left next
  profit_left-step fill_uuid sold closed e =
      let same = str_eq e.fill_uuid fill_uuid in
      let below = lt sold e.trigger_quantity in
      with_left-tests (λ quantity. record e { trigger_quantity = quantity }) same below _ _
      ∙ sym (next-tests (profit_left closed) same below _ e)

  -- Reducing by closed fills keeps both heaps in order, and they hold the orders with what is left of their
  -- quantities: each sale of an order's fill is taken off it in turn, and an order goes when a sale is not below
  -- what it has then.
  pub reduce_lem :
      (closed : List (String × D)) (book : ExitOrderBook D)
      → IsOrdered book
      → let after = reduce_exit_orders_by_fills closed book in
        IsOrdered after
        × Perm after.stop_loss_heap (filter_map (stop_left closed) book.stop_loss_heap)
        × Perm after.take_profit_heap (filter_map (profit_left closed) book.take_profit_heap)
  unfolding reduce_exit_orders_by_fills
  reduce_lem [] book v = (
    v,
    subst (Perm book.stop_loss_heap)
        (sym (filter_map-some (stop_left []) (λ e. unfold stop_left left_of with_left in refl) _))
        (Perm.refl _),
    subst (Perm book.take_profit_heap)
        (sym
          (filter_map-some (profit_left []) (λ e. unfold profit_left left_of with_left in refl) _))
        (Perm.refl _),
  )
  reduce_lem ((fill_uuid, quantity) ∷ closed) book v =
      let next_book = reduce_exit_orders_by_fill_uuid fill_uuid quantity book in
      let s =
        refill-Reheaped stop_loss_order (reduce_stop_loss fill_uuid quantity) book.stop_loss_heap
          v.stops in
      let p =
        refill-Reheaped take_profit_order (reduce_take_profit fill_uuid quantity)
          book.take_profit_heap v.profits in
      let (ordered, stops, profits) =
        reduce_lem closed next_book (record { stops = s.0; profits = p.0 }) in
      (
        ordered,
        subst (Perm _)
            (sym (
              filter_map-filter_map (reduce_stop_loss fill_uuid quantity) (stop_left closed) _
                (stop_left-step fill_uuid quantity closed) book.stop_loss_heap))
            (Perm.trans stops (Perm.filter_map (stop_left closed) s.1)),
        subst (Perm _)
            (sym (
              filter_map-filter_map (reduce_take_profit fill_uuid quantity) (profit_left closed) _
                (profit_left-step fill_uuid quantity closed) book.take_profit_heap))
            (Perm.trans profits (Perm.filter_map (profit_left closed) p.1)),
      )
