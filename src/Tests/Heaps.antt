-- ===== src/Tests/Heaps.antt =====
-- The heaps and the exit orders of Data.
use mathlib.Core.List.{filter_map}
use quant_forge_quant_resear.Common.{zero, suc, ◌≡◌, refl, Bool, false, List, [], ◌∷◌, Perm, arith}
use quant_forge_quant_resear.Common.Int.{ℤ}
use quant_forge_quant_resear.Heap
use quant_forge_quant_resear.Heap.Order.{IsHeap, Reheaped}
use quant_forge_quant_resear.Heap.Laws.{push-Reheaped, pop-Reheaped}
use quant_forge_quant_resear.Heap.Refill.{refill, refill-Reheaped}
use quant_forge_quant_resear.Heap.Keyed.{stop_loss_order}
use quant_forge_quant_resear.Models.{StopLossExitOrder, stop_loss_before, take_profit_before}
use quant_forge_quant_resear.ExitBook.{reduce_stop_loss, reduce_exit_orders_by_fills}
use quant_forge_quant_resear.ExitBook.Reduce.{IsOrdered, stop_left, profit_left, reduce_lem}
use quant_forge_quant_resear.Tests.Fixed.{fixed}
use quant_forge_quant_resear.Tests.Unfolded.{tested}
use quant_forge_quant_resear.Tests.Data.{units, stop_at, profit_at, exit_book}

pub none_IsHeap {ℓ} : {A : Type ℓ} (before : A → A → Bool) → IsHeap before []
none_IsHeap before d c p q = absurd (omega arith)

pub one_IsHeap {ℓ} : {A : Type ℓ} (before : A → A → Bool) (x : A) → IsHeap before (x ∷ [])
one_IsHeap before x d c p q = absurd (omega arith)

pub two_IsHeap {ℓ} :
    {A : Type ℓ} (before : A → A → Bool) (x y : A) → before y x ≡ false → IsHeap before (x ∷ y ∷ [])
two_IsHeap before x y h d zero p q = absurd (omega arith)
two_IsHeap before x y h d (suc zero) p q = h
two_IsHeap before x y h d (suc (suc c)) p q = absurd (omega arith)

abbrev two_stops : List (StopLossExitOrder ℤ)
two_stops = exit_book.stop_loss_heap

two_stops-IsHeap : IsHeap stop_loss_before two_stops
unfolding stop_loss_before
two_stops-IsHeap =
    two_IsHeap stop_loss_before (stop_at (units 12) (units 4)) (stop_at (units 19) (units 6)) refl

pub exit_book-IsOrdered : IsOrdered exit_book
exit_book-IsOrdered = record {
  stops = two_stops-IsHeap;
  profits = one_IsHeap take_profit_before (profit_at (units 30) (units 4));
}

push_example :
    Reheaped stop_loss_before
      (stop_at (units 11) (units 1) ∷ two_stops)
      (Heap.push stop_loss_before two_stops (stop_at (units 11) (units 1)))
push_example =
    push-Reheaped stop_loss_order two_stops (stop_at (units 11) (units 1)) two_stops-IsHeap

pop_example :
    IsHeap stop_loss_before (Heap.pop stop_loss_before two_stops)
    × Perm (stop_at (units 12) (units 4) ∷ Heap.pop stop_loss_before two_stops) two_stops
unfolding Heap.top
pop_example = pop-Reheaped stop_loss_order two_stops two_stops-IsHeap refl

refill_example :
    Reheaped stop_loss_before
      (filter_map (reduce_stop_loss "u" (units 5)) two_stops)
      (refill stop_loss_before (reduce_stop_loss "u" (units 5)) two_stops)
refill_example =
    refill-Reheaped stop_loss_order (reduce_stop_loss "u" (units 5)) two_stops two_stops-IsHeap

reduce_example :
    let after = reduce_exit_orders_by_fills (("u", units 5) ∷ []) exit_book in
    IsOrdered after
    × Perm after.stop_loss_heap
        (filter_map (stop_left (("u", units 5) ∷ [])) exit_book.stop_loss_heap)
    × Perm after.take_profit_heap
        (filter_map (profit_left (("u", units 5) ∷ [])) exit_book.take_profit_heap)
reduce_example = reduce_lem (("u", units 5) ∷ []) exit_book exit_book-IsOrdered

-- The stop of four shares goes, and the stop of six has one left.
reduced_stops :
    (reduce_exit_orders_by_fills (("u", units 5) ∷ []) exit_book).stop_loss_heap
    ≡ stop_at (units 19) (units 1) ∷ []
unfolding tested
reduced_stops = refl
