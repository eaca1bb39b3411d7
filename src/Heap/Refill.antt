-- ===== src/Heap/Refill.antt =====
-- The pattern of the exit order book: empty a heap by `top` and `pop`, keep some of its entries in a
-- temporary vector, and push those back.
use mathlib.Core.List.{filter_map, append-nil, append_assoc, perm_middle}
use mathlib.Core.List.Perm
use quant_forge_quant_resear.Common.{
  ℕ, zero, suc, ◌≤◌, ◌≡◌, refl, subst, Bool, Option, none, some, List, [], ◌∷◌, ◌++◌, Perm, arith,
  length, length-perm,
}
use quant_forge_quant_resear.Heap.{push, pop, top}
use quant_forge_quant_resear.Heap.Order.{IsStrictWeak, IsHeap, Reheaped}
use quant_forge_quant_resear.Heap.Laws.{push-Reheaped, pop-Reheaped}

abbrev pub listed {ℓ} : {A : Type ℓ} → Option A → List A
listed none = []
listed (some x) = x ∷ []

module _ {ℓ} {A : Type ℓ} (before : A → A → Bool) where
  -- for (const auto& order : temp) heap.push(order);
  unfoldable pub push_all : List A → List A → List A
  push_all heap [] = heap
  push_all heap (x ∷ xs) = push_all (push before heap x) xs

  -- while (!heap.empty()) { top; pop; keep a changed copy, or drop it }
  unfoldable pub drain_loop : ℕ → (A → Option A) → List A → List A → List A
  drain_loop zero keep heap temp = temp
  drain_loop (suc rounds) keep heap temp = elim (top heap) [
    | none ↦ temp
    | some x ↦ drain_loop rounds keep (pop before heap) (temp ++ listed (keep x))
  ]

  unfoldable pub refill : (A → Option A) → List A → List A
  unfolding push_all drain_loop
  refill keep heap = push_all [] (drain_loop (length heap) keep heap [])

filter_map-listed {ℓ} :
    {A : Type ℓ} (f : A → Option A) (x : A) (xs : List A)
    → filter_map f (x ∷ xs) ≡ listed (f x) ++ filter_map f xs
unfolding filter_map
filter_map-listed f x xs = ground arith

module _ {ℓ} {A : Type ℓ} {before : A → A → Bool} (order : IsStrictWeak before) where
  pub push_all-Reheaped :
      (heap xs : List A)
      → IsHeap before heap
      → Reheaped before (xs ++ heap) (push_all before heap xs)
  unfolding push_all
  push_all-Reheaped heap [] h = (h, Perm.refl _)
  push_all-Reheaped heap (x ∷ xs) h =
      let (grown, added) = push-Reheaped order heap x h in
      let (done, perm) = push_all-Reheaped (push before heap x) xs grown in
      (done, Perm.trans perm (Perm.trans (Perm.append_left xs added) (perm_middle xs heap)))

  drain_loop-perm :
      (rounds : ℕ) (keep : A → Option A) (heap temp : List A)
      → length heap ≤ rounds
      → IsHeap before heap
      → Perm (drain_loop before rounds keep heap temp) (temp ++ filter_map keep heap)
  unfolding drain_loop filter_map top
  drain_loop-perm zero keep [] temp f h = rw (append-nil temp) (Perm.refl _)
  drain_loop-perm zero keep (x ∷ xs) temp f h = absurd (omega arith)
  drain_loop-perm (suc rounds) keep [] temp f h = rw (append-nil temp) (Perm.refl _)
  drain_loop-perm (suc rounds) keep (x ∷ xs) temp f h =
      let (kept, perm) = pop-Reheaped order (x ∷ xs) h refl in
      let rest = filter_map keep (pop before (x ∷ xs)) in
      let ih =
        drain_loop-perm rounds keep (pop before (x ∷ xs)) (temp ++ listed (keep x))
          (omega (arith, length-perm perm)) kept in
      let same : Perm (listed (keep x) ++ rest) (filter_map keep (x ∷ xs)) =
        subst (λ l. Perm l (filter_map keep (x ∷ xs)))
          (filter_map-listed keep x (pop before (x ∷ xs))) (Perm.filter_map keep perm) in
      Perm.trans ih (rw (append_assoc temp (listed (keep x)) rest) (Perm.append_left temp same))

  -- The heap is left with the entries that `keep` keeps, as it changes them, and in heap order.
  pub refill-Reheaped :
      (keep : A → Option A) (heap : List A)
      → IsHeap before heap
      → Reheaped before (filter_map keep heap) (refill before keep heap)
  unfolding refill
  refill-Reheaped keep heap h =
      let drained = drain_loop-perm (length heap) keep heap [] (omega arith) h in
      let (done, perm) =
        push_all-Reheaped [] (drain_loop before (length heap) keep heap [])
          (λ d c p q. absurd (omega arith)) in
      (
        done,
        Perm.trans perm (rw (append-nil (drain_loop before (length heap) keep heap [])) drained),
      )
