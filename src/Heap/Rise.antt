-- ===== src/Heap/Rise.antt =====
-- min_heap.hpp and max_heap.hpp, bubble_up: a vector with one entry that may be too low in the tree.
use mathlib.Core.List.Perm
use quant_forge_quant_resear.Common.{
  ℕ, zero, suc, ◌≤◌, ◌<◌, ◌≡◌, ◌≢◌, inl, inr, Bool, true, false, ◌&&◌, List, Perm, arith, ltb,
  Bool-cases, length, get_or,
}
use quant_forge_quant_resear.Heap.{parent, swap, bubble_up_loop}
use quant_forge_quant_resear.Heap.Access.{length-swap, get_or-swap, swap-perm, less_at_lem}
use quant_forge_quant_resear.Heap.Order.{IsStrictWeak}

module _ {ℓ} {A : Type ℓ} {before : A → A → Bool} (order : IsStrictWeak before) (d : A) where
  -- Only the edge above `i` may be out of order, and the children of `i` may hang from its parent.
  pub record IsRising (xs : List A) (i : ℕ) : Type ℓ where
    pub inside : i < length xs
    pub edges :
        (c : ℕ)
        → 0 < c
        → c < length xs
        → c ≢ i
        → before (get_or xs c d) (get_or xs (parent c) d) ≡ false
    pub bridge :
        (c : ℕ)
        → 0 < c
        → c < length xs
        → parent c ≡ i
        → 0 < i
        → before (get_or xs c d) (get_or xs (parent i) d) ≡ false

  swap-IsRising :
      (xs : List A) (i : ℕ)
      → IsRising xs i
      → 0 < i
      → before (get_or xs i d) (get_or xs (parent i) d) ≡ true
      → IsRising (swap xs i (parent i)) (parent i)
  swap-IsRising xs i v pos low =
      let above : parent i < length xs = omega (arith, v.inside) in
      let size = length-swap d xs i (parent i) v.inside above in
      let at = get_or-swap d xs i (parent i) v.inside above in
      let x = get_or xs i d in
      let p = get_or xs (parent i) d in
      record {
        inside = omega arith;
        edges = λ c q r s. ground (
          arith,
          at c,
          at (parent c),
          v.edges c,
          v.bridge c,
          order.asym x p,
          order.trans x p (get_or xs c d),
        );
        bridge = λ c q r s t. ground (
          arith,
          at c,
          at (parent (parent i)),
          v.edges c,
          v.edges (parent i),
          order.trans (get_or xs (parent (parent i)) d) p (get_or xs c d),
        );
      }

  -- At a fixed read past the end: the heap order and the same elements.
  abbrev pub Mended : List A → List A → Type ℓ
  Mended xs ys =
      ((c : ℕ) → 0 < c → c < length ys → before (get_or ys c d) (get_or ys (parent c) d) ≡ false)
      × Perm ys xs

  pub bubble_up_loop-Mended :
      (rounds : ℕ) (xs : List A) (i : ℕ)
      → i ≤ rounds
      → IsRising xs i
      → Mended xs (bubble_up_loop before rounds xs i)
  unfolding bubble_up_loop
  bubble_up_loop-Mended zero xs i f v = (λ c q r. v.edges c q r (omega arith), Perm.refl _)
  bubble_up_loop-Mended (suc rounds) xs i f v =
      let above : parent i < length xs = omega (arith, v.inside) in
      rw (less_at_lem d xs i (parent i) v.inside above before)
        (elim (Bool-cases (ltb 0 i && before (get_or xs i d) (get_or xs (parent i) d))) [
          | inl e ↦
              let low : (before (get_or xs i d) (get_or xs (parent i) d) ≡ true) × (0 < i) =
                (ground arith, ground arith) in
              let (heap, perm) =
                bubble_up_loop-Mended rounds (swap xs i (parent i)) (parent i) (omega arith)
                  (swap-IsRising xs i v low.1 low.0) in
              rw e (heap, Perm.trans perm (swap-perm d xs i (parent i) v.inside above))
          | inr e ↦ rw e (λ c q r. ground (arith, v.edges c), Perm.refl _)
        ])
