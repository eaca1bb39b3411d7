-- ===== src/Heap/Sink.antt =====
-- min_heap.hpp and max_heap.hpp, bubble_down: a vector with one entry that may be too high in the tree.
use mathlib.Core.List.Perm
use quant_forge_quant_resear.Common.{
  ℕ, zero, suc, ◌+◌, ◌*◌, ◌≤◌, ◌<◌, ◌≡◌, ◌≢◌, ◌⊎◌, inl, inr, Bool, true, false, List, arith, ltb,
  ◌==◌, Bool-cases, length, get_or,
}
use quant_forge_quant_resear.Heap.{parent, swap, prefer, smallest, bubble_down_loop}
use quant_forge_quant_resear.Heap.Access.{length-swap, get_or-swap, swap-perm, less_at_lem}
use quant_forge_quant_resear.Heap.Order.{IsStrictWeak}
use quant_forge_quant_resear.Heap.Rise.{Mended}

module _ {ℓ} {A : Type ℓ} {before : A → A → Bool} (order : IsStrictWeak before) (d : A) where
  -- Only the edges below `i` may be out of order, and the children of `i` may hang from its parent.
  pub record IsSinking (xs : List A) (i : ℕ) : Type ℓ where
    pub inside : i < length xs
    pub edges :
        (c : ℕ)
        → 0 < c
        → c < length xs
        → parent c ≢ i
        → before (get_or xs c d) (get_or xs (parent c) d) ≡ false
    pub bridge :
        (c : ℕ)
        → 0 < c
        → c < length xs
        → parent c ≡ i
        → 0 < i
        → before (get_or xs c d) (get_or xs (parent i) d) ≡ false

  -- What a round settles on: `i` itself where it is in order, or the child that comes first.
  record IsSmallest (xs : List A) (i m : ℕ) : Type ℓ where
    inside : m < length xs
    place : (m ≡ i) ⊎ ((0 < m) × (parent m ≡ i) × (before (get_or xs m d) (get_or xs i d) ≡ true))
    least :
        (c : ℕ)
        → 0 < c
        → c < length xs
        → parent c ≡ i
        → before (get_or xs c d) (get_or xs m d) ≡ false

  prefer_first :
      (xs : List A) (c m : ℕ)
      → m < length xs
      → let k = prefer before xs c m in
        (k < length xs)
        × ((k ≡ m) ⊎ ((k ≡ c) × (before (get_or xs c d) (get_or xs m d) ≡ true)))
        × (c < length xs → before (get_or xs c d) (get_or xs k d) ≡ false)
        × (before (get_or xs m d) (get_or xs k d) ≡ false)
  unfolding prefer
  prefer_first xs c m h =
      let at = λ (hc : c < length xs). less_at_lem d xs c m hc h before in
      let x = get_or xs c d in
      let y = get_or xs m d in
      elim (Bool-cases (ltb c (length xs))) [
        | inr e ↦ rw e (ground (arith, order.asym y y))
        | inl e ↦
            rw (e, at (ground arith))
              (ground (arith, order.asym x x, order.asym y y, order.asym x y))
      ]

  smallest-IsSmallest :
      (xs : List A) (i : ℕ) → i < length xs → IsSmallest xs i (smallest before xs i)
  unfolding smallest
  smallest-IsSmallest xs i h =
      let m = prefer before xs (2 * i + 1) i in
      let k = prefer before xs (2 * i + 2) m in
      let left = prefer_first xs (2 * i + 1) i h in
      let right = prefer_first xs (2 * i + 2) m left.0 in
      record {
        inside = right.0;
        place = ground (
          arith,
          left,
          right,
          order.asym (get_or xs m d) (get_or xs k d),
          order.trans (get_or xs k d) (get_or xs m d) (get_or xs i d),
          order.trans (get_or xs i d) (get_or xs k d) (get_or xs m d),
          order.trans (get_or xs m d) (get_or xs i d) (get_or xs k d),
        );
        least = λ c q s t. ground (
          arith,
          left,
          right,
          order.trans (get_or xs k d) (get_or xs m d) (get_or xs (2 * i + 1) d),
        );
      }

  swap-IsSinking :
      (xs : List A) (i m : ℕ)
      → IsSinking xs i
      → IsSmallest xs i m
      → m ≢ i
      → IsSinking (swap xs i m) m
  swap-IsSinking xs i m v s moved =
      let size = length-swap d xs i m v.inside s.inside in
      let at = get_or-swap d xs i m v.inside s.inside in
      record {
        inside = omega (arith, size, s.inside);
        edges = λ c p q r. ground (
          arith,
          size,
          at c,
          at (parent c),
          s.place,
          s.least c,
          v.edges c,
          v.bridge m,
          order.asym (get_or xs m d) (get_or xs i d),
        );
        bridge = λ c p q r t. ground (arith, size, at c, at (parent m), s.place, v.edges c);
      }

  pub bubble_down_loop-Mended :
      (rounds : ℕ) (xs : List A) (i : ℕ)
      → length xs ≤ rounds + i
      → IsSinking xs i
      → Mended order d xs (bubble_down_loop before rounds xs i)
  unfolding bubble_down_loop
  bubble_down_loop-Mended zero xs i f v = absurd (omega (arith, v.inside))
  bubble_down_loop-Mended (suc rounds) xs i f v =
      let m = smallest before xs i in
      let s = smallest-IsSmallest xs i v.inside in
      elim (Bool-cases (m == i)) [
        | inl e ↦
            let settled : m ≡ i = ground arith in
            rw e (λ c p q. ground (arith, v.edges c, s.least c, settled), Perm.refl _)
        | inr e ↦
            let moved : m ≢ i = ground arith in
            let deeper : i < m = ground (arith, s.place) in
            let (heap, perm) =
              bubble_down_loop-Mended rounds (swap xs i m) m
                (omega (arith, length-swap d xs i m v.inside s.inside))
                (swap-IsSinking xs i m v s moved) in
            rw e (heap, Perm.trans perm (swap-perm d xs i m v.inside s.inside))
      ]
