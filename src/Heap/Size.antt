-- ===== src/Heap/Size.antt =====
-- min_heap.hpp and max_heap.hpp: the number of entries.
use quant_forge_quant_resear.Common.{
  ℕ, zero, suc, ◌+◌, ◌≡◌, refl, ◌∙◌, inl, inr, Bool, Option, none, some, List, [], ◌∷◌, ◌++◌, arith,
  length, length-append, get_elem?, set, if_both, ◌==◌, ltb, ◌&&◌, ◌≤◌, Option-cases,
}
use quant_forge_quant_resear.Heap.{
  parent, swap, pop_back, back, top, empty, less_at, bubble_up_loop, smallest, bubble_down_loop,
  push, pop,
}
use quant_forge_quant_resear.Heap.Access.{length-set, length-pop_back}
use quant_forge_quant_resear.Heap.Refill.{push_all, drain_loop, refill, listed}

module _ {ℓ} {A : Type ℓ} where
  length-swap : (xs : List A) (i j : ℕ) → length (swap xs i j) ≡ length xs
  unfolding swap
  length-swap xs i j = elim (Option-cases (get_elem? xs i)) [
    | inl e ↦ rw (e, swap) refl
    | inr (x, e) ↦ elim (Option-cases (get_elem? xs j)) [
      | inl q ↦ rw (e, q, swap) refl
      | inr (y, q) ↦ rw (e, q, swap) (length-set y (set xs i y) j x ∙ length-set y xs i y)
    ]
  ]

module _ {ℓ} {A : Type ℓ} (before : A → A → Bool) where
  length-bubble_up_loop :
      (rounds : ℕ) (xs : List A) (idx : ℕ)
      → length (bubble_up_loop before rounds xs idx) ≡ length xs
  unfolding bubble_up_loop
  length-bubble_up_loop zero xs idx = refl
  length-bubble_up_loop (suc rounds) xs idx =
      if_both (λ (ys : List A). length ys ≡ length xs)
        (ltb 0 idx && less_at before xs idx (parent idx))
        (length-bubble_up_loop rounds (swap xs idx (parent idx)) (parent idx)
          ∙ length-swap xs idx (parent idx))
        refl

  length-bubble_down_loop :
      (rounds : ℕ) (xs : List A) (idx : ℕ)
      → length (bubble_down_loop before rounds xs idx) ≡ length xs
  unfolding bubble_down_loop
  length-bubble_down_loop zero xs idx = refl
  length-bubble_down_loop (suc rounds) xs idx =
      let next = smallest before xs idx in
      if_both (λ (ys : List A). length ys ≡ length xs) (next == idx) refl
        (length-bubble_down_loop rounds (swap xs idx next) next ∙ length-swap xs idx next)

  pub length-push : (xs : List A) (v : A) → length (push before xs v) ≡ suc (length xs)
  unfolding push
  length-push xs v =
      omega (arith, length-bubble_up_loop _ (xs ++ v ∷ []) _, length-append xs (v ∷ []))

  pub length-pop :
      (xs : List A) {x : A} → top xs ≡ some x → suc (length (pop before xs)) ≡ length xs
  unfolding pop top
  length-pop [] h = cc
  length-pop (x ∷ xs) h =
      let rest = pop_back (back x xs ∷ xs) in
      omega (
        arith,
        length-pop_back (back x xs) xs,
        if_both (λ (ys : List A). length ys ≡ length rest) (empty rest) refl
            (length-bubble_down_loop (length rest) rest 0),
      )

  pub length-push_all :
      (heap xs : List A) → length (push_all before heap xs) ≡ length heap + length xs
  unfolding push_all
  length-push_all heap [] = omega arith
  length-push_all heap (x ∷ xs) =
      omega (arith, length-push_all (push before heap x) xs, length-push heap x)

  length-listed : (o : Option A) → length (listed o) ≤ 1
  length-listed none = omega arith
  length-listed (some x) = omega arith

  length-drain_loop :
      (rounds : ℕ) (keep : A → Option A) (heap temp : List A)
      → length (drain_loop before rounds keep heap temp) ≤ length temp + rounds
  unfolding drain_loop
  length-drain_loop zero keep heap temp = omega arith
  length-drain_loop (suc rounds) keep heap temp = elim (Option-cases (top heap)) [
    | inl e ↦ rw (e, drain_loop) (omega arith)
    | inr (x, e) ↦
        rw (e, drain_loop)
          (omega (
            arith,
            length-drain_loop rounds keep (pop before heap) (temp ++ listed (keep x)),
            length-append temp (listed (keep x)),
            length-listed (keep x),
          ))
  ]

  pub length-refill :
      (keep : A → Option A) (heap : List A) → length (refill before keep heap) ≤ length heap
  unfolding refill
  length-refill keep heap = omega (
    arith,
    length-push_all [] (drain_loop before (length heap) keep heap []),
    length-drain_loop (length heap) keep heap [],
  )
