-- ===== src/Heap/Laws.antt =====
-- min_heap.hpp and max_heap.hpp: push, top and pop as those of a priority queue.
use mathlib.Core.List.Perm
use mathlib.Core.Option.{some-injective}
use quant_forge_quant_resear.Common.{
  ℕ, zero, suc, ◌+◌, ◌-◌, ◌/◌, ◌<◌, ◌≡◌, refl, ◌∙◌, Bool, false, some, List, [], ◌∷◌, ◌++◌, Perm,
  arith, length, length-append, get_or, get_elem?, get_or-elem, subst,
}
use quant_forge_quant_resear.Heap.{parent, push, pop, pop_back, back, top, empty}
use quant_forge_quant_resear.Heap.Access.{
  concat-perm, moved-perm, get_or-append, get_or-pop_back, length-pop_back,
}
use quant_forge_quant_resear.Heap.Order.{IsStrictWeak, IsHeap, Reheaped, root_first}
use quant_forge_quant_resear.Heap.Rise.{bubble_up_loop-Mended}
use quant_forge_quant_resear.Heap.Sink.{IsSinking, bubble_down_loop-Mended}

tail_read {ℓ} :
    {A : Type ℓ} (d x y : A) (t : List A) (c : ℕ) → 0 < c → get_or (x ∷ t) c d ≡ get_or (y ∷ t) c d
tail_read d x y t zero h = absurd (omega arith)
tail_read d x y t (suc c) h = refl

module _ {ℓ} {A : Type ℓ} {before : A → A → Bool} (order : IsStrictWeak before) where
  -- `push` keeps the heap order and adds exactly the value.
  pub push-Reheaped :
      (xs : List A) (v : A) → IsHeap before xs → Reheaped before (v ∷ xs) (push before xs v)
  unfolding push
  push-Reheaped xs v h =
      let grown = xs ++ v ∷ [] in
      let size : length grown ≡ length xs + 1 = length-append xs (v ∷ []) in
      let last = length grown - 1 in
      let mended = λ (d : A). bubble_up_loop-Mended order d last grown last (omega arith) (record {
        inside = omega arith;
        edges = λ c p q r. ground (
          arith,
          size,
          h d c,
          get_or-append d xs (v ∷ []) c,
          get_or-append d xs (v ∷ []) ((c - 1) / 2),
        );
        bridge = λ c p q r s. absurd (omega (arith, size));
      }) in
      (λ d. (mended d).0, Perm.trans (mended v).1 (concat-perm xs v))

  -- What `pop` sinks is in order below the root.
  rest-IsSinking :
      (d x y : A) (ys : List A)
      → IsHeap before (x ∷ y ∷ ys)
      → IsSinking order d (pop_back (back y ys ∷ y ∷ ys)) 0
  unfolding pop_back
  rest-IsSinking d x y ys h =
      let size = length-pop_back y ys in
      let at = λ (c : ℕ) (p : 0 < c) (q : c < length (y ∷ ys)).
        get_or-pop_back d (back y ys) (y ∷ ys) c q ∙ tail_read d (back y ys) x (y ∷ ys) c p in
      record {
        inside = omega arith;
        edges = λ c p q r.
            rw (at c p (omega (arith, size)), at (parent c) (omega arith) (omega (arith, size)))
              (h d c p (omega (arith, size)));
        bridge = λ c p q r s. absurd (omega arith);
      }

  -- `pop` keeps the heap order and removes exactly the root.
  pub pop-Reheaped :
      (xs : List A) {x : A}
      → IsHeap before xs
      → top xs ≡ some x
      → IsHeap before (pop before xs) × Perm (x ∷ pop before xs) xs
  unfolding pop top pop_back back empty
  pop-Reheaped [] h e = cc
  pop-Reheaped (a ∷ []) {x} h e =
      (λ d c p q. absurd (omega arith), rw (some-injective _ _ e) (Perm.refl _))
  pop-Reheaped (a ∷ y ∷ ys) {x} h e =
      let rest = pop_back (back y ys ∷ y ∷ ys) in
      let mended = λ (d : A).
        bubble_down_loop-Mended order d (length rest) rest 0 (omega arith)
          (rest-IsSinking d a y ys h) in
      (
        λ d. (mended d).0,
        rw (← some-injective _ _ e) (Perm.trans (Perm.cons a (mended a).1) (moved-perm a (y ∷ ys))),
      )

  -- Nothing in a heap is before the entry on top.
  top_first :
      (xs : List A) {x : A} (i : ℕ)
      → IsHeap before xs
      → top xs ≡ some x
      → i < length xs
      → before (get_or xs i x) x ≡ false
  unfolding top
  top_first [] i h e p = cc
  top_first (a ∷ xs) {x} i h e p = rw (← some-injective _ _ e) (root_first order a (a ∷ xs) i h p)

  -- Nor is any entry that stands at an index.
  pub top_first_elem :
      (xs : List A) {x y : A} (i : ℕ)
      → IsHeap before xs
      → top xs ≡ some x
      → get_elem? xs i ≡ some y
      → before y x ≡ false
  top_first_elem xs {x} {y} i h e q =
      let (inside, same) = get_or-elem x xs i q in
      subst (λ z. before z x ≡ false) same (top_first xs i h e inside)
