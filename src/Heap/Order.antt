-- ===== src/Heap/Order.antt =====
-- The heap order of a vector, for a comparison that is a strict weak order.
use quant_forge_quant_resear.Common.{
  ℕ, zero, suc, ◌<◌, ◌≡◌, Bool, true, false, List, Perm, arith, length, get_or,
}
use quant_forge_quant_resear.Heap.{parent}

-- What `operator<` of the stored types gives: `x` may stand above `y` where `y` is not before `x`.
pub record IsStrictWeak {ℓ} {A : Type ℓ} (before : A → A → Bool) : Type ℓ where
  pub asym : (x y : A) → before x y ≡ true → before y x ≡ false
  pub trans : (x y z : A) → before y x ≡ false → before z y ≡ false → before z x ≡ false

module _ {ℓ} {A : Type ℓ} (before : A → A → Bool) where
  -- No entry is before its parent (`d` stands for what a read past the end would give).
  abbrev pub IsHeap : List A → Type ℓ
  IsHeap xs =
      (d : A) (c : ℕ)
      → 0 < c
      → c < length xs
      → before (get_or xs c d) (get_or xs (parent c) d) ≡ false

  -- `ys` is a heap of the elements of `xs`.
  abbrev pub Reheaped : List A → List A → Type ℓ
  Reheaped xs ys = IsHeap ys × Perm ys xs

module _ {ℓ} {A : Type ℓ} {before : A → A → Bool} (order : IsStrictWeak before) where
  root_first_below :
      (k : ℕ) (d : A) (xs : List A) (i : ℕ)
      → IsHeap before xs
      → i < k
      → i < length xs
      → before (get_or xs i d) (get_or xs 0 d) ≡ false
  root_first_below zero d xs i h f p = absurd (omega arith)
  root_first_below (suc k) d xs zero h f p =
      grind (arith, order.asym (get_or xs 0 d) (get_or xs 0 d))
  root_first_below (suc k) d xs (suc i) h f p =
      order.trans _ (get_or xs (parent (suc i)) d) _
        (root_first_below k d xs (parent (suc i)) h (omega arith) (omega arith))
        (h d (suc i) (omega arith) p)

  -- Nothing in a heap is before the root.
  pub root_first :
      (d : A) (xs : List A) (i : ℕ)
      → IsHeap before xs
      → i < length xs
      → before (get_or xs i d) (get_or xs 0 d) ≡ false
  root_first d xs i h p = root_first_below (suc i) d xs i h (omega arith) p
