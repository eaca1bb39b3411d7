-- ===== src/Heap.antt =====
-- src/utils/min_heap.hpp and src/utils/max_heap.hpp: a binary heap in a vector. The two templates are one
-- text up to the comparison, `<` in MinHeap and `>` in MaxHeap, which is the parameter `before`.
-- A read or a swap past the end, which C++ leaves undefined, compares as false and changes nothing.
-- Each round of `bubble_up` halves the index, and each round of `bubble_down` doubles it, so `idx` rounds and
-- `size` rounds are enough.
pub mod Access
pub mod Order
pub mod Rise
pub mod Sink
pub mod Laws
pub mod Refill
pub mod Size
pub mod Keyed
use quant_forge_quant_resear.Common.{
  ℕ, zero, suc, ◌+◌, ◌-◌, ◌*◌, ◌/◌, Bool, true, false, ◌&&◌, Option, none, some, List, [], ◌∷◌,
  ◌++◌, ltb, ◌==◌, if◌then◌else◌, length, get_elem?, set,
}

abbrev pub parent : ℕ → ℕ
parent idx = (idx - 1) / 2

module _ {ℓ} {A : Type ℓ} where
  -- std::swap(data[i], data[j])
  unfoldable pub swap : List A → ℕ → ℕ → List A
  swap data_ i j = elim (get_elem? data_ i) [
    | none ↦ data_
    | some x ↦ elim (get_elem? data_ j) [ none ↦ data_ | some y ↦ set (set data_ i y) j x ]
  ]

  -- `data_.pop_back()`, and the last element
  unfoldable pub pop_back : List A → List A
  pop_back [] = []
  pop_back (x ∷ []) = []
  pop_back (x ∷ y ∷ xs) = x ∷ pop_back (y ∷ xs)

  unfoldable pub back : A → List A → A
  back x [] = x
  back x (y ∷ ys) = back y ys

  unfoldable pub top : List A → Option A
  top [] = none
  top (x ∷ xs) = some x

  unfoldable pub empty : List A → Bool
  empty [] = true
  empty (x ∷ xs) = false

module _ {ℓ} {A : Type ℓ} (before : A → A → Bool) where
  -- data_[i] < data_[j]
  unfoldable pub less_at : List A → ℕ → ℕ → Bool
  less_at data_ i j = elim (get_elem? data_ i) [
    | none ↦ false
    | some x ↦ elim (get_elem? data_ j) [ none ↦ false | some y ↦ before x y ]
  ]

  unfoldable pub bubble_up_loop : ℕ → List A → ℕ → List A
  bubble_up_loop zero data_ idx = data_
  bubble_up_loop (suc rounds) data_ idx =
      let risen = bubble_up_loop rounds (swap data_ idx (parent idx)) (parent idx) in
      if ltb 0 idx && less_at data_ idx (parent idx) then risen else data_

  unfoldable pub bubble_up : List A → ℕ → List A
  unfolding bubble_up_loop
  bubble_up data_ idx = bubble_up_loop idx data_ idx

  -- if (child < size && data_[child] < data_[idx]) then the child's index
  unfoldable pub prefer : List A → ℕ → ℕ → ℕ
  prefer data_ child idx =
      if ltb child (length data_) && less_at data_ child idx then child else idx

  -- The index that a round of `bubble_down` settles on.
  unfoldable pub smallest : List A → ℕ → ℕ
  smallest data_ idx = prefer data_ (2 * idx + 2) (prefer data_ (2 * idx + 1) idx)

  unfoldable pub bubble_down_loop : ℕ → List A → ℕ → List A
  bubble_down_loop zero data_ idx = data_
  bubble_down_loop (suc rounds) data_ idx =
      let next = smallest data_ idx in
      let sunk = bubble_down_loop rounds (swap data_ idx next) next in
      if next == idx then data_ else sunk

  unfoldable pub bubble_down : List A → ℕ → List A
  unfolding bubble_down_loop
  bubble_down data_ idx = bubble_down_loop (length data_) data_ idx

  unfoldable pub push : List A → A → List A
  unfolding bubble_up
  push data_ value = let grown = data_ ++ value ∷ [] in bubble_up grown (length grown - 1)

  -- `data_[0] = std::move(data_.back())`, `pop_back`, and `bubble_down(0)` if something is left
  unfoldable pub pop : List A → List A
  unfolding bubble_down
  pop [] = []
  pop (x ∷ xs) =
      let rest = pop_back (back x xs ∷ xs) in if empty rest then rest else bubble_down rest 0
