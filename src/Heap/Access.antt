-- ===== src/Heap/Access.antt =====
-- Reads, swaps and `pop_back` of the vector under the heaps.
use mathlib.Core.List.{append-nil, perm_middle}
use mathlib.Core.List.Perm
use quant_forge_quant_resear.Common.{
  ℕ, zero, suc, ◌<◌, ◌≡◌, refl, ap, ◌∙◌, Bool, List, [], ◌∷◌, ◌++◌, Perm, some, arith, ◌==◌,
  if◌then◌else◌, length, get_elem?, get_or, set,
}
use quant_forge_quant_resear.Heap.{swap, pop_back, back, less_at}

module _ {ℓ} {A : Type ℓ} (d : A) where
  pub get_elem?-get_or :
      (xs : List A) (i : ℕ) → i < length xs → get_elem? xs i ≡ some (get_or xs i d)
  get_elem?-get_or [] i h = absurd (omega arith)
  get_elem?-get_or (x ∷ xs) zero h = refl
  get_elem?-get_or (x ∷ xs) (suc i) h = get_elem?-get_or xs i (omega arith)

  get_or-set :
      (xs : List A) (i j : ℕ) (v : A)
      → i < length xs
      → get_or (set xs i v) j d ≡ (if i == j then v else get_or xs j d)
  get_or-set [] i j v h = absurd (omega arith)
  get_or-set (x ∷ xs) zero zero v h = refl
  get_or-set (x ∷ xs) zero (suc j) v h = ground arith
  get_or-set (x ∷ xs) (suc i) zero v h = ground arith
  get_or-set (x ∷ xs) (suc i) (suc j) v h = ground (arith, get_or-set xs i j v)

  pub length-set : (xs : List A) (i : ℕ) (v : A) → length (set xs i v) ≡ length xs
  length-set [] i v = refl
  length-set (x ∷ xs) zero v = refl
  length-set (x ∷ xs) (suc i) v = ap suc (length-set xs i v)

  set-perm :
      (xs : List A) (i : ℕ) (v : A) → i < length xs → Perm (get_or xs i d ∷ set xs i v) (v ∷ xs)
  set-perm [] i v h = absurd (omega arith)
  set-perm (x ∷ xs) zero v h = Perm.swap v x xs
  set-perm (x ∷ xs) (suc i) v h =
      Perm.trans (Perm.swap x _ _)
        (Perm.trans (Perm.cons x (set-perm xs i v (omega arith))) (Perm.swap v x xs))

  pub get_or-append :
      (xs ys : List A) (i : ℕ) → i < length xs → get_or (xs ++ ys) i d ≡ get_or xs i d
  get_or-append [] ys i h = absurd (omega arith)
  get_or-append (x ∷ xs) ys zero h = refl
  get_or-append (x ∷ xs) ys (suc i) h = get_or-append xs ys i (omega arith)

  module _ (xs : List A) (i j : ℕ) (hi : i < length xs) (hj : j < length xs) where
    swap_lem : swap xs i j ≡ set (set xs i (get_or xs j d)) j (get_or xs i d)
    unfolding swap
    swap_lem = rw (get_elem?-get_or xs i hi, get_elem?-get_or xs j hj, swap)

    pub length-swap : length (swap xs i j) ≡ length xs
    length-swap = rw swap_lem (length-set (set xs i (get_or xs j d)) j _ ∙ length-set xs i _)

    pub get_or-swap :
        (c : ℕ)
        → get_or (swap xs i j) c d
          ≡ (if j == c then get_or xs i d else if i == c then get_or xs j d else get_or xs c d)
    get_or-swap c = rw (
      swap_lem,
      get_or-set (set xs i (get_or xs j d)) j c (get_or xs i d)
          (omega (arith, length-set xs i (get_or xs j d))),
      get_or-set xs i c (get_or xs j d) hi,
    )

    pub swap-perm : Perm (swap xs i j) xs
    swap-perm =
        let ys = set xs i (get_or xs j d) in
        let long : j < length ys = omega (arith, length-set xs i (get_or xs j d)) in
        let kept : get_or ys j d ≡ get_or xs j d =
          ground (arith, get_or-set xs i j (get_or xs j d)) in
        let second = rw kept at (set-perm ys j (get_or xs i d) long) in
        rw swap_lem (Perm.cons_inv (Perm.trans second (set-perm xs i (get_or xs j d) hi)))

    pub less_at_lem :
        (before : A → A → Bool) → less_at before xs i j ≡ before (get_or xs i d) (get_or xs j d)
    unfolding less_at
    less_at_lem before = rw (get_elem?-get_or xs i hi, get_elem?-get_or xs j hj, less_at)

module _ {ℓ} {A : Type ℓ} where
  pub length-pop_back : (x : A) (xs : List A) → length (pop_back (x ∷ xs)) ≡ length xs
  unfolding pop_back
  length-pop_back x [] = refl
  length-pop_back x (y ∷ ys) = ap suc (length-pop_back y ys)

  pub pop_back-back : (x : A) (xs : List A) → pop_back (x ∷ xs) ++ back x xs ∷ [] ≡ x ∷ xs
  unfolding pop_back back
  pop_back-back x [] = refl
  pop_back-back x (y ∷ ys) = ap (◌∷◌ x) (pop_back-back y ys)

  pub concat-perm : (xs : List A) (x : A) → Perm (xs ++ x ∷ []) (x ∷ xs)
  concat-perm xs x = rw (append-nil xs) at (perm_middle {a = x} xs [])

  -- The last element in front of the others but the first: what `pop` sinks.
  pub moved-perm : (x : A) (xs : List A) → Perm (x ∷ pop_back (back x xs ∷ xs)) (x ∷ xs)
  unfolding pop_back back
  moved-perm x [] = Perm.refl _
  moved-perm x (y ∷ ys) = Perm.cons x (
      Perm.trans (Perm.symm (concat-perm (pop_back (y ∷ ys)) (back y ys)))
        (rw (pop_back-back y ys) (Perm.refl _)))

  pub get_or-pop_back :
      (d x : A) (xs : List A) (i : ℕ)
      → i < length xs
      → get_or (pop_back (x ∷ xs)) i d ≡ get_or (x ∷ xs) i d
  unfolding pop_back
  get_or-pop_back d x [] i h = absurd (omega arith)
  get_or-pop_back d x (y ∷ ys) zero h = refl
  get_or-pop_back d x (y ∷ ys) (suc i) h = get_or-pop_back d y ys i (omega arith)
