-- ===== src/Common/Lists.antt =====
-- Vectors as lists measured and indexed by native numbers, under the library's names.
use Prim.Native.Nat.{ℕ, zero, suc, ◌+◌, ◌<◌}
use native.Mathlib.Nat.{ℕ_set}
use mathlib.Core.Path.{◌≡◌, refl, sym, ◌∙◌}
use mathlib.Core.Logic.{∥∥₁_elim}
use mathlib.Core.List.{List, [], ◌∷◌, ◌++◌, Perm, Permᴰ}
use mathlib.Core.Option.{Option, none, some, some-injective}
use native.Mathlib.Omega.{arith}

module _ {ℓ} {A : Type ℓ} where
  abbrev pub length : List A → ℕ
  length [] = 0
  length (x ∷ xs) = suc (length xs)

  abbrev pub get_elem? : List A → ℕ → Option A
  get_elem? [] i = none
  get_elem? (x ∷ xs) zero = some x
  get_elem? (x ∷ xs) (suc i) = get_elem? xs i

  abbrev pub get_or : List A → ℕ → A → A
  get_or [] i d = d
  get_or (x ∷ xs) zero d = x
  get_or (x ∷ xs) (suc i) d = get_or xs i d

  -- A write out of bounds changes nothing.
  abbrev pub set : List A → ℕ → A → List A
  set [] i v = []
  set (x ∷ xs) zero v = v ∷ xs
  set (x ∷ xs) (suc i) v = x ∷ set xs i v

  pub length-append : (xs ys : List A) → length (xs ++ ys) ≡ length xs + length ys
  length-append [] ys = omega arith
  length-append (x ∷ xs) ys = omega (arith, length-append xs ys)

  rearranged-length : {xs ys : List A} → Permᴰ xs ys → length ys ≡ length xs
  rearranged-length (Permᴰ.trans first second) = rearranged-length second ∙ rearranged-length first
  rearranged-length (Permᴰ.swap x y) = refl
  rearranged-length (Permᴰ.cons x rest) = omega (arith, rearranged-length rest)
  rearranged-length Permᴰ.nil = refl

  pub length-perm : {xs ys : List A} → Perm xs ys → length xs ≡ length ys
  length-perm {xs} {ys} truncated =
      sym (∥∥₁_elim truncated (ℕ_set (length ys) (length xs)) rearranged-length)

  pub get_or-elem :
      (d : A) (xs : List A) (i : ℕ) {y : A}
      → get_elem? xs i ≡ some y
      → (i < length xs) × (get_or xs i d ≡ y)
  get_or-elem d [] i h = cc
  get_or-elem d (x ∷ xs) zero h = (omega arith, some-injective _ _ h)
  get_or-elem d (x ∷ xs) (suc i) h =
      let (inside, same) = get_or-elem d xs i h in (omega arith, same)
