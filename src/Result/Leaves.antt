-- ===== src/Result/Leaves.antt =====
-- Reasoning on the ways in which a call ends.
use quant_forge_quant_resear.Common.{
  Bool, true, false, Option, none, some, ◌≡◌, refl, if◌then◌else◌, subst,
}
use quant_forge_quant_resear.Result.{Result, ok, throw, unfinished, ◌>>=◌, Returns}

-- What a call leaves, where it returns, satisfies `P`.
abbrev pub Leaves {ℓ} : {A : Type ℓ} → (A → Type 0) → Result A → Type 0
Leaves P (ok a) = P a
Leaves P (throw e) = Unit
Leaves P unfinished = Unit

pub Leaves-bind {ℓ κ} :
    {A : Type ℓ} (P : A → Type 0) {B : Type κ} (Q : B → Type 0) (r : Result A) (f : A → Result B)
    → Leaves P r
    → ((a : A) → P a → Leaves Q (f a))
    → Leaves Q (r >>= f)
Leaves-bind P Q (ok a) f h k = k a h
Leaves-bind P Q (throw e) f h k = tt
Leaves-bind P Q unfinished f h k = tt

pub Leaves-ok {ℓ} :
    {A : Type ℓ} (P : A → Type 0) (r : Result A) {a : A} → Leaves P r → r ≡ ok a → P a
Leaves-ok P r h e = subst (Leaves P) e h

pub Leaves-split {ℓ κ} :
    {A : Type ℓ} {B : Type κ} (P : A → Type 0) (o : Option B) (x : Result A) (f : B → Result A)
    → (o ≡ none → Leaves P x)
    → ((b : B) → o ≡ some b → Leaves P (f b))
    → Leaves P (elim o [ none ↦ x | some b ↦ f b ])
Leaves-split P none x f h k = h refl
Leaves-split P (some b) x f h k = k b refl

pub Leaves-option {ℓ κ} :
    {A : Type ℓ} {B : Type κ} (P : A → Type 0) (o : Option B) (x : Result A) (f : B → Result A)
    → Leaves P x
    → ((b : B) → o ≡ some b → Leaves P (f b))
    → Leaves P (elim o [ none ↦ x | some b ↦ f b ])
Leaves-option P o x f h k = Leaves-split P o x f (λ q. h) k

pub Leaves-elim {ℓ} :
    {A : Type ℓ} (P : A → Type 0) (b : Bool) (x y : Result A)
    → (b ≡ true → Leaves P x)
    → (b ≡ false → Leaves P y)
    → Leaves P (elim b [ true ↦ x | false ↦ y ])
Leaves-elim P true x y h k = h refl
Leaves-elim P false x y h k = k refl

pub Leaves-after {ℓ κ} :
    {A : Type ℓ} {B : Type κ} (Q : B → Type 0) (r : Result A) (f : A → Result B)
    → ((a : A) → Leaves Q (f a))
    → Leaves Q (r >>= f)
Leaves-after Q (ok a) f k = k a
Leaves-after Q (throw e) f k = tt
Leaves-after Q unfinished f k = tt

pub Leaves-if {ℓ} :
    {A : Type ℓ} (P : A → Type 0) (b : Bool) (x y : Result A)
    → (b ≡ true → Leaves P x)
    → (b ≡ false → Leaves P y)
    → Leaves P (if b then x else y)
Leaves-if P true x y h k = h refl
Leaves-if P false x y h k = k refl

-- The call returns, and what it leaves satisfies `P`.
abbrev pub Gives {ℓ} : {A : Type ℓ} → (A → Type 0) → Result A → Type 0
Gives P (ok a) = P a
Gives P (throw e) = ⊥
Gives P unfinished = ⊥

pub Gives-bind {ℓ κ} :
    {A : Type ℓ} (P : A → Type 0) {B : Type κ} (Q : B → Type 0) (r : Result A) (f : A → Result B)
    → Gives P r
    → ((a : A) → P a → Gives Q (f a))
    → Gives Q (r >>= f)
Gives-bind P Q (ok a) f h k = k a h
Gives-bind P Q (throw e) f h k = absurd h
Gives-bind P Q unfinished f h k = absurd h

pub Gives-Returns {ℓ} : {A : Type ℓ} (P : A → Type 0) (r : Result A) → Gives P r → Returns r
Gives-Returns P (ok a) h = (a, refl)
Gives-Returns P (throw e) h = absurd h
Gives-Returns P unfinished h = absurd h

pub Gives-option {ℓ κ} :
    {A : Type ℓ} {B : Type κ} (P : A → Type 0) (o : Option B) (x : Result A) (f : B → Result A)
    → (o ≡ none → Gives P x)
    → ((b : B) → o ≡ some b → Gives P (f b))
    → Gives P (elim o [ none ↦ x | some b ↦ f b ])
Gives-option P none x f h k = h refl
Gives-option P (some b) x f h k = k b refl

pub Gives-elim {ℓ} :
    {A : Type ℓ} (P : A → Type 0) (b : Bool) (x y : Result A)
    → (b ≡ true → Gives P x)
    → (b ≡ false → Gives P y)
    → Gives P (elim b [ true ↦ x | false ↦ y ])
Gives-elim P true x y h k = h refl
Gives-elim P false x y h k = k refl
