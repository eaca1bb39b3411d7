-- ===== src/Result.antt =====
-- How a C++ call ends: with a value, with an exception that nothing in the engine catches, or
-- `unfinished`, where a loop of the model has used up its rounds.
pub mod Leaves
use quant_forge_quant_resear.Common.{String, Bool, true, false, ◌≡◌, refl, Option, none, some}

pub data Exception : Type 0 where
  out_of_range invalid_argument length_error : Exception
  runtime_error : String → Exception

pub data Result {ℓ} (A : Type ℓ) : Type ℓ where
  ok : A → Result A
  throw : Exception → Result A
  unfinished : Result A

infixl 5 ◌>>=◌
abbrev pub ◌>>=◌ {ℓ κ} : {A : Type ℓ} {B : Type κ} → Result A → (A → Result B) → Result B
ok a >>= f = f a
throw e >>= f = throw e
unfinished >>= f = unfinished

-- `std::map::at`
abbrev pub or_out_of_range {ℓ} : {A : Type ℓ} → Option A → Result A
or_out_of_range (some a) = ok a
or_out_of_range none = throw out_of_range

-- The call returns.
abbrev pub Returns {ℓ} : {A : Type ℓ} → Result A → Type ℓ
Returns {A = A} r = (a : A) × (r ≡ ok a)

abbrev pub returned {ℓ} : {A : Type ℓ} → Result A → Bool
returned (ok a) = true
returned _ = false

pub returned-Returns {ℓ} : {A : Type ℓ} (r : Result A) → returned r ≡ true → Returns r
returned-Returns (ok a) h = (a, refl)
returned-Returns (throw e) h = cc
returned-Returns unfinished h = cc

pub returned-bind {ℓ κ} :
    {A : Type ℓ} {B : Type κ} (r : Result A) (f : A → Result B)
    → returned r ≡ true
    → ((a : A) → returned (f a) ≡ true)
    → returned (r >>= f) ≡ true
returned-bind (ok a) f h k = k a
returned-bind (throw e) f h k = cc
returned-bind unfinished f h k = cc
