-- ===== src/Http/Action.antt =====
-- A C++ call as a function of the state around it. What it wrote before it threw stays written.
use quant_forge_quant_resear.Common.Int.{ℤ}
use quant_forge_quant_resear.StringUtils.{Bytes}

-- An exception with its message, and `HttpError` with its status, url and preview of the body.
pub data Failure : Type 0 where
  runtime_error : Bytes → Failure
  http_error : (status : ℤ) (url preview message : Bytes) → Failure

pub data Outcome (A : Type 0) : Type 0 where
  done : A → Outcome A
  thrown : Failure → Outcome A

abbrev pub Action : Type 0 → Type 0 → Type 0
Action W A = W → W × Outcome A

abbrev pub pure : {W A : Type 0} → A → Action W A
pure a w = (w, done a)

abbrev pub raise : {W A : Type 0} → Failure → Action W A
raise f w = (w, thrown f)

-- what follows a call, in the state that it leaves
abbrev pub continue : {W A B : Type 0} → W → Outcome A → (A → Action W B) → W × Outcome B
continue w (done a) f = f a w
continue w (thrown e) f = (w, thrown e)

infixl 5 ◌>>=◌
abbrev pub ◌>>=◌ : {W A B : Type 0} → Action W A → (A → Action W B) → Action W B
(call >>= f) w = continue (call w).0 (call w).1 f

-- `catch (const std::exception&)`; both kinds derive from it
abbrev pub caught : {W A : Type 0} → W → Outcome A → (Failure → Action W A) → W × Outcome A
caught w (done a) handler = (w, done a)
caught w (thrown e) handler = handler e w

infixl 5 ◌>>◌
abbrev pub ◌>>◌ : {W A B : Type 0} → Action W A → Action W B → Action W B
(call >> next) w = continue (call w).0 (call w).1 (λ a. next)

-- What holds whichever way a call ends holds of what is made of its end.
pub continue_both :
    {W A B : Type 0} (P : W × Outcome B → Type 0) (w : W) (end : Outcome A) (f : A → Action W B)
    → ((a : A) → P (f a w))
    → ((e : Failure) → P (w, thrown e))
    → P (continue w end f)
continue_both P w (done a) f h k = h a
continue_both P w (thrown e) f h k = k e
