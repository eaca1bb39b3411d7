-- ===== src/Double.antt =====
-- `double`: the language has no model of floating-point numbers, so the type and the operations that the
-- engine calls on it are a parameter. `decimal n k` is the literal n / 10^k, `round_int` is
-- `static_cast<int64_t>(std::round(x))` and `trunc_int` is `static_cast<int64_t>(x)`.
-- A theorem that needs laws of arithmetic has IsIeee, which IEEE 754 gives for all values, NaN included, as
-- a hypothesis.
use quant_forge_quant_resear.Common.{ℕ, ◌≡◌, Bool, true, false, if◌then◌else◌}
use quant_forge_quant_resear.Common.Int.{ℤ}

pub record Double (D : Type 0) : Type 0 where
  pub lt : D → D → Bool
  pub le : D → D → Bool
  pub eq : D → D → Bool
  pub add : D → D → D
  pub sub : D → D → D
  pub mul : D → D → D
  pub div : D → D → D
  pub neg : D → D
  pub floor : D → D
  pub of_int : ℤ → D
  pub decimal : ℕ → ℕ → D
  pub round_int : D → ℤ
  pub trunc_int : D → ℤ

module _ {D : Type 0} ⦃d : Double D⦄ where
  open d use {lt, neg, decimal}

  abbrev pub nought : D
  nought = decimal 0 0

  abbrev pub one : D
  one = decimal 1 0

  -- constants::EPSILON
  abbrev pub epsilon : D
  epsilon = decimal 1 4

  -- std::min, std::max and std::abs
  unfoldable pub min : D → D → D
  min a b = if lt b a then b else a

  unfoldable pub max : D → D → D
  max a b = if lt a b then b else a

  unfoldable pub abs : D → D
  abs a = if lt a nought then neg a else a

pub record IsIeee (D : Type 0) ⦃d : Double D⦄ : Type 0 where
  pub sub_nought : (x : D) → d.sub x nought ≡ x
  pub add_neg : (x y : D) → d.add x (d.neg y) ≡ d.sub x y
  pub lt_asym : (x y : D) → d.lt x y ≡ true → d.lt y x ≡ false
  pub le_of_lt : (x y : D) → d.lt x y ≡ true → d.le x y ≡ true
  pub not_lt : (x y : D) → d.le x y ≡ true → d.lt y x ≡ false
  pub epsilon_pos : d.lt nought epsilon ≡ true
