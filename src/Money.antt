-- ===== src/Money.antt =====
-- src/utils/money_utils.hpp and .cpp: an amount is an int64_t of microdollars. Overflow of a signed
-- integer is undefined in C++; the model has no bound, so it speaks of the runs in which the amounts fit.
pub mod Parse
use quant_forge_quant_resear.Common.{if◌then◌else◌}
use quant_forge_quant_resear.Common.Int.{ℤ, pos, ltb_ℤ}
use quant_forge_quant_resear.Double.{Double}

-- The class has the one field `microdollars_`; `+`, `-` and the comparisons are those of integers.
abbrev pub Money : Type 0
Money = ℤ

module _ {D : Type 0} ⦃d : Double D⦄ where
  open d use {mul, div, of_int, round_int}

  -- constants::MONEY_SCALED_BASE, where it is turned into a double
  abbrev pub money_scaled_base : D
  money_scaled_base = of_int (pos 1000000)

  unfoldable pub from_dollars : D → Money
  from_dollars dollars = round_int (mul dollars money_scaled_base)

  unfoldable pub to_dollars : Money → D
  to_dollars m = div (of_int m) money_scaled_base

  -- Money::operator*(double) and operator/(double)
  unfoldable pub scale : Money → D → Money
  scale m scalar = round_int (mul (of_int m) scalar)

  unfoldable pub divide : Money → D → Money
  divide m scalar = round_int (div (of_int m) scalar)

-- std::min and std::max on Money
unfoldable pub min : Money → Money → Money
min a b = if ltb_ℤ b a then b else a

unfoldable pub max : Money → Money → Money
max a b = if ltb_ℤ a b then b else a
