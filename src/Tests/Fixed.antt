-- ===== src/Tests/Fixed.antt =====
-- A fixed-point number with six decimals in the place of `double`.
use quant_forge_quant_resear.Common.{ℕ, zero, suc, ◌-◌, ◌*◌, ◌/◌, ◌+◌, refl, arith}
use quant_forge_quant_resear.Common.Int.{
  ℤ, pos, negsuc, sub_ℕ, ◌+ℤ◌, ◌-ℤ◌, ◌*ℤ◌, ltb_ℤ, leb_ℤ, eqb_ℤ, int_laws,
}
use quant_forge_quant_resear.Double.{Double, IsIeee}

-- Towards zero
abbrev pub quotient : ℤ → ℤ → ℤ
quotient (pos n) (pos m) = pos (n / m)
quotient (pos n) (negsuc m) = sub_ℕ 0 (n / suc m)
quotient (negsuc n) (pos m) = sub_ℕ 0 (suc n / m)
quotient (negsuc n) (negsuc m) = pos (suc n / suc m)

-- Towards minus infinity, to a whole number of units
abbrev pub whole : ℤ → ℤ
whole (pos n) = pos (n / 1000000 * 1000000)
whole (negsuc n) = sub_ℕ 0 ((n / 1000000 + 1) * 1000000)

abbrev pub power_of_ten : ℕ → ℕ
power_of_ten zero = 1
power_of_ten (suc n) = 10 * power_of_ten n

instance unfoldable pub fixed : Double ℤ
unfolding ◌+ℤ◌ ◌-ℤ◌ ◌*ℤ◌
fixed = record {
  lt = ltb_ℤ;
  le = leb_ℤ;
  eq = eqb_ℤ;
  add = λ a b. a +ℤ b;
  sub = λ a b. a -ℤ b;
  mul = λ a b. quotient (a *ℤ b) (pos 1000000);
  div = λ a b. quotient (a *ℤ pos 1000000) b;
  neg = λ a. pos 0 -ℤ a;
  floor = whole;
  of_int = λ a. a *ℤ pos 1000000;
  decimal = λ n k. pos (n * power_of_ten (6 - k));
  round_int = λ a. quotient a (pos 1000000);
  trunc_int = λ a. quotient a (pos 1000000);
}

pub fixed_IsIeee : IsIeee ℤ
unfolding fixed
fixed_IsIeee = record {
  sub_nought = λ x. omega int_laws;
  add_neg = λ x y. omega int_laws;
  lt_asym = λ x y h. ground arith;
  le_of_lt = λ x y h. ground arith;
  not_lt = λ x y h. ground arith;
  epsilon_pos = refl;
}
