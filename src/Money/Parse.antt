-- ===== src/Money/Parse.antt =====
-- src/utils/money_utils.cpp, parse_microdollars, with `std::stoll`.
pub mod Exact
use quant_forge_quant_resear.Common.{
  ℕ, zero, suc, ◌+◌, ◌-◌, ◌%◌, List, [], ◌∷◌, ◌++◌, Bool, true, false, Option, none, some, ltb, leb,
  ◌==◌, if◌then◌else◌, length,
}
use quant_forge_quant_resear.Common.Int.{ℤ, pos, negsuc, sub_ℕ, ◌+ℤ◌, ◌*ℤ◌}
use quant_forge_quant_resear.StringUtils.{Bytes, is_space, erase_front, behind, before}
use quant_forge_quant_resear.StringUtils.Decimal.{is_digit, scan, long_end}
use quant_forge_quant_resear.Result.{
  Result, ok, throw, invalid_argument, out_of_range, length_error, ◌>>=◌,
}
use quant_forge_quant_resear.Money.{Money}

-- the digits behind the sign; a `long long` has 64 bits
abbrev pub stoll_digits : Bool → Bytes → Result ℤ
stoll_digits negative [] = throw invalid_argument
stoll_digits negative (c ∷ u) =
    let v = (scan 0 (c ∷ u)).0 in
    if is_digit c
    then (if negative
        then (if leb v long_end then ok (sub_ℕ 0 v) else throw out_of_range)
        else if ltb v long_end
        then ok (pos v)
        else throw out_of_range)
    else throw invalid_argument

abbrev pub stoll_signed : Bytes → Result ℤ
stoll_signed [] = throw invalid_argument
stoll_signed (c ∷ u) =
    if c == b'-'
    then stoll_digits true u
    else if c == b'+'
    then stoll_digits false u
    else stoll_digits false (c ∷ u)

-- What follows the number is not looked at.
unfoldable pub stoll : Bytes → Result ℤ
stoll s = stoll_signed (erase_front is_space s)

-- `substr(0, 6)`
unfoldable pub first : ℕ → Bytes → Bytes
first zero s = []
first (suc n) [] = []
first (suc n) (c ∷ s) = c ∷ first n s

-- the end of the size_t, 2 ^ 64
abbrev pub size_end : ℕ
size_end = 18446744073709551616

-- a - b as size_t
unfoldable pub size_minus : ℕ → ℕ → ℕ
size_minus a b = if leb b a then a - b else size_end + a - b

abbrev pub zeros : ℕ → Bytes
zeros zero = []
zeros (suc n) = b'0' ∷ zeros n

-- `append(count, '0')`, where `max_size` is the length of the longest std::string
unfoldable pub append_zeros : ℕ → ℕ → Bytes → Result Bytes
append_zeros max_size count s =
    if ltb max_size (length s + count) then throw length_error else ok (s ++ zeros count)

abbrev pub money_scale : ℕ
money_scale = 6

-- The fraction with six digits. The count of zeros is `length - 6`, as the source has it.
unfoldable pub six_digits : ℕ → Bytes → Result Bytes
unfolding first size_minus append_zeros
six_digits max_size fractional_part =
    if ltb (length fractional_part) money_scale
    then append_zeros max_size (size_minus (length fractional_part) money_scale) fractional_part
    else if ltb money_scale (length fractional_part)
    then ok (first money_scale fractional_part)
    else ok fractional_part

-- What an int64_t keeps of an integer. A signed overflow has no defined result; this is the wrap-around
-- that the usual targets give.
unfoldable pub as_int64 : ℤ → ℤ
as_int64 (pos n) =
    let m = n % size_end in if ltb m long_end then pos m else negsuc (size_end - 1 - m)
as_int64 (negsuc n) =
    let m = n % size_end in if ltb m long_end then negsuc m else pos (size_end - 1 - m)

abbrev pub scaled_base : ℤ
scaled_base = pos 1000000

-- the part before the point and the part behind it
unfoldable pub parse_parts : ℕ → Bytes → Bytes → Result Money
unfolding stoll six_digits as_int64
parse_parts max_size whole_part fractional_part = do
  fraction ← six_digits max_size fractional_part
  whole ← stoll whole_part
  micros ← stoll fraction
  ok (as_int64 (as_int64 (whole *ℤ scaled_base) +ℤ micros))

unfoldable pub parse_whole : Bytes → Result Money
unfolding stoll as_int64
parse_whole money_string = do dollars ← stoll money_string; ok (as_int64 (dollars *ℤ scaled_base))

unfoldable pub parse_microdollars : ℕ → Bytes → Result Money
unfolding parse_parts parse_whole
parse_microdollars max_size money_string = elim (behind b'.' money_string) [
  | none ↦ parse_whole money_string
  | some fractional_part ↦ parse_parts max_size (before b'.' money_string) fractional_part
]
