-- ===== src/StringUtils/Decimal.antt =====
-- What the sources use of the C library on decimal numbers: `std::strtol` to the base 10 and the print
-- of a `long`, which has 64 bits.
pub mod RoundTrip
use quant_forge_quant_resear.Common.{
  ℕ, zero, suc, ◌+◌, ◌-◌, ◌*◌, ◌/◌, ◌%◌, List, [], ◌∷◌, Bool, true, false, ◌&&◌, leb, ltb, ◌==◌,
  if◌then◌else◌,
}
use quant_forge_quant_resear.Common.Int.{ℤ, pos, negsuc, sub_ℕ}
use quant_forge_quant_resear.StringUtils.{Bytes, is_space, erase_front}

abbrev pub is_digit : ℕ → Bool
is_digit c = leb b'0' c && leb c b'9'

-- 2 ^ 63
abbrev pub long_end : ℕ
long_end = 9223372036854775808

-- the number that the digits at the front spell behind `v`, and the text after them
unfoldable pub scan : ℕ → Bytes → ℕ × Bytes
scan v [] = (v, [])
scan v (c ∷ s) = let more = scan (v * 10 + (c - b'0')) s in if is_digit c then more else (v, c ∷ s)

-- A number out of range gives the end of the range that it passes.
abbrev pub clamp : Bool → ℕ → ℤ
clamp negative v =
    if negative
    then sub_ℕ 0 (if leb v long_end then v else long_end)
    else pos (if ltb v long_end then v else long_end - 1)

-- Without a digit the result is 0, and the text after it is the whole text `s`.
abbrev pub unsigned : Bool → Bytes → Bytes → ℤ × Bytes
unsigned negative s [] = (pos 0, s)
unsigned negative s (c ∷ u) =
    if is_digit c then (clamp negative (scan 0 (c ∷ u)).0, (scan 0 (c ∷ u)).1) else (pos 0, s)

abbrev pub signed : Bytes → Bytes → ℤ × Bytes
signed s [] = (pos 0, s)
signed s (c ∷ u) =
    if c == b'-'
    then unsigned true s u
    else if c == b'+'
    then unsigned false s u
    else unsigned false s (c ∷ u)

-- the value, and the text from `*end` on
unfoldable pub strtol : Bytes → ℤ × Bytes
strtol s = signed s (erase_front is_space s)

-- `*end == '\0'`: the C text ends there
abbrev pub at_end : Bytes → Bool
at_end [] = true
at_end (c ∷ s) = c == 0

-- Twenty digits are enough below 10 ^ 20.
unfoldable pub digits : ℕ → ℕ → Bytes → Bytes
digits zero n out = out
digits (suc k) n out =
    let more = digits k (n / 10) ((b'0' + n % 10) ∷ out) in if n == 0 then out else more

unfoldable pub print_nat : ℕ → Bytes
print_nat n = if n == 0 then b'0' ∷ [] else digits 20 n []

-- `<<` and `std::to_string` on a `long`
unfoldable pub print_long : ℤ → Bytes
print_long (pos n) = print_nat n
print_long (negsuc n) = b'-' ∷ print_nat (suc n)
