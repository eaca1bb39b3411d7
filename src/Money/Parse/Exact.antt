-- ===== src/Money/Parse/Exact.antt =====
-- Which amount parse_microdollars reads.
use quant_forge_quant_resear.Common.{
  ℕ, ◌+◌, ◌*◌, ◌<◌, ◌≤◌, [], ◌∷◌, ◌++◌, none, some, ◌≡◌, refl, ap, ◌∙◌, arith, ◌/◌, ◌%◌, length,
}
use quant_forge_quant_resear.Common.Int.{pos, ◌+ℤ◌, ◌*ℤ◌}
use quant_forge_quant_resear.StringUtils.{Bytes, is_space, erase_front, before}
use quant_forge_quant_resear.StringUtils.Split.{Lacks, behind-append, before-append}
use quant_forge_quant_resear.StringUtils.Decimal.{scan, long_end, print_nat}
use quant_forge_quant_resear.StringUtils.Decimal.RoundTrip.{Prints, print_nat-Prints, All-map}
use quant_forge_quant_resear.Result.{ok, throw, length_error}
use quant_forge_quant_resear.Money.Parse.{
  stoll, six_digits, first, size_minus, append_zeros, as_int64, money_scale, size_end, parse_parts,
  parse_whole, parse_microdollars,
}

parse_microdollars-point :
    (max_size : ℕ) (whole fraction : Bytes)
    → Lacks b'.' whole
    → parse_microdollars max_size (whole ++ (b'.' ∷ fraction)) ≡ parse_parts max_size whole fraction
unfolding parse_microdollars
parse_microdollars-point max_size whole fraction h =
    ap
      (λ o. elim o [
        | none ↦ parse_whole (whole ++ (b'.' ∷ fraction))
        | some f ↦ parse_parts max_size (before b'.' (whole ++ (b'.' ∷ fraction))) f
      ])
      (behind-append b'.' whole fraction h)
    ∙ ap (λ w. parse_parts max_size w fraction) (before-append b'.' whole fraction h)

-- With fewer than six digits the count of zeros wraps around, and no string is as long.
short_refused :
    (max_size : ℕ) (fraction : Bytes)
    → max_size + money_scale < size_end
    → length fraction < money_scale
    → six_digits max_size fraction ≡ throw length_error
unfolding six_digits size_minus append_zeros
short_refused max_size fraction long short = ground (arith, long, short)

-- Where no std::string is within six of 2 ^ 64 long, a fraction of fewer than six digits is refused,
-- whatever stands before the point.
pub parse_microdollars-short :
    (max_size : ℕ) (whole fraction : Bytes)
    → max_size + 6 < size_end
    → Lacks b'.' whole
    → length fraction < 6
    → parse_microdollars max_size (whole ++ (b'.' ∷ fraction)) ≡ throw length_error
unfolding parse_parts
parse_microdollars-short max_size whole fraction long h short =
    parse_microdollars-point max_size whole fraction h
    ∙ rw (short_refused max_size fraction long short) refl

stoll-Prints : (n : ℕ) (s : Bytes) → n < long_end → Prints n s → stoll s ≡ ok (pos n)
unfolding stoll erase_front
stoll-Prints n [] h p = absurd (p.not_empty refl)
stoll-Prints n (c ∷ s) h p = unfold is_space in ground (arith, p.spells, p.all_digits.0)

-- the digits of a number below a million
abbrev pub micros_of : ℕ → Bytes
micros_of m =
    (b'0' + m / 100000)
    ∷ (b'0' + m / 10000 % 10)
    ∷ (b'0' + m / 1000 % 10)
    ∷ (b'0' + m / 100 % 10)
    ∷ (b'0' + m / 10 % 10)
    ∷ (b'0' + m % 10)
    ∷ []

scan_digit : (v d : ℕ) (s : Bytes) → d ≤ 9 → scan v ((b'0' + d) ∷ s) ≡ scan (v * 10 + d) s
unfolding scan
scan_digit v d s h = ground arith

-- the number that six digits spell
abbrev spelled : ℕ → ℕ
spelled m =
    (((((0 * 10 + m / 100000) * 10 + m / 10000 % 10) * 10 + m / 1000 % 10) * 10 + m / 100 % 10) * 10
        + m / 10 % 10)
      * 10
    + m % 10

scan-micros_of : (m : ℕ) → m < 1000000 → scan 0 (micros_of m) ≡ (spelled m, [])
scan-micros_of m h =
    scan_digit 0 (m / 100000) _ (omega arith)
    ∙ scan_digit _ (m / 10000 % 10) _ (omega arith)
    ∙ scan_digit _ (m / 1000 % 10) _ (omega arith)
    ∙ scan_digit _ (m / 100 % 10) _ (omega arith)
    ∙ scan_digit _ (m / 10 % 10) _ (omega arith)
    ∙ scan_digit _ (m % 10) [] (omega arith)
    ∙ scan_end (spelled m)
  where
    scan_end : (v : ℕ) → scan v [] ≡ (v, [])
    scan_end v = unfold scan in refl

micros_of-Prints : (m : ℕ) → m < 1000000 → Prints m (micros_of m)
micros_of-Prints m h = record {
  spells = scan-micros_of m h ∙ ap (λ v. (v, [])) (omega arith);
  all_digits = omega (arith, h);
  not_empty = λ e. cc;
}

-- Six digits are kept, and what follows them is cut off.
six_digits-micros_of :
    (max_size m : ℕ) (more : Bytes) → six_digits max_size (micros_of m ++ more) ≡ ok (micros_of m)
unfolding six_digits first
six_digits-micros_of max_size m [] = refl
six_digits-micros_of max_size m (c ∷ more) = ground arith

as_int64-fits : (n : ℕ) → n < long_end → as_int64 (pos n) ≡ pos n
unfolding as_int64
as_int64-fits n h = ground (arith, h)

micros-fit :
    (dollars micros : ℕ)
    → dollars * 1000000 + micros < long_end
    → as_int64 (as_int64 (pos dollars *ℤ pos 1000000) +ℤ pos micros)
      ≡ pos (dollars * 1000000 + micros)
micros-fit dollars micros h =
    let product : pos dollars *ℤ pos 1000000 ≡ pos (dollars * 1000000) =
      unfold ◌*ℤ◌ in ground arith in
    let total : pos (dollars * 1000000) +ℤ pos micros ≡ pos (dollars * 1000000 + micros) =
      unfold ◌+ℤ◌ in ground arith in
    rw
      (
        product,
        as_int64-fits (dollars * 1000000) (omega (arith, h)),
        total,
        as_int64-fits (dollars * 1000000 + micros) h,
      )
      refl

-- The print of an amount with six digits behind the point, and anything after them, is read exactly if
-- the amount in microdollars is below 2 ^ 63.
pub parse_microdollars-exact :
    (max_size dollars micros : ℕ) (more : Bytes)
    → dollars * 1000000 + micros < long_end
    → micros < 1000000
    → parse_microdollars max_size (print_nat dollars ++ (b'.' ∷ (micros_of micros ++ more)))
      ≡ ok (pos (dollars * 1000000 + micros))
unfolding parse_parts
parse_microdollars-exact max_size dollars micros more h k =
    parse_microdollars-point max_size (print_nat dollars) (micros_of micros ++ more) (
      All-map (λ c d. omega (arith, d)) (print_nat dollars)
        (print_nat-Prints dollars (omega arith)).all_digits)
    ∙ rw
        (
          six_digits-micros_of max_size micros more,
          stoll-Prints dollars (print_nat dollars) (omega (arith, h))
              (print_nat-Prints dollars (omega (arith, h))),
          stoll-Prints micros (micros_of micros) (omega (arith, k)) (micros_of-Prints micros k),
          micros-fit dollars micros h,
        )
        refl
