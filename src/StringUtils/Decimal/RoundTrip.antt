-- ===== src/StringUtils/Decimal/RoundTrip.antt =====
-- A printed `long` is read back.
use quant_forge_quant_resear.Common.{
  ℕ, zero, suc, ◌+◌, ◌/◌, ◌%◌, ◌<◌, ◌≤◌, [], ◌∷◌, Bool, true, false, ◌≡◌, ◌≢◌, refl, ap, ◌∙◌, sym,
  arith, ◌==◌, if◌then◌else◌, inl, inr, Bool-cases,
}
use quant_forge_quant_resear.Common.Int.{ℤ, pos, negsuc}
use quant_forge_quant_resear.StringUtils.{Bytes, All, is_space, trim}
use quant_forge_quant_resear.StringUtils.Split.{Lacks}
use quant_forge_quant_resear.StringUtils.Trim.{StartsKept, EndsKept, strip-kept, erase_front-kept}
use quant_forge_quant_resear.StringUtils.Decimal.{
  long_end, clamp, scan, unsigned, signed, strtol, digits, print_nat, print_long,
}

-- `n` has at most `k` digits.
abbrev HasDigits : ℕ → ℕ → Type 0
HasDigits zero n = n ≡ 0
HasDigits (suc k) n = HasDigits k (n / 10)

scan-digits : (k n : ℕ) (out : Bytes) → HasDigits k n → scan 0 (digits k n out) ≡ scan n out
unfolding digits
scan-digits zero n out h = ap (λ m. scan m out) (sym h)
scan-digits (suc k) n out h = elim (Bool-cases (n == 0)) [
  | inl e ↦ rw e (ap (λ m. scan m out) (ground arith))
  | inr e ↦ rw e (scan-digits k (n / 10) _ h ∙ last_digit)
]
  where
    last_digit : scan (n / 10) ((b'0' + n % 10) ∷ out) ≡ scan n out
    last_digit = unfold scan in ground arith

abbrev pub IsDigit : ℕ → Type 0
IsDigit c = (b'0' ≤ c) × (c ≤ b'9')

digits-IsDigit : (k n : ℕ) (out : Bytes) → All IsDigit out → All IsDigit (digits k n out)
unfolding digits
digits-IsDigit zero n out h = h
digits-IsDigit (suc k) n out h = elim (Bool-cases (n == 0)) [
  | inl e ↦ rw e h
  | inr e ↦ rw e (digits-IsDigit k (n / 10) _ ((omega arith, omega arith), h))
]

digits-not_empty : (k n : ℕ) (out : Bytes) → out ≢ [] → digits k n out ≢ []
unfolding digits
digits-not_empty zero n out h = h
digits-not_empty (suc k) n out h = elim (Bool-cases (n == 0)) [
  | inl e ↦ rw e h
  | inr e ↦ rw e (digits-not_empty k (n / 10) _ (λ e. cc))
]

digits_of_positive : (k n : ℕ) → (n == 0) ≡ false → digits (suc k) n [] ≢ []
unfolding digits
digits_of_positive k n e = rw (e, if◌then◌else◌) (digits-not_empty k (n / 10) _ (λ q. cc))

-- What is printed: digits, one at least, which spell the number.
pub record Prints (n : ℕ) (s : Bytes) : Type 0 where
  pub spells : scan 0 s ≡ (n, [])
  pub all_digits : All IsDigit s
  pub not_empty : s ≢ []

Prints-digits : (n : ℕ) → n ≤ long_end → (n == 0) ≡ false → Prints n (digits 20 n [])
Prints-digits n h e = record {
  spells = scan-digits 20 n [] (omega arith) ∙ unfold scan in refl;
  all_digits = digits-IsDigit 20 n [] tt;
  not_empty = digits_of_positive 19 n e;
}

Prints-zero : (n : ℕ) → n ≡ 0 → Prints n (b'0' ∷ [])
Prints-zero n e = record {
  spells = unfold scan in ap (λ m. (m, [])) (sym e);
  all_digits = ((omega arith, omega arith), tt);
  not_empty = λ q. cc;
}

pub print_nat-Prints : (n : ℕ) → n ≤ long_end → Prints n (print_nat n)
unfolding print_nat
print_nat-Prints n h = elim (Bool-cases (n == 0)) [
  | inl e ↦ rw (e, if◌then◌else◌) (Prints-zero n (ground arith))
  | inr e ↦ rw (e, if◌then◌else◌) (Prints-digits n h e)
]

-- The range of a `long`.
abbrev pub IsLong : ℤ → Type 0
IsLong (pos n) = n < long_end
IsLong (negsuc n) = n < long_end

-- the texts that a number is printed as
record Shows (v : ℤ) (s : Bytes) : Type 0 where
  read : signed s s ≡ (v, [])
  marks : All (λ c. (b'-' ≤ c) × (c ≤ b'9')) s

pub All-map : {P Q : ℕ → Type 0} → ((c : ℕ) → P c → Q c) → (s : Bytes) → All P s → All Q s
All-map f [] h = tt
All-map f (c ∷ s) (p, h) = (f c p, All-map f s h)

unsigned-Prints :
    (negative : Bool) (n : ℕ) (whole s : Bytes)
    → Prints n s
    → unsigned negative whole s ≡ (clamp negative n, [])
unsigned-Prints negative n whole [] p = absurd (p.not_empty refl)
unsigned-Prints negative n whole (c ∷ u) p = ground (arith, p.spells, p.all_digits.0)

signed-Prints : (n : ℕ) (whole s : Bytes) → Prints n s → signed whole s ≡ unsigned false whole s
signed-Prints n whole [] p = refl
signed-Prints n whole (c ∷ u) p = ground (arith, p.all_digits.0)

signed_minus : (whole s : Bytes) → signed whole (b'-' ∷ s) ≡ unsigned true whole s
signed_minus whole s = refl

digits_are_marks : (s : Bytes) → All IsDigit s → All (λ c. (b'-' ≤ c) × (c ≤ b'9')) s
digits_are_marks = All-map (λ c h. omega (arith, h))

print_long-Shows : (v : ℤ) → IsLong v → Shows v (print_long v)
unfolding print_long
print_long-Shows (pos n) h =
    let p = print_nat-Prints n (omega arith) in
    record {
      read =
          signed-Prints n _ (print_nat n) p
          ∙ unsigned-Prints false n _ (print_nat n) p
          ∙ ap (λ v. (v, [])) (ground arith);
      marks = digits_are_marks (print_nat n) p.all_digits;
    }
print_long-Shows (negsuc n) h =
    let p = print_nat-Prints (suc n) (omega arith) in
    record {
      read =
          unsigned-Prints true (suc n) _ (print_nat (suc n)) p ∙ ap (λ v. (v, [])) (ground arith);
      marks = ((omega arith, omega arith), digits_are_marks (print_nat (suc n)) p.all_digits);
    }

All-StartsKept : (drops : ℕ → Bool) (s : Bytes) → All (λ c. drops c ≡ false) s → StartsKept drops s
All-StartsKept drops [] h = tt
All-StartsKept drops (c ∷ s) (p, h) = p

All-EndsKept : (drops : ℕ → Bool) (s : Bytes) → All (λ c. drops c ≡ false) s → EndsKept drops s
All-EndsKept drops [] h = tt
All-EndsKept drops (c ∷ []) (p, h) = p
All-EndsKept drops (c ∷ d ∷ s) (p, h) = All-EndsKept drops (d ∷ s) h

pub no_spaces : (v : ℤ) → IsLong v → All (λ c. is_space c ≡ false) (print_long v)
no_spaces v h = All-map (λ c m. not_space c m) (print_long v) (print_long-Shows v h).marks
  where
    not_space : (c : ℕ) → (b'-' ≤ c) × (c ≤ b'9') → is_space c ≡ false
    not_space c m = unfold is_space in ground arith

-- A print is one line with nothing to trim.
pub print_long-Lacks : (v : ℤ) → IsLong v → Lacks b'\n' (print_long v)
print_long-Lacks v h =
    All-map (λ c m e. omega (arith, m, e)) (print_long v) (print_long-Shows v h).marks

pub trim_of_no_spaces : (s : Bytes) → All (λ c. is_space c ≡ false) s → trim s ≡ s
unfolding trim
trim_of_no_spaces s h =
    strip-kept is_space s (All-StartsKept is_space s h) (All-EndsKept is_space s h)

pub trim-print_long : (v : ℤ) → IsLong v → trim (print_long v) ≡ print_long v
trim-print_long v h = trim_of_no_spaces (print_long v) (no_spaces v h)

-- `strtol` reads back every `long` that was printed, and reads the whole text.
pub strtol-print_long : (v : ℤ) → IsLong v → strtol (print_long v) ≡ (v, [])
unfolding strtol
strtol-print_long v h =
    ap (signed (print_long v))
      (erase_front-kept is_space (print_long v) (All-StartsKept is_space _ (no_spaces v h)))
    ∙ (print_long-Shows v h).read
