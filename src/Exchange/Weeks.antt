-- ===== src/Exchange/Weeks.antt =====
-- src/utils/time_utils.cpp: the weekday and the hour of an instant and of the one a week later.
use quant_forge_quant_resear.Common.{
  ℕ, sym, subst, suc, ◌+◌, ◌-◌, ◌*◌, ◌<◌, ◌≤◌, ◌≡◌, refl, inl, inr, ◌⊎◌, arith,
}
use quant_forge_quant_resear.Common.Int.{ℤ, pos, negsuc, ◌+ℤ◌}
use quant_forge_quant_resear.Exchange.{ns_per_day, weekday, hour, is_within_market_hours}

abbrev ns_per_week : ℕ
ns_per_week = 7 * ns_per_day

later_week :
    (n : ℕ)
    → (weekday (pos (n + ns_per_week)) ≡ weekday (pos n))
      × (hour (pos (n + ns_per_week)) ≡ hour (pos n))
unfolding weekday hour
later_week n = (omega arith, omega arith)

-- An instant less than a week before the epoch
over_epoch :
    (n : ℕ)
    → n < ns_per_week
    → (weekday (pos (ns_per_week - suc n)) ≡ weekday (negsuc n))
      × (hour (pos (ns_per_week - suc n)) ≡ hour (negsuc n))
unfolding weekday hour
over_epoch n h = (omega arith, omega arith)

earlier_week :
    (n : ℕ)
    → (weekday (negsuc (n + ns_per_week)) ≡ weekday (negsuc n))
      × (hour (negsuc (n + ns_per_week)) ≡ hour (negsuc n))
unfolding weekday hour
earlier_week n = (omega arith, omega arith)

≤_or_< : (m n : ℕ) → (m ≤ n) ⊎ (n < m)
≤_or_< m n = omega arith

SameHours : ℤ → ℤ → Type 0
SameHours t u = (weekday t ≡ weekday u) × (hour t ≡ hour u)

add_pos : (n m : ℕ) → pos n +ℤ pos m ≡ pos (n + m)
unfolding ◌+ℤ◌
add_pos n m = ground arith

add_over : (n m : ℕ) → n < m → negsuc n +ℤ pos m ≡ pos (m - suc n)
unfolding ◌+ℤ◌
add_over n m h = ground arith

add_before : (k m : ℕ) → negsuc (k + m) +ℤ pos m ≡ negsuc k
unfolding ◌+ℤ◌
add_before k m = ground arith

week_before :
    (k : ℕ) → SameHours (negsuc (k + ns_per_week) +ℤ pos ns_per_week) (negsuc (k + ns_per_week))
unfolding SameHours
week_before k =
    subst (λ t. SameHours t (negsuc (k + ns_per_week))) (sym (add_before k ns_per_week))
      (sym (earlier_week k).0, sym (earlier_week k).1)

week_later : (t : ℤ) → SameHours (t +ℤ pos ns_per_week) t
unfolding SameHours
week_later (pos n) = subst (λ t. SameHours t (pos n)) (sym (add_pos n ns_per_week)) (later_week n)
week_later (negsuc n) = elim (≤_or_< ns_per_week n) [
  | inl e ↦
      let back : n - ns_per_week + ns_per_week ≡ n = omega arith in
      subst (λ k. SameHours (negsuc k +ℤ pos ns_per_week) (negsuc k)) back
        (week_before (n - ns_per_week))
  | inr e ↦ subst (λ t. SameHours t (negsuc n)) (sym (add_over n ns_per_week e)) (over_epoch n e)
]

-- At every instant, before and after 1970-01-01, the market is open exactly where it is open a week later.
open_weekly :
    (timestamp_ns : ℤ)
    → is_within_market_hours (timestamp_ns +ℤ pos ns_per_week) ≡ is_within_market_hours timestamp_ns
unfolding is_within_market_hours SameHours
open_weekly timestamp_ns = rw ((week_later timestamp_ns).0, (week_later timestamp_ns).1) refl
