-- ===== src/Exchange.antt =====
-- src/simulators/back_test/exchange.cpp, slippage_calculator.cpp and src/utils/time_utils.cpp
pub mod Weeks
use quant_forge_quant_resear.Common.{
  ℕ, ◌+◌, ◌-◌, ◌*◌, ◌/◌, ◌%◌, Bool, true, false, not, ◌||◌, Option, none, some, str_eq,
  if◌then◌else◌, ltb, leb, ◌==◌,
}
use quant_forge_quant_resear.Common.Int.{ℤ, pos, negsuc, ◌+ℤ◌}
use quant_forge_quant_resear.Common.Dict
use quant_forge_quant_resear.Double.{Double, nought, one}
use quant_forge_quant_resear.Money.{Money, from_dollars, scale}
use quant_forge_quant_resear.Models.{Order, Fill, value_or}
use quant_forge_quant_resear.Params.{HostParams}
use quant_forge_quant_resear.State.{State}

abbrev pub ns_per_hour : ℕ
ns_per_hour = 3600000000000

abbrev pub ns_per_day : ℕ
ns_per_day = 24 * ns_per_hour

-- `floor<days>` and the hour of `hh_mm_ss`; the days count from 1970-01-01, a Thursday, and Sunday is 0.
-- The instant -(n + 1) lies in the day -(q + 1) for q = n / ns_per_day, whose weekday is (3 - q) modulo 7.
unfoldable pub weekday : ℤ → ℕ
weekday (pos n) = (n / ns_per_day + 4) % 7
weekday (negsuc n) = (3 + 6 * (n / ns_per_day)) % 7

unfoldable pub hour : ℤ → ℕ
hour (pos n) = n % ns_per_day / ns_per_hour
hour (negsuc n) = (ns_per_day - 1 - n % ns_per_day) / ns_per_hour

unfoldable pub is_within_market_hours : ℤ → Bool
unfolding weekday hour
is_within_market_hours timestamp_ns =
    if weekday timestamp_ns == 0 || weekday timestamp_ns == 6
    then false
    else not (ltb (hour timestamp_ns) 9 || leb 16 (hour timestamp_ns))

abbrev pub is_true : Option Bool → Bool
is_true (some true) = true
is_true _ = false

module _ {D : Type 0} ⦃d : Double D⦄ where
  open d use {eq, mul, div, of_int, trunc_int}

  unfoldable pub is_within_market_hour_restrictions : ℤ → HostParams D → Bool
  unfolding is_within_market_hours
  is_within_market_hour_restrictions timestamp_ns host_params =
      if not (is_true host_params.market_hours_only)
      then true
      else is_within_market_hours timestamp_ns

  unfoldable pub calculate_commission : Fill D → HostParams D → Money
  calculate_commission fill host_params =
      let commission_type = value_or host_params.commission_type "" in
      let commission_value = value_or host_params.commission nought in
      if str_eq commission_type "" || eq commission_value nought
      then pos 0
      else (if str_eq commission_type "per_share"
          then scale (from_dollars commission_value) fill.quantity
          else (if str_eq commission_type "percentage"
              then scale (scale fill.price fill.quantity) commission_value
              else (if str_eq commission_type "flat"
                  then from_dollars commission_value
                  else pos 0)))

  -- The delay of the slippage models, in nanoseconds
  unfoldable pub time_based_delay : HostParams D → ℤ
  time_based_delay host_params =
      trunc_int (mul (value_or host_params.slippage nought) (of_int (pos 1000000)))

  unfoldable pub volume_based_delay : D → ℤ → HostParams D → ℤ
  volume_based_delay quantity volume host_params =
      let delay_seconds = mul (value_or host_params.slippage one) (div quantity (of_int volume)) in
      trunc_int (mul delay_seconds (of_int (pos 1000000000)))

  unfoldable pub calculate_slippage_time_ns : Order D → HostParams D → State D → ℤ
  unfolding time_based_delay volume_based_delay
  calculate_slippage_time_ns order host_params s = elim host_params.slippage_model [
    | none ↦ s.current_timestamp_ns
    | some model ↦
        if str_eq model "none"
        then s.current_timestamp_ns
        else (if str_eq model "time_based"
            then s.current_timestamp_ns +ℤ time_based_delay host_params
            else (if str_eq model "time_volume_based"
                then (elim (Dict.lookup order.symbol s.current_bar_volumes) [
                  | none ↦ s.current_timestamp_ns
                  | some volume ↦
                      s.current_timestamp_ns +ℤ volume_based_delay order.quantity volume host_params
                ])
                else s.current_timestamp_ns))
  ]
