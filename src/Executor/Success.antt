-- ===== src/Executor/Success.antt =====
-- executor.cpp, execute_order: the tests and the values that a success comes from.
use quant_forge_quant_resear.Common.{
  String, ◌≡◌, refl, Bool, true, false, not, ◌&&◌, none, arith, if◌then◌else◌,
}
use quant_forge_quant_resear.Result.{Result, ok, throw, unfinished, ◌>>=◌}
use quant_forge_quant_resear.Double.{Double, nought}
use quant_forge_quant_resear.Money.{Money}
use quant_forge_quant_resear.Models.{Order, ExecutionResultSuccess, success, value_or}
use quant_forge_quant_resear.Params.{HostParams}
use quant_forge_quant_resear.State.{State, has_symbol_prices, has_symbol_volume}
use quant_forge_quant_resear.Executor.{
  get_fillable_and_remaining_quantities, calculate_fill_price, source_is_inactive, validation_error,
  success_result, fill_order, size_order, execute_order,
}

pub bind-inv {ℓ κ} :
    {A : Type ℓ} {B : Type κ} (r : Result A) (f : A → Result B) {b : B}
    → (r >>= f) ≡ ok b
    → (a : A) × (r ≡ ok a) × (f a ≡ ok b)
bind-inv (ok a) f h = (a, refl, h)
bind-inv (throw e) f h = cc
bind-inv unfinished f h = cc

module _ {D : Type 0} ⦃d : Double D⦄ (order : Order D) (host_params : HostParams D)
    (s : State D) where
  open d use {lt, le, floor}

  abbrev pub is_fractional : Bool
  is_fractional = value_or host_params.allow_fractional_shares false

  -- The quantities and the price that a success comes from, and the tests that it has passed.
  pub record Filled (uuid : String) (r : ExecutionResultSuccess D) : Type 0 where
    pub asked : D
    pub remaining : D
    pub fillable : D
    pub fill_price : Money
    pub positive : le order.quantity nought ≡ false
    pub priced : has_symbol_prices s order.symbol ≡ true
    pub traded : has_symbol_volume s order.symbol ≡ true
    pub active : source_is_inactive order s ≡ false
    pub quantities :
        get_fillable_and_remaining_quantities order host_params s ≡ ok (asked, remaining)
    pub fillable_eq : fillable ≡ (if is_fractional then asked else floor asked)
    pub whole : (not is_fractional && le fillable nought) ≡ false
    pub price_eq : calculate_fill_price order s ≡ ok fill_price
    pub valid : validation_error order host_params s fillable fill_price ≡ none
    pub result : r ≡ success_result order host_params s uuid fillable remaining fill_price

  fill_order-inv :
      (uuid : String) (fillable remaining : D) (r : ExecutionResultSuccess D)
      → fill_order order host_params s uuid fillable remaining ≡ ok (success r)
      → (p : Money) × (calculate_fill_price order s ≡ ok p)
        × (validation_error order host_params s fillable p ≡ none)
        × (r ≡ success_result order host_params s uuid fillable remaining p)
  unfolding fill_order
  fill_order-inv uuid fillable remaining r h =
      let (p, e, q) = bind-inv (calculate_fill_price order s) _ h in
      (p, e, ground arith, ground arith)

  size_order-inv :
      (uuid : String) (r : ExecutionResultSuccess D)
      → size_order order host_params s uuid ≡ ok (success r)
      → (asked : D) × (remaining : D) × (get_fillable_and_remaining_quantities order host_params s
          ≡ ok (asked, remaining))
        × (let fillable = if is_fractional then asked else floor asked in
            ((not is_fractional && le fillable nought) ≡ false)
            × (fill_order order host_params s uuid fillable remaining ≡ ok (success r)))
  unfolding size_order
  size_order-inv uuid r h =
      let (q, e, k) = bind-inv (get_fillable_and_remaining_quantities order host_params s) _ h in
      (q.0, q.1, e, (ground arith, ground arith))

  pub execute_order-Filled :
      (uuid : String) (r : ExecutionResultSuccess D)
      → execute_order order host_params s uuid ≡ ok (success r)
      → Filled uuid r
  unfolding execute_order
  execute_order-Filled uuid r h =
      let sized : size_order order host_params s uuid ≡ ok (success r) = ground arith in
      let (asked, remaining, e, (whole, filled)) = size_order-inv uuid r sized in
      let quantity : D = if is_fractional then asked else floor asked in
      let (p, price, valid, same) = fill_order-inv uuid quantity remaining r filled in
      record {
        asked = asked;
        remaining = remaining;
        fillable = quantity;
        fill_price = p;
        positive = ground arith;
        priced = ground arith;
        traded = ground arith;
        active = ground arith;
        quantities = e;
        fillable_eq = refl {a = quantity};
        whole = whole;
        price_eq = price;
        valid = valid;
        result = same;
      }
