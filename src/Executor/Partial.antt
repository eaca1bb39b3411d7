-- ===== src/Executor/Partial.antt =====
-- executor.cpp, get_fillable_and_remaining_quantities: a cap on the volume, and what it leaves of an order.
use quant_forge_quant_resear.Common.{String, ◌≡◌, true, false, some, arith}
use quant_forge_quant_resear.Common.Int.{ℤ}
use quant_forge_quant_resear.Common.Dict
use quant_forge_quant_resear.Result.{ok}
use quant_forge_quant_resear.Double.{Double, IsIeee, nought}
use quant_forge_quant_resear.Models.{Order, ExecutionResultSuccess, success}
use quant_forge_quant_resear.Params.{HostParams}
use quant_forge_quant_resear.State.{State, get_symbol_volume}
use quant_forge_quant_resear.Executor.{
  get_fillable_and_remaining_quantities, success_result, execute_order,
}
use quant_forge_quant_resear.Executor.Success.{execute_order-Filled}

module _ {D : Type 0} ⦃d : Double D⦄ (order : Order D) (host_params : HostParams D)
    (s : State D) where
  open d use {lt, sub, mul, of_int}

  -- With fractional shares, the partial order that a success leaves asks for what the fill has left of the
  -- order's quantity.
  pub partial_remainder :
      (ieee : IsIeee D) (uuid : String) (r : ExecutionResultSuccess D) (rest : Order D)
      → host_params.allow_fractional_shares ≡ some true
      → execute_order order host_params s uuid ≡ ok (success r)
      → r.partial_order ≡ some rest
      → rest.quantity ≡ sub order.quantity r.fill.quantity
  unfolding success_result get_fillable_and_remaining_quantities get_symbol_volume
  partial_remainder ieee uuid r rest fractional done left =
      let f = execute_order-Filled order host_params s uuid r done in
      ground
        (arith, f.result, f.quantities, f.fillable_eq, fractional, left, ieee.lt_asym nought nought)

  -- With fractional shares and a cap, no fill has more than the capped part of the bar's volume.
  pub fill_capped :
      (ieee : IsIeee D) (uuid : String) (r : ExecutionResultSuccess D) (pct : D) (volume : ℤ)
      → host_params.allow_fractional_shares ≡ some true
      → host_params.fill_max_pct_of_volume ≡ some pct
      → Dict.lookup order.symbol s.current_bar_volumes ≡ some volume
      → execute_order order host_params s uuid ≡ ok (success r)
      → lt (mul (of_int volume) pct) r.fill.quantity ≡ false
  unfolding success_result get_fillable_and_remaining_quantities get_symbol_volume
  fill_capped ieee uuid r pct volume fractional capped traded done =
      let f = execute_order-Filled order host_params s uuid r done in
      let most = mul (of_int volume) pct in
      ground (
        arith,
        f.result,
        f.quantities,
        f.fillable_eq,
        fractional,
        capped,
        traded,
        ieee.lt_asym most most,
      )
