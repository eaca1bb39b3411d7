-- ===== src/Executor/Total.antt =====
-- executor.cpp, execute_order: its calls of `std::map::at` and the tests before them.
use quant_forge_quant_resear.Common.{String, ◌≡◌, refl, Bool, true, false, arith, if◌then◌else◌}
use quant_forge_quant_resear.Common.Dict
use quant_forge_quant_resear.Result.{Result, Returns, returned, returned-Returns, returned-bind}
use quant_forge_quant_resear.Double.{Double}
use quant_forge_quant_resear.Models.{Order}
use quant_forge_quant_resear.Params.{HostParams}
use quant_forge_quant_resear.State.{
  State, get_symbol_close, get_symbol_volume, has_symbol_prices, has_symbol_volume,
}
use quant_forge_quant_resear.Executor.{
  get_fillable_and_remaining_quantities, calculate_fill_price, fill_order, size_order,
  execute_order,
}

module _ {D : Type 0} ⦃d : Double D⦄ (order : Order D) (host_params : HostParams D)
    (s : State D) where
  quantities_returned :
      has_symbol_volume s order.symbol ≡ true
      → returned (get_fillable_and_remaining_quantities order host_params s) ≡ true
  unfolding has_symbol_volume get_symbol_volume get_fillable_and_remaining_quantities
  quantities_returned h =
      let (volume, e) = Dict.contains-some order.symbol s.current_bar_volumes h in ground arith

  price_returned :
      has_symbol_prices s order.symbol ≡ true → returned (calculate_fill_price order s) ≡ true
  unfolding has_symbol_prices get_symbol_close calculate_fill_price
  price_returned h = let (bar, e) = Dict.contains-some order.symbol s.current_bar_prices h in rw e

  fill_order-returned :
      (uuid : String) (fillable remaining : D)
      → has_symbol_prices s order.symbol ≡ true
      → returned (fill_order order host_params s uuid fillable remaining) ≡ true
  unfolding fill_order
  fill_order-returned uuid fillable remaining h = returned-bind _ _ (price_returned h) (λ p. refl)

  if_returned {ℓ} :
      {A : Type ℓ} (x y : Result A) (b : Bool)
      → (b ≡ true → returned x ≡ true)
      → (b ≡ false → returned y ≡ true)
      → returned (if b then x else y) ≡ true
  if_returned x y true p q = p refl
  if_returned x y false p q = q refl

  size_order-returned :
      (uuid : String)
      → has_symbol_prices s order.symbol ≡ true
      → has_symbol_volume s order.symbol ≡ true
      → returned (size_order order host_params s uuid) ≡ true
  unfolding size_order
  size_order-returned uuid h k = returned-bind _ _ (quantities_returned k) (λ q.
      ground
        (arith, fill_order-returned uuid q.0 q.1 h, fill_order-returned uuid (d.floor q.0) q.1 h))

  -- For every order, parameters and state `execute_order` returns a success or an error; it throws
  -- nothing.
  pub execute_order-Returns : (uuid : String) → Returns (execute_order order host_params s uuid)
  unfolding execute_order
  execute_order-Returns uuid =
      returned-Returns (execute_order order host_params s uuid)
        (ground (arith, size_order-returned uuid))
