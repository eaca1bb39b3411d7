-- ===== src/Executor/Price.antt =====
-- executor.cpp, calculate_fill_price: the price of a fill that a limit order gets.
use quant_forge_quant_resear.Common.{
  String, ◌≡◌, subst, inl, inr, true, some, arith, Bool-cases, if◌then◌else◌,
}
use quant_forge_quant_resear.Common.Int.{◌≤ℤ◌}
use quant_forge_quant_resear.Result.{ok}
use quant_forge_quant_resear.Double.{Double}
use quant_forge_quant_resear.Money
use quant_forge_quant_resear.Money.{Money}
use quant_forge_quant_resear.Models.{
  Order, ExecutionResultSuccess, success, is_buy_action, is_limit_order,
}
use quant_forge_quant_resear.Params.{HostParams}
use quant_forge_quant_resear.State.{State, get_symbol_close}
use quant_forge_quant_resear.Executor.{calculate_fill_price, success_result, execute_order}
use quant_forge_quant_resear.Executor.Success.{execute_order-Filled, bind-inv}

min_le : (a b : Money) → Money.min a b ≤ℤ a
unfolding Money.min
min_le a b = ground arith

le_max : (a b : Money) → a ≤ℤ Money.max a b
unfolding Money.max
le_max a b = ground arith

module _ {D : Type 0} ⦃d : Double D⦄ (order : Order D) (host_params : HostParams D)
    (s : State D) where
  -- The price is on the right side of the limit.
  abbrev pub Honours : Money → Money → Type 0
  Honours limit price = if is_buy_action order.action then price ≤ℤ limit else limit ≤ℤ price

  honoured :
      (limit price : Money)
      → is_limit_order order ≡ true
      → order.limit_price ≡ some limit
      → calculate_fill_price order s ≡ ok price
      → Honours limit price
  unfolding calculate_fill_price
  honoured limit price h k e =
      let (close, q, same) = bind-inv (get_symbol_close s order.symbol) _ e in
      elim (Bool-cases (is_buy_action order.action)) [
        | inl b ↦
            rw b (subst (λ p. p ≤ℤ limit) (ground (arith, same, h, k, b)) (min_le limit close))
        | inr b ↦
            rw b (subst (λ p. limit ≤ℤ p) (ground (arith, same, h, k, b)) (le_max limit close))
      ]

  -- A limit order that succeeds buys at no more than its limit, or sells at no less.
  pub limit_honoured :
      (uuid : String) (r : ExecutionResultSuccess D) (limit : Money)
      → execute_order order host_params s uuid ≡ ok (success r)
      → is_limit_order order ≡ true
      → order.limit_price ≡ some limit
      → Honours limit r.fill.price
  unfolding success_result
  limit_honoured uuid r limit done h k =
      let f = execute_order-Filled order host_params s uuid r done in
      rw f.result (honoured limit f.fill_price h k f.price_eq)
