-- ===== src/Executor/Cash.antt =====
-- executor.cpp, execute_order and validate_margin: leverage, short selling, margin and cash of a success.
use quant_forge_quant_resear.Common.{
  String, ◌≡◌, refl, sym, ap, subst, inl, inr, true, false, ◌&&◌, ◌||◌, none, some, arith,
  Bool-cases, eq_iff, if◌then◌else◌,
}
use quant_forge_quant_resear.Common.Int.{ℤ, pos, ◌+ℤ◌, ◌-ℤ◌, ◌≤ℤ◌, ltb_ℤ, int_laws}
use quant_forge_quant_resear.Common.Dict
use quant_forge_quant_resear.Result.{ok}
use quant_forge_quant_resear.Double.{Double, IsIeee, nought, one, epsilon, abs}
use quant_forge_quant_resear.Money.{Money}
use quant_forge_quant_resear.Models.{
  Order, Position, ExecutionResultSuccess, success, is_buy_action, is_sell_action, value_or,
}
use quant_forge_quant_resear.Params.{HostParams}
use quant_forge_quant_resear.State.{State, has_symbol_position, get_symbol_position_or}
use quant_forge_quant_resear.Equity.{calculate_available_margin}
use quant_forge_quant_resear.PositionCalc.{calculate_position, settle}
use quant_forge_quant_resear.Closing.{calculate_closing_margin_info}
use quant_forge_quant_resear.Margin.{validate_margin, validate_closing}
use quant_forge_quant_resear.Ledger.{update_state}
use quant_forge_quant_resear.Ledger.Keys.{update_state-cash}
use quant_forge_quant_resear.Executor.{
  current_quantity, new_quantity, opening_quantity, commission_on, margin_on, validation_error,
  success_result, calculate_cash_delta, execute_order,
}
use quant_forge_quant_resear.Executor.Success.{execute_order-Filled}

-- The two actions exclude each other.
pub sell_not_buy : (action : String) → is_sell_action action ≡ true → is_buy_action action ≡ false
unfolding is_sell_action is_buy_action
sell_not_buy action h = let e : action ≡ "sell" = (eq_iff action "sell").0 h in rw e refl

ltb_ℤ-false : (a b : ℤ) → ltb_ℤ a b ≡ false → b ≤ℤ a
ltb_ℤ-false a b h = ground arith

covered :
    (cash gain c : ℤ)
    → (ltb_ℤ (gain -ℤ c) (pos 0) && ltb_ℤ cash (pos 0 -ℤ (gain -ℤ c))) ≡ false
    → pos 0 ≤ℤ cash
    → pos 0 ≤ℤ cash +ℤ (gain -ℤ pos 0 -ℤ c)
covered cash gain c h k = elim (Bool-cases (ltb_ℤ (gain -ℤ c) (pos 0))) [
  | inl e ↦ let rich = ltb_ℤ-false cash (pos 0 -ℤ (gain -ℤ c)) (rw e at h) in omega int_laws
  | inr e ↦ let up = ltb_ℤ-false (gain -ℤ c) (pos 0) e in omega int_laws
]

module _ {D : Type 0} ⦃d : Double D⦄ (order : Order D) (host_params : HostParams D)
    (s : State D) where
  open d use {lt, le}

  module _ (uuid : String) (r : ExecutionResultSuccess D)
      (done : execute_order order host_params s uuid ≡ ok (success r)) where
    -- A success has a leverage that is neither below 1 nor above the maximum allowed (1 by default).
    leverage_bounds :
        (lt r.leverage one ≡ false)
        × (lt (value_or host_params.max_leverage one) r.leverage ≡ false)
    unfolding validation_error validate_margin success_result
    leverage_bounds =
        let f = execute_order-Filled order host_params s uuid r done in
        ground (arith, f.valid, f.result)

  affordable_at :
      (uuid : String) (fillable remaining : D) (price : Money)
      → validation_error order host_params s fillable price ≡ none
      → le (opening_quantity order s fillable) epsilon ≡ false
      → margin_on order host_params price (opening_quantity order s fillable)
          +ℤ commission_on order host_params s fillable price
        ≤ℤ calculate_available_margin s
  unfolding validation_error validate_margin
  affordable_at uuid fillable remaining price valid opens =
      let m = margin_on order host_params price (opening_quantity order s fillable) in
      let c = commission_on order host_params s fillable price in
      ltb_ℤ-false (calculate_available_margin s) (m +ℤ c) (ground arith)

  -- Where a success opens more than EPSILON of a position, its margin and commission fit in the margin
  -- that the account has available.
  pub opening_affordable :
      (uuid : String) (r : ExecutionResultSuccess D)
      → execute_order order host_params s uuid ≡ ok (success r)
      → le (opening_quantity order s r.fill.quantity) epsilon ≡ false
      → r.margin_used +ℤ commission_on order host_params s r.fill.quantity r.fill.price
        ≤ℤ calculate_available_margin s
  unfolding success_result
  opening_affordable uuid r done =
      let f = execute_order-Filled order host_params s uuid r done in
      subst
        (λ t.
          le (opening_quantity order s t.fill.quantity) epsilon ≡ false
          → t.margin_used +ℤ commission_on order host_params s t.fill.quantity t.fill.price
            ≤ℤ calculate_available_margin s)
        (sym f.result) (affordable_at uuid f.fillable f.remaining f.fill_price f.valid)

  abbrev none_held : Position D
  none_held = record { symbol = order.symbol; quantity = nought; average_price = pos 0 }

  held-current :
      (get_symbol_position_or s order.symbol none_held).quantity ≡ current_quantity order s
  unfolding current_quantity has_symbol_position get_symbol_position_or
  held-current = ground (
    arith,
    Dict.contains-lookup order.symbol s.positions,
    Dict.lookup-contains order.symbol s.positions,
  )

  sold_quantity :
      (ieee : IsIeee D) (fillable : D) (price : Money)
      → is_sell_action order.action ≡ true
      → (calculate_position order fillable price s).quantity ≡ (
          if lt (abs (new_quantity order s fillable)) epsilon
          then nought
          else new_quantity order s fillable)
  unfolding calculate_position settle new_quantity
  sold_quantity ieee fillable price sell = ground (
    arith,
    held-current,
    sell,
    sell_not_buy order.action sell,
    ieee.add_neg (current_quantity order s) fillable,
  )

  -- With short selling forbidden, no sell that succeeds leaves a negative position.
  pub no_short_position :
      (ieee : IsIeee D) (uuid : String) (r : ExecutionResultSuccess D)
      → execute_order order host_params s uuid ≡ ok (success r)
      → host_params.allow_short_selling ≡ some false
      → is_sell_action order.action ≡ true
      → lt r.position.quantity nought ≡ false
  unfolding success_result validation_error validate_margin
  no_short_position ieee uuid r done forbidden sell =
      let f = execute_order-Filled order host_params s uuid r done in
      rw (f.result, sold_quantity ieee f.fillable f.fill_price sell)
        (ground (arith, f.valid, ieee.lt_asym nought nought, forbidden, sell))

  -- The cash flow of a fill that only closes: what it releases and earns, less the commission.
  pub closing_cash :
      (ieee : IsIeee D) (fillable : D) (price commission margin : Money)
      → (is_buy_action order.action || is_sell_action order.action) ≡ true
      → calculate_cash_delta order price fillable commission nought margin s ≡ (
          let info = calculate_closing_margin_info order price fillable s in
          info.margin_to_release +ℤ info.realized_pnl -ℤ margin -ℤ commission)
  unfolding calculate_cash_delta
  closing_cash ieee fillable price commission margin h = rw (ieee.sub_nought fillable, h)

  validated_closing :
      (ieee : IsIeee D) (fillable : D) (price : Money)
      → validation_error order host_params s fillable price ≡ none
      → opening_quantity order s fillable ≡ nought
      → validate_closing order price (commission_on order host_params s fillable price) s fillable
        ≡ none
  unfolding validation_error validate_margin
  validated_closing ieee fillable price valid closes =
      ground (
        arith,
        ieee.epsilon_pos,
        ieee.le_of_lt nought epsilon,
        closes,
        ap (λ q. le q epsilon) closes,
      )

  closing_nonneg_at :
      (ieee : IsIeee D) (fillable : D) (price : Money)
      → (is_buy_action order.action || is_sell_action order.action) ≡ true
      → validation_error order host_params s fillable price ≡ none
      → opening_quantity order s fillable ≡ nought
      → pos 0 ≤ℤ s.cash
      → pos 0
        ≤ℤ s.cash
          +ℤ calculate_cash_delta order price fillable
              (commission_on order host_params s fillable price)
              (opening_quantity order s fillable)
              (margin_on order host_params price (opening_quantity order s fillable))
              s
  unfolding validate_closing margin_on
  closing_nonneg_at ieee fillable price acts valid closes funded =
      let info = calculate_closing_margin_info order price fillable s in
      let c = commission_on order host_params s fillable price in
      let gain = info.margin_to_release +ℤ info.realized_pnl in
      let checked = validated_closing ieee fillable price valid closes in
      rw
        (
          closes,
          closing_cash ieee fillable price c _ acts,
          ieee.lt_asym nought epsilon ieee.epsilon_pos,
        )
        (covered s.cash gain c (ground (arith, checked)) funded)

  -- A success that opens nothing leaves the cash of an account that had no debt at zero or above.
  pub closing_keeps_cash :
      (ieee : IsIeee D) (uuid : String) (r : ExecutionResultSuccess D)
      → execute_order order host_params s uuid ≡ ok (success r)
      → (is_buy_action order.action || is_sell_action order.action) ≡ true
      → opening_quantity order s r.fill.quantity ≡ nought
      → pos 0 ≤ℤ s.cash
      → pos 0 ≤ℤ (update_state r s).cash
  unfolding success_result
  closing_keeps_cash ieee uuid r done acts closes funded =
      let f = execute_order-Filled order host_params s uuid r done in
      rw (update_state-cash r s, f.result)
        (closing_nonneg_at ieee f.fillable f.fill_price acts f.valid (rw f.result at closes) funded)
