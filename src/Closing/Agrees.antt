-- ===== src/Closing/Agrees.antt =====
-- executor.cpp, calculate_closing_margin_info, beside the reductions of state.cpp: the margin of a closing.
use quant_forge_quant_resear.Common.{
  String, ◌≡◌, refl, ap, ◌∙◌, inl, inr, Bool, true, false, List, [], ◌∷◌, arith, Bool-cases,
  Option-cases, if◌then◌else◌,
}
use quant_forge_quant_resear.Common.Int.{ℤ, pos, ◌+ℤ◌, ◌-ℤ◌, int_laws}
use quant_forge_quant_resear.Common.Dict
use quant_forge_quant_resear.Double.{Double, epsilon, min}
use quant_forge_quant_resear.Money.{Money, scale}
use quant_forge_quant_resear.Models.{Order, Fill, is_buy_action, is_sell_action}
use quant_forge_quant_resear.State.{State, Side, buys, sells}
use quant_forge_quant_resear.Ledger.{
  close_fill, reduce_active_fill, closable, reduce_loop, reduce_active_buy_fills_fifo,
  reduce_active_sell_fills_fifo,
}
use quant_forge_quant_resear.Ledger.Fresh.{
  IsFresh, AreDistinct, closable-close_fill, margin-close_fill,
}
use quant_forge_quant_resear.Closing.{
  ClosingMarginInfo, released_margin, realized_on, closing_loop, calculate_closing_margin_info,
}

minus_plus : (a b : ℤ) → a -ℤ b +ℤ b ≡ a
minus_plus a b = omega int_laws

+ℤ_zero : (a : ℤ) → a +ℤ pos 0 ≡ a
+ℤ_zero a = omega int_laws

regroup : (t i r : ℤ) → t +ℤ (i +ℤ r) ≡ t +ℤ r +ℤ i
regroup t i r = omega int_laws

abbrev nothing_closed : ClosingMarginInfo
nothing_closed = record { margin_to_release = pos 0; realized_pnl = pos 0 }

module _ {D : Type 0} ⦃d : Double D⦄ where
  open d use {le, sub}

  side_margin :
      (side : Side) (uuid : String) (to_close available : D) (s : State D)
      → let t = reduce_active_fill side uuid to_close available s in
        (t.margin_in_use ≡ s.margin_in_use)
        × (t.active_margin_for_fills ≡ s.active_margin_for_fills)
  unfolding reduce_active_fill
  side_margin buys uuid to_close available s = (refl, refl)
  side_margin sells uuid to_close available s = (refl, refl)

  close_fill-margin_in_use :
      (side : Side) (uuid : String) (to_close available : D) (s : State D)
      → (close_fill side uuid to_close available s).margin_in_use
          +ℤ released_margin uuid to_close available s
        ≡ s.margin_in_use
  unfolding close_fill released_margin
  close_fill-margin_in_use side uuid to_close available s =
      elim (Option-cases (Dict.lookup uuid s.active_margin_for_fills)) [
        | inl e ↦
            ground (arith, e, +ℤ_zero s.margin_in_use, side_margin side uuid to_close available s)
        | inr (m, e) ↦ ground (
          arith,
          e,
          side_margin side uuid to_close available s,
          minus_plus s.margin_in_use (scale m (d.div to_close available)),
        )
      ]

  reduce_loop-stops :
      (side : Side) (symbol : String) (fills : List (Fill D)) (remaining : D) (s : State D)
      → le remaining epsilon ≡ true
      → reduce_loop side symbol fills remaining s ≡ s
  unfolding reduce_loop
  reduce_loop-stops side symbol [] remaining s e = refl
  reduce_loop-stops side symbol (fill ∷ fills) remaining s e = rw (e, reduce_loop)

  module _ (side : Side) (is_sell : Bool) (symbol : String) (price : Money) where
    closing_loop-close_fill :
        (uuid : String) (to_close available : D) (s : State D) (fills : List (Fill D))
        (remaining : D) (info : ClosingMarginInfo)
        → IsFresh uuid fills
        → closing_loop side is_sell symbol price
            (close_fill side uuid to_close available s)
            fills
            remaining
            info
          ≡ closing_loop side is_sell symbol price s fills remaining info
    unfolding closing_loop released_margin
    closing_loop-close_fill uuid to_close available s [] remaining info h = refl
    closing_loop-close_fill uuid to_close available s (fill ∷ fills) remaining info h =
        let same =
          closable-close_fill side uuid fill.uuid to_close available s h.0 symbol fill refl in
        let kept = margin-close_fill side uuid fill.uuid to_close available s h.0 in
        elim (Bool-cases (le remaining epsilon)) [
          | inl e ↦ rw (e, closing_loop)
          | inr e ↦ elim (Option-cases (closable side symbol s fill)) [
            | inl q ↦
                rw (e, same, q, closing_loop)
                  (closing_loop-close_fill uuid to_close available s fills remaining info h.1)
            | inr (open_quantity, q) ↦
                rw (e, same, q, kept, closing_loop, released_margin)
                  (closing_loop-close_fill uuid to_close available s fills _ _ h.1)
          ]
        ]

    reduce_loop-margin_in_use :
        (fills : List (Fill D)) (remaining : D) (s : State D) (info : ClosingMarginInfo)
        → AreDistinct fills
        → (reduce_loop side symbol fills remaining s).margin_in_use
            +ℤ (closing_loop side is_sell symbol price s fills remaining info).margin_to_release
          ≡ s.margin_in_use +ℤ info.margin_to_release
    unfolding reduce_loop closing_loop
    reduce_loop-margin_in_use [] remaining s info h = refl
    reduce_loop-margin_in_use (fill ∷ fills) remaining s info h =
        elim (Bool-cases (le remaining epsilon)) [
          | inl e ↦ rw (e, reduce_loop, closing_loop)
          | inr e ↦ elim (Option-cases (closable side symbol s fill)) [
            | inl q ↦
                rw (e, q, reduce_loop, closing_loop)
                  (reduce_loop-margin_in_use fills remaining s info h.1)
            | inr (available, q) ↦
                let quantity = min available remaining in
                let t = close_fill side fill.uuid quantity available s in
                let more : ClosingMarginInfo = record {
                  margin_to_release =
                      info.margin_to_release +ℤ released_margin fill.uuid quantity available s;
                  realized_pnl = info.realized_pnl +ℤ realized_on is_sell price fill.price quantity;
                } in
                let ih = reduce_loop-margin_in_use fills (sub remaining quantity) t more h.1 in
                let freed = close_fill-margin_in_use side fill.uuid quantity available s in
                rw (e, q, reduce_loop, closing_loop)
                  (rw
                    (← closing_loop-close_fill fill.uuid quantity available s fills
                      (sub remaining quantity) more h.0)
                    (ih
                      ∙ regroup t.margin_in_use info.margin_to_release _
                      ∙ ap (λ m. m +ℤ info.margin_to_release) freed))
          ]
        ]

  -- Closing a quantity: a sell closes the oldest buys, a buy the oldest sells.
  abbrev pub close_quantity : Order D → D → State D → State D
  close_quantity order quantity s =
      if is_sell_action order.action
      then reduce_active_buy_fills_fifo order.symbol quantity s
      else (if is_buy_action order.action
          then reduce_active_sell_fills_fifo order.symbol quantity s
          else s)

  guarded :
      (side : Side) (is_sell : Bool) (symbol : String) (price : Money) (quantity : D) (s : State D)
      → AreDistinct s.fills
      → (reduce_loop side symbol s.fills quantity s).margin_in_use
          +ℤ (if le quantity epsilon
              then nothing_closed
              else closing_loop side is_sell symbol price s s.fills quantity
                  nothing_closed).margin_to_release
        ≡ s.margin_in_use
  guarded side is_sell symbol price quantity s h = elim (Bool-cases (le quantity epsilon)) [
    | inl e ↦ rw (e, reduce_loop-stops side symbol s.fills quantity s e) (+ℤ_zero s.margin_in_use)
    | inr e ↦ rw e (
        reduce_loop-margin_in_use side is_sell symbol price s.fills quantity s nothing_closed h
        ∙ +ℤ_zero s.margin_in_use)
  ]

  -- Where all fills have distinct uuids, the margin that closing a quantity releases, as the executor reckons
  -- it, is what the account's margin in use falls by when it closes that quantity.
  pub closing-frees-margin :
      (order : Order D) (price : Money) (quantity : D) (s : State D)
      → AreDistinct s.fills
      → (close_quantity order quantity s).margin_in_use
          +ℤ (calculate_closing_margin_info order price quantity s).margin_to_release
        ≡ s.margin_in_use
  unfolding calculate_closing_margin_info reduce_active_buy_fills_fifo reduce_active_sell_fills_fifo
  closing-frees-margin order price quantity s h = elim (Bool-cases (is_sell_action order.action)) [
    | inl e ↦ rw e (guarded buys true order.symbol price quantity s h)
    | inr e ↦ elim (Bool-cases (is_buy_action order.action)) [
      | inl q ↦ rw (e, q) (guarded sells false order.symbol price quantity s h)
      | inr q ↦
          rw (e, q)
            (elim (Bool-cases (le quantity epsilon)) [
              | inl r ↦ rw r (+ℤ_zero s.margin_in_use)
              | inr r ↦ rw r (+ℤ_zero s.margin_in_use)
            ])
    ]
  ]
