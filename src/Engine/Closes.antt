-- ===== src/Engine/Closes.antt =====
-- The open fills that a fill closes: as the exit order book hears of them, from position_calculator.cpp, and as
-- the account closes them, in state.cpp.
use quant_forge_quant_resear.Common.{
  String, true, false, none, some, ◌≡◌, inl, inr, refl, sym, ap, ◌∙◌, List, [], ◌∷◌, ◌++◌, arith,
  eq_iff, if◌then◌else◌, Bool-cases, Option-cases,
}
use quant_forge_quant_resear.Common.Dict
use quant_forge_quant_resear.Double.{Double, IsIeee, nought, epsilon, min, abs}
use quant_forge_quant_resear.Models.{
  Fill, Position, ExecutionResultSuccess, is_buy_action, is_sell_action,
}
use quant_forge_quant_resear.State.{State, Side, buys, sells, is_side}
use quant_forge_quant_resear.Ledger.{
  closable, reduce_loop, record_fill, is_closing, populate_active_fills,
  reduce_active_buy_fills_fifo, reduce_active_sell_fills_fifo,
}
use quant_forge_quant_resear.Ledger.Fresh.{AreDistinct}
use quant_forge_quant_resear.PositionCalc.{
  closed_loop, find_buy_fill_uuids_closed_by_sell, find_sell_fill_uuids_closed_by_buy,
}
use quant_forge_quant_resear.PositionCalc.Closed.{close_all, reduce_loop-close_all}
use quant_forge_quant_resear.Engine.{closed_fills}

-- the side whose open fills a fill of a side closes
abbrev pub opposite : Side → Side
opposite buys = sells
opposite sells = buys

one_side :
    (side : Side) (action : String)
    → is_side side action ≡ true
    → is_side (opposite side) action ≡ false
unfolding is_side is_buy_action is_sell_action
one_side buys action h = let e : action ≡ "buy" = (eq_iff action "buy").0 h in rw e refl
one_side sells action h = let e : action ≡ "sell" = (eq_iff action "sell").0 h in rw e refl

module _ {D : Type 0} ⦃d : Double D⦄ where
  open d use {lt, le, sub}

  -- Fills that are open in one state as in another are closed alike, and a last one that is not open is not.
  closed_loop-same :
      (side : Side) (symbol : String) (s t : State D) (last : Fill D)
      → ((fill : Fill D) → closable side symbol t fill ≡ closable side symbol s fill)
      → closable side symbol s last ≡ none
      → (fills : List (Fill D)) (remaining : D)
      → closed_loop side symbol t (fills ++ last ∷ []) remaining
        ≡ closed_loop side symbol s fills remaining
  unfolding closed_loop
  closed_loop-same side symbol s t last same shut [] remaining =
      elim (Bool-cases (le remaining epsilon)) [
        | inl e ↦ rw (e, closed_loop)
        | inr e ↦ rw (e, same last, shut, closed_loop)
      ]
  closed_loop-same side symbol s t last same shut (fill ∷ fills) remaining =
      let ih = closed_loop-same side symbol s t last same shut fills in
      elim (Bool-cases (le remaining epsilon)) [
        | inl e ↦ rw (e, closed_loop)
        | inr e ↦ elim (Option-cases (closable side symbol s fill)) [
          | inl q ↦ rw (e, same fill, q, closed_loop) (ih remaining)
          | inr (open_quantity, q) ↦
              rw (e, same fill, q, closed_loop)
                (rw (ih (sub remaining (min open_quantity remaining))))
        ]
      ]

  record_fill-closable :
      (side : Side) (symbol : String) (result : ExecutionResultSuccess D) (s : State D)
      (fill : Fill D)
      → closable side symbol (record_fill result s) fill ≡ closable side symbol s fill
  unfolding closable record_fill
  record_fill-closable buys symbol result s fill = refl
  record_fill-closable sells symbol result s fill = refl

  opposite-shut :
      (side : Side) (symbol : String) (s : State D) (fill : Fill D)
      → is_side side fill.action ≡ true
      → closable (opposite side) symbol s fill ≡ none
  unfolding closable
  opposite-shut side symbol s fill h =
      let other = one_side side fill.action h in ground (arith, other)

  -- The quantity that a fill closes, as the calculator has it: it does not take the absolute value of a
  -- quantity above zero.
  abbrev closing_quantity : Side → Fill D → D → D
  closing_quantity buys fill held = min fill.quantity (abs held)
  closing_quantity sells fill held = min fill.quantity held

  not_le : (x y : D) → IsIeee D → lt x y ≡ true → le y x ≡ false
  not_le x y law h = elim (Bool-cases (le y x)) [
    | inl e ↦ absurd (ground (arith, h, law.not_lt y x e))
    | inr e ↦ e
  ]

  closed_fills-loop :
      (side : Side) (fill : Fill D) (position : Position D) (s : State D)
      → IsIeee D
      → is_side side fill.action ≡ true
      → Dict.lookup fill.symbol s.positions ≡ some position
      → is_closing fill position.quantity ≡ true
      → closed_fills fill s
        ≡ closed_loop
            (opposite side)
            fill.symbol
            s
            s.fills
            (closing_quantity side fill position.quantity)
  unfolding is_closing is_side closed_fills find_sell_fill_uuids_closed_by_buy
      find_buy_fill_uuids_closed_by_sell
  closed_fills-loop buys fill position s law h held closing =
      let away = not_le position.quantity nought law (rw (h, if◌then◌else◌) at closing) in
      rw
        (
          closed_fills,
          one_side buys fill.action h,
          h,
          if◌then◌else◌,
          find_sell_fill_uuids_closed_by_buy,
          held,
          away,
          if◌then◌else◌,
        )
        refl
  closed_fills-loop sells fill position s law h held closing =
      let away =
        not_le nought position.quantity law
          (rw (one_side sells fill.action h, if◌then◌else◌) at closing) in
      rw
        (
          closed_fills, h, if◌then◌else◌, find_buy_fill_uuids_closed_by_sell, held, away,
          if◌then◌else◌,
        )
        refl

  abs_positive : (a : D) → IsIeee D → lt nought a ≡ true → abs a ≡ a
  unfolding abs
  abs_positive a law h = rw (law.lt_asym nought a h, if◌then◌else◌) refl

  populated :
      (side : Side) (fill : Fill D) (held : D) (s : State D)
      → IsIeee D
      → is_side side fill.action ≡ true
      → is_closing fill held ≡ true
      → lt nought (min fill.quantity (abs held)) ≡ true
      → (populate_active_fills fill held (is_closing fill held) s).1
        ≡ reduce_loop (opposite side) fill.symbol s.fills (closing_quantity side fill held) s
  unfolding is_side populate_active_fills reduce_active_sell_fills_fifo reduce_active_buy_fills_fifo
  populated buys fill held s law h closing positive =
      rw (closing, populate_active_fills, positive, h, if◌then◌else◌, reduce_active_sell_fills_fifo)
        refl
  populated sells fill held s law h closing positive =
      let above : lt nought held ≡ true =
        unfold is_closing in rw (one_side sells fill.action h, if◌then◌else◌) at closing in
      rw
        (
          closing,
          populate_active_fills,
          positive,
          one_side sells fill.action h,
          if◌then◌else◌,
          reduce_active_buy_fills_fifo,
        )
        (ap (λ q. reduce_loop buys fill.symbol s.fills (min fill.quantity q) s)
          (abs_positive held law above))

  -- A fill against the position of its symbol, with distinct uuids and a quantity to close above zero: the
  -- account closes exactly the fills that the exit order book is told of, each by the quantity told, with what
  -- that does to the margin.
  pub populate-closed_fills :
      (side : Side) (result : ExecutionResultSuccess D) (position : Position D) (s : State D)
      → IsIeee D
      → AreDistinct (s.fills ++ result.fill ∷ [])
      → is_side side result.fill.action ≡ true
      → Dict.lookup result.fill.symbol s.positions ≡ some position
      → is_closing result.fill position.quantity ≡ true
      → lt nought (min result.fill.quantity (abs position.quantity)) ≡ true
      → (populate_active_fills result.fill position.quantity
          (is_closing result.fill position.quantity)
          (record_fill result s)).1
        ≡ close_all (opposite side) (closed_fills result.fill s) (record_fill result s)
  populate-closed_fills side result position s law distinct h held closing positive =
      let filled = record_fill result s in
      let fill = result.fill in
      let quantity = closing_quantity side fill position.quantity in
      populated side fill position.quantity filled law h closing positive
      ∙ unfold record_fill in
        reduce_loop-close_all (opposite side) fill.symbol filled.fills quantity filled distinct
        ∙ ap (λ closed. close_all (opposite side) closed filled)
            (closed_loop-same (opposite side) fill.symbol s filled fill
                (record_fill-closable (opposite side) fill.symbol result s)
                (opposite-shut side fill.symbol s fill h) s.fills quantity
              ∙ sym (closed_fills-loop side fill position s law h held closing))
