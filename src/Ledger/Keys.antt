-- ===== src/Ledger/Keys.antt =====
-- state.cpp, update_state: the cash, the fills and the positions.
use quant_forge_quant_resear.Common.{
  String, ◌≡◌, refl, ap, ◌∙◌, inl, inr, Bool, true, false, Option, none, some, List, [], ◌∷◌, ◌++◌,
  arith, Bool-cases, Option-cases, if_both, if◌then◌else◌, str_eq,
}
use quant_forge_quant_resear.Common.Int.{◌+ℤ◌}
use quant_forge_quant_resear.Common.Dict
use quant_forge_quant_resear.Common.Dict.{Dict}
use quant_forge_quant_resear.Double.{Double, nought, epsilon, min, abs}
use quant_forge_quant_resear.Models.{is_buy_action, Fill, ExecutionResultSuccess}
use quant_forge_quant_resear.State.{State, Side, buys, sells}
use quant_forge_quant_resear.Ledger.{
  close_fill, closable, reduce_loop, populate_active_fills, record_active_fill, record_fill,
  record_exit_orders, update_position, update_state, held_quantity, is_closing,
  reduce_active_buy_fills_fifo, reduce_active_sell_fills_fifo,
}

module _ {D : Type 0} ⦃d : Double D⦄ where
  open d use {lt, le, eq}

  -- The fields that closing and opening fills leave alone
  pub record SameAccount (s t : State D) : Type 0 where
    pub cash : t.cash ≡ s.cash
    pub fills : t.fills ≡ s.fills
    pub positions : t.positions ≡ s.positions
    pub prices : t.current_bar_prices ≡ s.current_bar_prices
    pub volumes : t.current_bar_volumes ≡ s.current_bar_volumes
    pub now : t.current_timestamp_ns ≡ s.current_timestamp_ns
    pub exits : t.exit_orders ≡ s.exit_orders
    pub peak : t.peak_equity ≡ s.peak_equity
    pub curve : t.equity_curve ≡ s.equity_curve

  SameAccount-trans : {s t u : State D} → SameAccount s t → SameAccount t u → SameAccount s u
  SameAccount-trans a b = record {
    cash = b.cash ∙ a.cash;
    fills = b.fills ∙ a.fills;
    positions = b.positions ∙ a.positions;
    prices = b.prices ∙ a.prices;
    volumes = b.volumes ∙ a.volumes;
    now = b.now ∙ a.now;
    exits = b.exits ∙ a.exits;
    peak = b.peak ∙ a.peak;
    curve = b.curve ∙ a.curve;
  }

  abbrev unchanged : (s : State D) → SameAccount s s
  unchanged s = record {
    cash = refl;
    fills = refl;
    positions = refl;
    prices = refl;
    volumes = refl;
    now = refl;
    exits = refl;
    peak = refl;
    curve = refl;
  }

  close_fill-SameAccount :
      (side : Side) (uuid : String) (to_close available : D) (s : State D)
      → SameAccount s (close_fill side uuid to_close available s)
  unfolding close_fill
  close_fill-SameAccount buys uuid to_close available s = ground arith
  close_fill-SameAccount sells uuid to_close available s = ground arith

  pub reduce_loop-SameAccount :
      (side : Side) (symbol : String) (fills : List (Fill D)) (remaining : D) (s : State D)
      → SameAccount s (reduce_loop side symbol fills remaining s)
  unfolding reduce_loop
  reduce_loop-SameAccount side symbol [] remaining s = unchanged s
  reduce_loop-SameAccount side symbol (fill ∷ fills) remaining s =
      elim (Bool-cases (le remaining epsilon)) [
        | inl e ↦ rw (e, reduce_loop) (unchanged s)
        | inr e ↦ elim (Option-cases (closable side symbol s fill)) [
          | inl q ↦ rw (e, q, reduce_loop) (reduce_loop-SameAccount side symbol fills remaining s)
          | inr (available, q) ↦
              rw (e, q, reduce_loop)
                (SameAccount-trans (close_fill-SameAccount side fill.uuid _ available s)
                  (reduce_loop-SameAccount side symbol fills _ _))
        ]
      ]

  populate-SameAccount :
      (fill : Fill D) (current_qty : D) (comparison : Bool) (s : State D)
      → SameAccount s (populate_active_fills fill current_qty comparison s).1
  unfolding populate_active_fills reduce_active_buy_fills_fifo reduce_active_sell_fills_fifo
  populate-SameAccount fill current_qty false s = unchanged s
  populate-SameAccount fill current_qty true s =
      let qty = min fill.quantity (abs current_qty) in
      if_both (SameAccount s) (lt nought qty)
        (if_both (SameAccount s) (is_buy_action fill.action)
          (reduce_loop-SameAccount sells fill.symbol s.fills qty s)
          (reduce_loop-SameAccount buys fill.symbol s.fills qty s))
        (unchanged s)

  activate-SameAccount :
      (result : ExecutionResultSuccess D) (opened : Option (String × D)) (s : State D)
      → SameAccount s (elim opened [
        | none ↦ s
        | some (fill_uuid, quantity) ↦ record_active_fill result fill_uuid quantity s
      ])
  unfolding record_active_fill
  activate-SameAccount result none s = unchanged s
  activate-SameAccount result (some (fill_uuid, quantity)) s = ground arith

  -- The account behind the open fills, once the fill is recorded and the books of open fills are done
  pub update_state_account :
      (result : ExecutionResultSuccess D) (s : State D)
      → (t : State D) × SameAccount (record_fill result s) t
        × (update_state result s
            ≡ update_position result.position (record_exit_orders result.exit_orders t))
  unfolding update_state
  update_state_account result s =
      let filled = record_fill result s in
      let qty = held_quantity result.fill.symbol filled in
      let done = populate_active_fills result.fill qty (is_closing result.fill qty) filled in
      (
        _,
        SameAccount-trans (populate-SameAccount result.fill qty (is_closing result.fill qty) filled)
            (activate-SameAccount result done.0 done.1),
        refl,
      )

  pub update_state-cash :
      (result : ExecutionResultSuccess D) (s : State D)
      → (update_state result s).cash ≡ s.cash +ℤ result.cash_delta
  unfolding record_fill update_position record_exit_orders
  update_state-cash result s = let (t, same, e) = update_state_account result s in rw e same.cash

  pub update_state-curve :
      (result : ExecutionResultSuccess D) (s : State D)
      → ((update_state result s).peak_equity ≡ s.peak_equity)
        × ((update_state result s).equity_curve ≡ s.equity_curve)
  unfolding record_fill update_position record_exit_orders
  update_state-curve result s =
      let (t, same, e) = update_state_account result s in (rw e same.peak, rw e same.curve)

  -- `update_state` adds the cash flow, appends the fill and the exit orders to the history, and leaves the
  -- bar's prices and volumes. It writes the position at its symbol, or drops it if the quantity is zero,
  -- and leaves the position of every other symbol.
  pub update_state_effect :
      (result : ExecutionResultSuccess D) (s : State D)
      → let t = update_state result s in
        (t.cash ≡ s.cash +ℤ result.cash_delta)
        × (t.fills ≡ s.fills ++ result.fill ∷ [])
        × (t.exit_orders ≡ s.exit_orders ++ result.exit_orders)
        × (t.current_bar_prices ≡ s.current_bar_prices)
        × (t.current_bar_volumes ≡ s.current_bar_volumes)
        × ((symbol : String)
            → Dict.lookup symbol t.positions ≡ (
                if str_eq result.position.symbol symbol
                then (if eq result.position.quantity nought then none else some result.position)
                else Dict.lookup symbol s.positions))
  unfolding record_fill update_position record_exit_orders
  update_state_effect result s =
      let (t, same, e) = update_state_account result s in
      rw e (
        same.cash,
        same.fills,
        ap (λ xs. xs ++ result.exit_orders) same.exits,
        same.prices,
        same.volumes,
        λ symbol. ground (
          arith,
          ap (Dict.lookup symbol) same.positions,
          Dict.lookup-insert result.position.symbol symbol result.position t.positions,
          Dict.lookup-erase result.position.symbol symbol t.positions,
        ),
      )
