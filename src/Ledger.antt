-- ===== src/Ledger.antt =====
-- src/simulators/back_test/state.cpp: what a fill does to the account and to its open fills.
pub mod Keys
pub mod Fresh
use quant_forge_quant_resear.Common.{
  String, Bool, true, false, ◌&&◌, Option, none, some, List, [], ◌∷◌, ◌++◌, str_eq, if◌then◌else◌,
}
use quant_forge_quant_resear.Common.Int.{ℤ, pos, ◌+ℤ◌, ◌-ℤ◌}
use quant_forge_quant_resear.Common.Dict
use quant_forge_quant_resear.Common.Dict.{Dict}
use quant_forge_quant_resear.Result.{Result, or_out_of_range, ◌>>=◌, ok}
use quant_forge_quant_resear.Double.{Double, nought, epsilon, min, abs}
use quant_forge_quant_resear.Money.{Money, from_dollars, to_dollars, scale}
use quant_forge_quant_resear.Models.{
  Fill, ExitOrder, Position, EquitySnapshot, ExecutionResultSuccess, is_buy_action, is_sell_action,
}
use quant_forge_quant_resear.Params.{HostParams}
use quant_forge_quant_resear.State.{
  State, Side, buys, sells, is_side, active_fills, set_active_fills,
}

module _ {D : Type 0} ⦃d : Double D⦄ where
  open d use {lt, le, eq, sub, div}

  -- What a fill frees of its margin, once `to_close` of its `available` quantity is closed.
  unfoldable pub release_margin : String → D → D → State D → State D
  release_margin uuid to_close available s = elim (Dict.lookup uuid s.active_margin_for_fills) [
    | none ↦ s
    | some total_margin_for_fill ↦
        let margin_to_free = scale total_margin_for_fill (div to_close available) in
        let left = total_margin_for_fill -ℤ margin_to_free in
        let spent = le (to_dollars left) epsilon in
        record s {
          margin_in_use = s.margin_in_use -ℤ margin_to_free;
          active_margin_for_fills =
              if spent
              then Dict.erase uuid s.active_margin_for_fills
              else Dict.insert uuid left s.active_margin_for_fills;
          active_leverage_for_fills =
              if spent
              then Dict.erase uuid s.active_leverage_for_fills
              else s.active_leverage_for_fills;
        }
  ]

  -- The quantity of an open fill falls by `to_close`, and a rest of at most EPSILON is dropped.
  unfoldable pub reduce_active_fill : Side → String → D → D → State D → State D
  reduce_active_fill side uuid to_close available s =
      let left = sub available to_close in
      set_active_fills side
        (if le left epsilon
          then Dict.erase uuid (active_fills side s)
          else Dict.insert uuid left (active_fills side s))
        s

  unfoldable pub close_fill : Side → String → D → D → State D → State D
  unfolding reduce_active_fill release_margin
  close_fill side uuid to_close available s =
      release_margin uuid to_close available (reduce_active_fill side uuid to_close available s)

  -- The quantity that a fill has open, if the loop closes fills of its symbol and side.
  unfoldable pub closable : Side → String → State D → Fill D → Option D
  closable side symbol s fill =
      if str_eq fill.symbol symbol && is_side side fill.action
      then Dict.lookup fill.uuid (active_fills side s)
      else none

  -- The loop over the fills, oldest first; it stops once at most EPSILON remains.
  unfoldable pub reduce_loop : Side → String → List (Fill D) → D → State D → State D
  reduce_loop side symbol [] remaining s = s
  reduce_loop side symbol (fill ∷ fills) remaining s = elim (le remaining epsilon) [
    | true ↦ s
    | false ↦ elim (closable side symbol s fill) [
      | none ↦ reduce_loop side symbol fills remaining s
      | some available ↦
          reduce_loop side symbol fills (sub remaining (min available remaining))
            (close_fill side fill.uuid (min available remaining) available s)
    ]
  ]

  unfoldable pub reduce_active_buy_fills_fifo : String → D → State D → State D
  unfolding reduce_loop
  reduce_active_buy_fills_fifo symbol quantity s = reduce_loop buys symbol s.fills quantity s

  unfoldable pub reduce_active_sell_fills_fifo : String → D → State D → State D
  unfolding reduce_loop
  reduce_active_sell_fills_fifo symbol quantity s = reduce_loop sells symbol s.fills quantity s

  -- The part of a fill that opens, with the open fills of the other side reduced by the rest.
  unfoldable pub populate_active_fills : Fill D → D → Bool → State D → Option (String × D) × State D
  populate_active_fills fill current_qty comparison s = elim comparison [
    | false ↦ (some (fill.uuid, fill.quantity), s)
    | true ↦
        let diff_qty = min fill.quantity (abs current_qty) in
        let reduced =
          if lt nought diff_qty
          then (if is_buy_action fill.action
              then reduce_active_sell_fills_fifo fill.symbol diff_qty s
              else reduce_active_buy_fills_fifo fill.symbol diff_qty s)
          else s in
        let open_qty = sub fill.quantity diff_qty in
        (if lt epsilon open_qty then some (fill.uuid, open_qty) else none, reduced)
  ]

  unfoldable pub record_active_fill : ExecutionResultSuccess D → String → D → State D → State D
  record_active_fill result fill_uuid quantity s =
      let proportional_margin = scale result.margin_used (div quantity result.fill.quantity) in
      record s {
        active_buy_fills =
            if is_buy_action result.fill.action
            then Dict.insert fill_uuid quantity s.active_buy_fills
            else s.active_buy_fills;
        active_sell_fills =
            if is_buy_action result.fill.action
            then s.active_sell_fills
            else (if is_sell_action result.fill.action
                then Dict.insert fill_uuid quantity s.active_sell_fills
                else s.active_sell_fills);
        active_margin_for_fills =
            Dict.insert fill_uuid proportional_margin s.active_margin_for_fills;
        active_leverage_for_fills =
            Dict.insert fill_uuid result.leverage s.active_leverage_for_fills;
        margin_in_use = s.margin_in_use +ℤ proportional_margin;
      }

  unfoldable pub record_fill : ExecutionResultSuccess D → State D → State D
  record_fill result s = record s {
    cash = s.cash +ℤ result.cash_delta;
    fills = s.fills ++ result.fill ∷ [];
    new_fills = s.new_fills ++ result.fill ∷ [];
  }

  unfoldable pub record_exit_orders : List (ExitOrder D) → State D → State D
  record_exit_orders exit_orders s = record s {
    exit_orders = s.exit_orders ++ exit_orders;
    new_exit_orders = s.new_exit_orders ++ exit_orders;
  }

  unfoldable pub update_position : Position D → State D → State D
  update_position position s = record s {
    positions =
        if eq position.quantity nought
        then Dict.erase position.symbol s.positions
        else Dict.insert position.symbol position s.positions;
  }

  abbrev pub held_quantity : String → State D → D
  held_quantity symbol s = elim (Dict.lookup symbol s.positions) [
    | none ↦ nought
    | some p ↦ p.quantity
  ]

  -- `comparison`: the fill goes against the position held.
  unfoldable pub is_closing : Fill D → D → Bool
  is_closing fill current_qty =
      if is_buy_action fill.action then lt current_qty nought else lt nought current_qty

  unfoldable pub update_state : ExecutionResultSuccess D → State D → State D
  unfolding populate_active_fills record_active_fill record_fill record_exit_orders update_position
      is_closing
  update_state result s =
      let filled = record_fill result s in
      let current_qty = held_quantity result.fill.symbol filled in
      let (opened, reduced) =
        populate_active_fills result.fill current_qty (is_closing result.fill current_qty) filled in
      let activated : State D = elim opened [
        | none ↦ reduced
        | some (fill_uuid, quantity) ↦ record_active_fill result fill_uuid quantity reduced
      ] in
      update_position result.position (record_exit_orders result.exit_orders activated)

-- recalculate_margin_in_use: the sum over the open fills
unfoldable pub total_margin : Dict Money → Money → Money
total_margin [] acc = acc
total_margin ((uuid, margin) ∷ m) acc = total_margin m (acc +ℤ margin)

unfoldable pub recalculate_margin_in_use : {D : Type 0} → State D → Money
unfolding total_margin
recalculate_margin_in_use s = total_margin s.active_margin_for_fills (pos 0)
