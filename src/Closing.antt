-- ===== src/Closing.antt =====
-- src/simulators/back_test/executor.cpp, calculate_closing_margin_info: what closing a quantity releases
-- and earns, over the open fills of the other side, oldest first.
pub mod Agrees
use quant_forge_quant_resear.Common.{
  String, Bool, true, false, none, some, List, [], ◌∷◌, if◌then◌else◌,
}
use quant_forge_quant_resear.Common.Int.{pos, ◌+ℤ◌, ◌-ℤ◌}
use quant_forge_quant_resear.Common.Dict
use quant_forge_quant_resear.Double.{Double, epsilon, min}
use quant_forge_quant_resear.Money.{Money, scale}
use quant_forge_quant_resear.Models.{Order, Fill, is_buy_action, is_sell_action}
use quant_forge_quant_resear.State.{State, Side, buys, sells}
use quant_forge_quant_resear.Ledger.{closable}

pub record ClosingMarginInfo : Type 0 where
  pub margin_to_release : Money
  pub realized_pnl : Money

module _ {D : Type 0} ⦃d : Double D⦄ where
  open d use {le, sub, div}

  -- The margin of one open fill that closing `to_close` of its `available` quantity releases.
  unfoldable pub released_margin : String → D → D → State D → Money
  released_margin uuid to_close available s = elim (Dict.lookup uuid s.active_margin_for_fills) [
    | none ↦ pos 0
    | some margin ↦ scale margin (div to_close available)
  ]

  unfoldable pub realized_on : Bool → Money → Money → D → Money
  realized_on is_sell fill_price entry_price to_close =
      if is_sell
      then scale (fill_price -ℤ entry_price) to_close
      else scale (entry_price -ℤ fill_price) to_close

  -- The loop over the fills, oldest first, with the sums so far.
  unfoldable pub closing_loop :
      Side
      → Bool
      → String
      → Money
      → State D
      → List (Fill D)
      → D
      → ClosingMarginInfo
      → ClosingMarginInfo
  closing_loop side is_sell symbol fill_price s [] remaining info = info
  closing_loop side is_sell symbol fill_price s (fill ∷ fills) remaining info =
      elim (le remaining epsilon) [
        | true ↦ info
        | false ↦ elim (closable side symbol s fill) [
          | none ↦ closing_loop side is_sell symbol fill_price s fills remaining info
          | some available ↦
              let to_close = min available remaining in
              closing_loop side is_sell symbol fill_price s fills (sub remaining to_close) (record {
                margin_to_release =
                    info.margin_to_release +ℤ released_margin fill.uuid to_close available s;
                realized_pnl =
                    info.realized_pnl +ℤ realized_on is_sell fill_price fill.price to_close;
              })
        ]
      ]

  -- A sell closes buys; any other order looks at the open sells, and matches them if it is a buy.
  unfoldable pub calculate_closing_margin_info : Order D → Money → D → State D → ClosingMarginInfo
  unfolding released_margin realized_on closing_loop
  calculate_closing_margin_info order fill_price position_closing_quantity s =
      let nothing : ClosingMarginInfo = record {
        margin_to_release = pos 0;
        realized_pnl = pos 0;
      } in
      if le position_closing_quantity epsilon
      then nothing
      else (if is_sell_action order.action
          then closing_loop buys true order.symbol fill_price s s.fills position_closing_quantity
              nothing
          else (if is_buy_action order.action
              then closing_loop sells false order.symbol fill_price s s.fills
                  position_closing_quantity nothing
              else nothing))
