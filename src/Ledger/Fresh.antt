-- ===== src/Ledger/Fresh.antt =====
-- state.cpp: one fill that is closed, seen from another.
use quant_forge_quant_resear.Common.{
  String, inl, inr, ◌≡◌, false, List, [], ◌∷◌, arith, str_eq, Option-cases,
}
use quant_forge_quant_resear.Common.Dict
use quant_forge_quant_resear.Common.Dict.{Dict}
use quant_forge_quant_resear.Double.{Double}
use quant_forge_quant_resear.Common.Int.{◌-ℤ◌}
use quant_forge_quant_resear.Money.{scale}
use quant_forge_quant_resear.Models.{Fill}
use quant_forge_quant_resear.State.{State, Side, active_fills}
use quant_forge_quant_resear.Ledger.{close_fill, closable}

module _ {D : Type 0} where
  -- No fill of the list has the uuid.
  abbrev pub IsFresh : String → List (Fill D) → Type 0
  IsFresh uuid [] = Unit
  IsFresh uuid (fill ∷ fills) = (str_eq uuid fill.uuid ≡ false) × IsFresh uuid fills

  -- No two fills have one uuid.
  abbrev pub AreDistinct : List (Fill D) → Type 0
  AreDistinct [] = Unit
  AreDistinct (fill ∷ fills) = IsFresh fill.uuid fills × AreDistinct fills

module _ {D : Type 0} ⦃d : Double D⦄ (side : Side) (uuid other : String) (to_close available : D)
    (s : State D) (apart : str_eq uuid other ≡ false) where
  pub active-close_fill :
      Dict.lookup other (active_fills side (close_fill side uuid to_close available s))
      ≡ Dict.lookup other (active_fills side s)
  unfolding close_fill
  active-close_fill =
      let left = d.sub available to_close in
      ground (
        arith,
        apart,
        Dict.lookup-insert uuid other left s.active_buy_fills,
        Dict.lookup-erase uuid other s.active_buy_fills,
        Dict.lookup-insert uuid other left s.active_sell_fills,
        Dict.lookup-erase uuid other s.active_sell_fills,
      )

  pub margin-close_fill :
      Dict.lookup other (close_fill side uuid to_close available s).active_margin_for_fills
      ≡ Dict.lookup other s.active_margin_for_fills
  unfolding close_fill
  margin-close_fill = elim (Option-cases (Dict.lookup uuid s.active_margin_for_fills)) [
    | inl e ↦ ground (arith, e)
    | inr (m, e) ↦
        let left = m -ℤ scale m (d.div to_close available) in
        ground (
          arith,
          e,
          apart,
          Dict.lookup-insert uuid other left s.active_margin_for_fills,
          Dict.lookup-erase uuid other s.active_margin_for_fills,
        )
  ]

  pub closable-close_fill :
      (symbol : String) (fill : Fill D)
      → fill.uuid ≡ other
      → closable side symbol (close_fill side uuid to_close available s) fill
        ≡ closable side symbol s fill
  unfolding closable
  closable-close_fill symbol fill e = rw (e, active-close_fill)
