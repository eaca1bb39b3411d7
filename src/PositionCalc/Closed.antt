-- ===== src/PositionCalc/Closed.antt =====
-- position_calculator.cpp, the fills that a fill closes, beside the reductions of state.cpp.
use quant_forge_quant_resear.Common.{
  String, ◌≡◌, refl, ap, ◌∙◌, inl, inr, none, some, List, [], ◌∷◌, arith, Bool-cases, Option-cases,
}
use quant_forge_quant_resear.Common.Dict
use quant_forge_quant_resear.Double.{Double, epsilon, min}
use quant_forge_quant_resear.Models.{Fill}
use quant_forge_quant_resear.State.{State, Side, active_fills}
use quant_forge_quant_resear.Ledger.{close_fill, closable, reduce_loop}
use quant_forge_quant_resear.Ledger.Fresh.{IsFresh, AreDistinct, closable-close_fill}
use quant_forge_quant_resear.PositionCalc.{closed_loop}

module _ {D : Type 0} ⦃d : Double D⦄ where
  open d use {le, sub}

  -- The description: each listed fill that is open is closed by the quantity beside it.
  pub close_all : Side → List (String × D) → State D → State D
  close_all side [] s = s
  close_all side ((uuid, quantity) ∷ closed) s =
      close_all side closed (elim (Dict.lookup uuid (active_fills side s)) [
        | none ↦ s
        | some available ↦ close_fill side uuid quantity available s
      ])

  closed_loop-close_fill :
      (side : Side) (symbol uuid : String) (to_close available : D) (s : State D)
      (fills : List (Fill D)) (remaining : D)
      → IsFresh uuid fills
      → closed_loop side symbol (close_fill side uuid to_close available s) fills remaining
        ≡ closed_loop side symbol s fills remaining
  unfolding closed_loop
  closed_loop-close_fill side symbol uuid to_close available s [] remaining h = refl
  closed_loop-close_fill side symbol uuid to_close available s (fill ∷ fills) remaining h =
      let same =
        closable-close_fill side uuid fill.uuid to_close available s h.0 symbol fill refl in
      let ih =
        λ (r : D). closed_loop-close_fill side symbol uuid to_close available s fills r h.1 in
      elim (Bool-cases (le remaining epsilon)) [
        | inl e ↦ rw (e, closed_loop)
        | inr e ↦ elim (Option-cases (closable side symbol s fill)) [
          | inl q ↦ rw (e, same, q, closed_loop) (ih remaining)
          | inr (open_quantity, q) ↦
              rw (e, same, q, closed_loop) (rw (ih (sub remaining (min open_quantity remaining))))
        ]
      ]

  closable-open :
      (side : Side) (symbol : String) (s : State D) (fill : Fill D) (available : D)
      → closable side symbol s fill ≡ some available
      → Dict.lookup fill.uuid (active_fills side s) ≡ some available
  unfolding closable
  closable-open side symbol s fill available h = ground arith

  -- With distinct uuids the account's loop closes exactly the fills that the calculator's loop lists, each
  -- by the quantity listed.
  pub reduce_loop-close_all :
      (side : Side) (symbol : String) (fills : List (Fill D)) (remaining : D) (s : State D)
      → AreDistinct fills
      → reduce_loop side symbol fills remaining s
        ≡ close_all side (closed_loop side symbol s fills remaining) s
  unfolding reduce_loop closed_loop close_all
  reduce_loop-close_all side symbol [] remaining s h = refl
  reduce_loop-close_all side symbol (fill ∷ fills) remaining s h =
      elim (Bool-cases (le remaining epsilon)) [
        | inl e ↦ rw (e, reduce_loop, closed_loop)
        | inr e ↦ elim (Option-cases (closable side symbol s fill)) [
          | inl q ↦
              rw (e, q, reduce_loop, closed_loop)
                (reduce_loop-close_all side symbol fills remaining s h.1)
          | inr (available, q) ↦
              let quantity = min available remaining in
              let t = close_fill side fill.uuid quantity available s in
              rw (e, q, reduce_loop, closed_loop, closable-open side symbol s fill available q)
                (reduce_loop-close_all side symbol fills (sub remaining quantity) t h.1
                  ∙ ap (λ closed. close_all side closed t)
                      (closed_loop-close_fill side symbol fill.uuid quantity available s fills
                        (sub remaining quantity) h.0))
        ]
      ]
