-- ===== src/Snapshot/Peak.antt =====
-- state.cpp, record_bar_equity_snapshot: the equity curve and its peak.
use quant_forge_quant_resear.Common.{
  inl, inr, List, [], ◌∷◌, arith, Bool-cases, if◌then◌else◌, if_both,
}
use quant_forge_quant_resear.Common.Int.{ℤ, ◌≤ℤ◌, ltb_ℤ, eqb_ℤ, int_laws}
use quant_forge_quant_resear.Double.{Double}
use quant_forge_quant_resear.Money.{Money}
use quant_forge_quant_resear.Models.{EquitySnapshot}
use quant_forge_quant_resear.Params.{HostParams}
use quant_forge_quant_resear.State.{State}
use quant_forge_quant_resear.Equity.{calculate_equity}
use quant_forge_quant_resear.Snapshot.{new_snapshot, extend_curve, record_bar_equity_snapshot}

module _ {D : Type 0} where
  -- No point of the curve is above `peak`.
  abbrev pub AreBelow : Money → List (EquitySnapshot D) → Type 0
  AreBelow peak [] = Unit
  AreBelow peak (snapshot ∷ curve) = (snapshot.equity ≤ℤ peak) × AreBelow peak curve

  -- The peak is not below the initial capital, and no point of the curve is above the peak.
  pub record IsPeaked (host_params : HostParams D) (s : State D) : Type 0 where
    pub funded : host_params.initial_capital ≤ℤ s.peak_equity
    pub below : AreBelow s.peak_equity s.equity_curve

  raise-AreBelow :
      (low high : Money) (curve : List (EquitySnapshot D))
      → low ≤ℤ high
      → AreBelow low curve
      → AreBelow high curve
  raise-AreBelow low high [] h k = tt
  raise-AreBelow low high (snapshot ∷ curve) h k =
      (omega (int_laws, h, k.0), raise-AreBelow low high curve h k.1)

raised :
    (peak equity : ℤ)
    → let top = if ltb_ℤ peak equity then equity else peak in (peak ≤ℤ top) × (equity ≤ℤ top)
raised peak equity = elim (Bool-cases (ltb_ℤ peak equity)) [
  | inl e ↦ rw e (ground arith, omega int_laws)
  | inr e ↦ rw e (omega int_laws, ground arith)
]

module _ {D : Type 0} ⦃d : Double D⦄ where
  extend_curve-AreBelow :
      (peak now equity : ℤ) (r m : D) (curve : List (EquitySnapshot D))
      → equity ≤ℤ peak
      → AreBelow peak curve
      → AreBelow peak (extend_curve now equity r m curve)
  unfolding extend_curve new_snapshot
  extend_curve-AreBelow peak now equity r m [] h k = (h, tt)
  extend_curve-AreBelow peak now equity r m (last ∷ []) h k =
      if_both (AreBelow peak) (eqb_ℤ last.timestamp_ns now) (h, tt) (k.0, (h, tt))
  extend_curve-AreBelow peak now equity r m (first ∷ second ∷ rest) h k =
      (k.0, extend_curve-AreBelow peak now equity r m (second ∷ rest) h k.1)

  pub record_bar_equity_snapshot-IsPeaked :
      (host_params : HostParams D) (s : State D)
      → IsPeaked host_params s
      → IsPeaked host_params (record_bar_equity_snapshot host_params s)
  unfolding record_bar_equity_snapshot
  record_bar_equity_snapshot-IsPeaked host_params s v =
      let equity = calculate_equity s in
      let peak : Money = if ltb_ℤ s.peak_equity equity then equity else s.peak_equity in
      let (up, over) = raised s.peak_equity equity in
      record {
        funded = omega (int_laws, v.funded, up);
        below =
            extend_curve-AreBelow peak s.current_timestamp_ns equity _ _ s.equity_curve over
              (raise-AreBelow s.peak_equity peak s.equity_curve up v.below);
      }
