-- ===== src/Snapshot/Latest.antt =====
-- state.cpp, record_bar_equity_snapshot: the last point of the equity curve, and the drawdown.
use quant_forge_quant_resear.Common.{
  ◌≡◌, refl, inl, inr, true, false, Option, none, some, List, [], ◌∷◌, arith, Bool-cases,
  if◌then◌else◌,
}
use quant_forge_quant_resear.Common.Int.{ℤ, eqb_ℤ, eq_of_parts}
use quant_forge_quant_resear.Double.{Double, IsIeee}
use quant_forge_quant_resear.Models.{EquitySnapshot}
use quant_forge_quant_resear.Params.{HostParams}
use quant_forge_quant_resear.State.{State}
use quant_forge_quant_resear.Equity.{calculate_equity, calculate_return}
use quant_forge_quant_resear.Snapshot.{new_snapshot, extend_curve, record_bar_equity_snapshot}

module _ {D : Type 0} where
  abbrev pub latest : List (EquitySnapshot D) → Option (EquitySnapshot D)
  latest [] = none
  latest (snapshot ∷ []) = some snapshot
  latest (first ∷ second ∷ rest) = latest (second ∷ rest)

  -- The point shows the account as it stands: its time, its equity, its return and its largest drawdown.
  pub record Shows ⦃d : Double D⦄ (host_params : HostParams D) (s : State D)
      (snapshot : EquitySnapshot D) : Type 0 where
    pub time : snapshot.timestamp_ns ≡ s.current_timestamp_ns
    pub equity : snapshot.equity ≡ calculate_equity s
    pub gain : snapshot.return_ ≡ calculate_return host_params (calculate_equity s)
    pub drawdown : snapshot.max_drawdown ≡ s.max_drawdown

latest_after :
    {D : Type 0} (first : EquitySnapshot D) (curve : List (EquitySnapshot D)) {x : EquitySnapshot D}
    → latest curve ≡ some x
    → latest (first ∷ curve) ≡ some x
latest_after first [] h = cc
latest_after first (second ∷ rest) h = h

same_time : (a b : ℤ) → eqb_ℤ a b ≡ true → a ≡ b
same_time a b h = ground (arith, eq_of_parts a b)

module _ {D : Type 0} ⦃d : Double D⦄ where
  open d use {lt}

  latest_shown :
      (now equity : ℤ) (r m : D) (curve : List (EquitySnapshot D))
      → (snapshot : EquitySnapshot D) × (latest (extend_curve now equity r m curve) ≡ some snapshot)
        × (snapshot.timestamp_ns ≡ now)
        × (snapshot.equity ≡ equity)
        × (snapshot.return_ ≡ r)
        × (snapshot.max_drawdown ≡ m)
  unfolding extend_curve new_snapshot
  latest_shown now equity r m [] = (_, refl, refl, refl, refl, refl)
  latest_shown now equity r m (last ∷ []) = elim (Bool-cases (eqb_ℤ last.timestamp_ns now)) [
    | inl e ↦ (
      record last { equity = equity; return_ = r; max_drawdown = m },
      rw (e, extend_curve) refl,
      same_time last.timestamp_ns now e,
      refl,
      refl,
      refl,
    )
    | inr e ↦ (new_snapshot now equity r m, rw (e, extend_curve) refl, refl, refl, refl, refl)
  ]
  latest_shown now equity r m (first ∷ second ∷ rest) =
      let (snapshot, found, time, value, gain, drawdown) =
        latest_shown now equity r m (second ∷ rest) in
      (
        snapshot,
        latest_after first (extend_curve now equity r m (second ∷ rest)) found,
        time,
        value,
        gain,
        drawdown,
      )

  -- After each bar the last point of the equity curve shows the account as it stands, and the largest drawdown
  -- is not below what it was.
  pub recorded_shown :
      (ieee : IsIeee D) (host_params : HostParams D) (s : State D)
      → let t = record_bar_equity_snapshot host_params s in
        ((snapshot : EquitySnapshot D) × (latest t.equity_curve ≡ some snapshot)
          × Shows host_params t snapshot)
        × (lt t.max_drawdown s.max_drawdown ≡ false)
  unfolding record_bar_equity_snapshot calculate_equity
  recorded_shown ieee host_params s =
      let t = record_bar_equity_snapshot host_params s in
      let (snapshot, found, time, equity, gain, drawdown) =
        latest_shown s.current_timestamp_ns (calculate_equity s)
          (calculate_return host_params (calculate_equity s)) t.max_drawdown s.equity_curve in
      (
        (
          snapshot,
          found,
          record { time = time; equity = equity; gain = gain; drawdown = drawdown },
        ),
        not_lower _ s.max_drawdown,
      )
    where
      not_lower : (now before : D) → lt (if lt before now then now else before) before ≡ false
      not_lower now before = ground (arith, ieee.lt_asym before now, ieee.lt_asym before before)
