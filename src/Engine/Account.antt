-- ===== src/Engine/Account.antt =====
-- back_test_engine.cpp, run: predicates of the account alone, over a whole back test.
use quant_forge_quant_resear.Common.{
  ℕ, suc, String, ◌≡◌, sym, ap, ◌∙◌, inl, inr, false, none, some, List, [], arith, str_eq, eq_iff,
  Bool-cases, if◌then◌else◌,
}
use quant_forge_quant_resear.Common.Int.{int_laws}
use quant_forge_quant_resear.Common.Dict
use quant_forge_quant_resear.Result.{ok}
use quant_forge_quant_resear.Result.Leaves.{
  Leaves, Leaves-bind, Leaves-after, Leaves-ok, Leaves-option, Leaves-if,
}
use quant_forge_quant_resear.Double.{Double, nought}
use quant_forge_quant_resear.Models.{
  Order, Position, ExecutionResult, ExecutionResultSuccess, success, error, is_limit_order,
}
use quant_forge_quant_resear.Params.{HostParams}
use quant_forge_quant_resear.State.{
  State, Bar, prepare_initial_state, prepare_next_bar_state, clear_previous_bar_state,
}
use quant_forge_quant_resear.Snapshot.{record_bar_equity_snapshot}
use quant_forge_quant_resear.Snapshot.Peak.{IsPeaked, record_bar_equity_snapshot-IsPeaked}
use quant_forge_quant_resear.Ledger.{update_state}
use quant_forge_quant_resear.Ledger.Keys.{update_state-curve, update_state_effect}
use quant_forge_quant_resear.Executor.{execute_order}
use quant_forge_quant_resear.Engine.{
  Engine, create_scheduled_limit_order, schedule, book_success, handle_execution_result, execute,
}
use quant_forge_quant_resear.Engine.Run.{Environment, end_bar, run}
use quant_forge_quant_resear.Engine.Kept.{IsKept}
use quant_forge_quant_resear.Engine.Bars.{run-Leaves}

module _ {D : Type 0} ⦃d : Double D⦄ (host_params : HostParams D) (S : State D → Type 0) where
  -- The changes of the account that a back test is made of
  record IsStable : Type 0 where
    filled : (result : ExecutionResultSuccess D) (s : State D) → S s → S (update_state result s)
    started : (bar : Bar D) (s : State D) → S s → S (prepare_next_bar_state bar s)
    ended :
        (s : State D)
        → S s
        → S (clear_previous_bar_state (record_bar_equity_snapshot host_params s))

  abbrev OnState : Engine D → Type 0
  OnState e = S e.state

  module _ (stable : IsStable) where
    schedule-OnState :
        (o : Order D) (e : Engine D) → OnState e → Leaves OnState (schedule o host_params e)
    unfolding schedule
    schedule-OnState o e h =
        Leaves-if OnState (is_limit_order o) _ _
          (λ limited. Leaves-after OnState (create_scheduled_limit_order o) _ (λ limit. h))
          (λ market. h)

    handle-OnState :
        (result : ExecutionResult D) (e : Engine D)
        → OnState e
        → Leaves OnState (handle_execution_result result host_params e)
    unfolding handle_execution_result book_success
    handle-OnState (error message) e h = h
    handle-OnState (success result) e h =
        Leaves-bind OnState OnState _ _
          (Leaves-option OnState result.partial_order _ _ h
            (λ partial q. schedule-OnState partial _ h))
          (λ scheduled w. stable.filled result scheduled.state w)

    stable_kept : (create_uuid : ℕ → String) → IsKept create_uuid host_params OnState
    unfolding execute end_bar
    stable_kept create_uuid = record {
      executed = λ o e h.
          Leaves-after OnState (execute_order o host_params e.state (create_uuid e.uuids_drawn)) _
            (λ result. handle-OnState result (record e { uuids_drawn = suc e.uuids_drawn }) h);
      scheduled = schedule-OnState;
      order_popped = λ e h. h;
      buy_popped = λ symbol e h. h;
      sell_popped = λ symbol e h. h;
      stop_loss_popped = λ e h. h;
      take_profit_popped = λ e h. h;
      stop_losses_kept = λ e orders h. h;
      take_profits_kept = λ e orders h. h;
      bar_started = λ bar e. stable.started bar e.state;
      bar_ended = λ e. stable.ended e.state;
    }

    run-OnState :
        {P : Type 0} (env : Environment D P) (rounds : ℕ) (bars : List (Bar D)) (e ended : Engine D)
        (p : P)
        → S (prepare_initial_state host_params e.state)
        → run env rounds host_params bars e p ≡ ok ended
        → S ended.state
    run-OnState env rounds bars e ended p h done =
        Leaves-ok OnState _
          (run-Leaves env host_params OnState (stable_kept env.create_uuid) rounds bars e p h) done

module _ {D : Type 0} ⦃d : Double D⦄ where
  open d use {eq}

  peak_stable : (host_params : HostParams D) → IsStable host_params (IsPeaked host_params)
  unfolding prepare_next_bar_state clear_previous_bar_state
  peak_stable host_params = record {
    filled = λ result s v.
        let (peak, curve) = update_state-curve result s in
        record { funded = rw peak v.funded; below = rw (peak, curve) v.below };
    started = λ bar s v. record { funded = v.funded; below = v.below };
    ended = λ s v.
        let w = record_bar_equity_snapshot-IsPeaked host_params s v in
        record { funded = w.funded; below = w.below };
  }

  -- A back test that starts with an empty equity curve and returns has a peak that is not below the initial
  -- capital, and no point of its equity curve above the peak.
  pub run-IsPeaked :
      {P : Type 0} (env : Environment D P) (rounds : ℕ) (host_params : HostParams D)
      (bars : List (Bar D)) (e ended : Engine D) (p : P)
      → e.state.equity_curve ≡ []
      → run env rounds host_params bars e p ≡ ok ended
      → IsPeaked host_params ended.state
  unfolding prepare_initial_state
  run-IsPeaked env rounds host_params bars e ended p empty done =
      run-OnState host_params (IsPeaked host_params) (peak_stable host_params) env rounds bars e
        ended p (record { funded = omega int_laws; below = rw empty tt }) done

  -- Each position stands at its own symbol and is not zero.
  abbrev AreHeld : State D → Type 0
  AreHeld s =
      (symbol : String) (position : Position D)
      → Dict.lookup symbol s.positions ≡ some position
      → (position.symbol ≡ symbol) × (eq position.quantity nought ≡ false)

  update_state-AreHeld :
      (result : ExecutionResultSuccess D) (s : State D)
      → AreHeld s
      → AreHeld (update_state result s)
  update_state-AreHeld result s h symbol position q =
      let (cash, fills, exits, prices, volumes, positions) = update_state_effect result s in
      let found = sym (positions symbol) ∙ q in
      elim (Bool-cases (str_eq result.position.symbol symbol)) [
        | inl e ↦
            let same = (eq_iff result.position.symbol symbol).0 e in
            written result.position position same (rw e at found)
        | inr e ↦ h symbol position (rw e at found)
      ]
    where
      written :
          (p position : Position D)
          → p.symbol ≡ symbol
          → (if eq p.quantity nought then none else some p) ≡ some position
          → (position.symbol ≡ symbol) × (eq position.quantity nought ≡ false)
      written p position same r = ground (arith, same)

  held_stable : (host_params : HostParams D) → IsStable host_params AreHeld
  unfolding prepare_next_bar_state clear_previous_bar_state record_bar_equity_snapshot
  held_stable host_params = record {
    filled = update_state-AreHeld;
    started = λ bar s h. h;
    ended = λ s h. h;
  }

  -- After a back test that starts with no positions and returns, each position stands at its own symbol, and
  -- its quantity is not zero.
  pub run-position :
      {P : Type 0} (env : Environment D P) (rounds : ℕ) (host_params : HostParams D)
      (bars : List (Bar D)) (e ended : Engine D) (p : P) (symbol : String) (position : Position D)
      → e.state.positions ≡ []
      → run env rounds host_params bars e p ≡ ok ended
      → Dict.lookup symbol ended.state.positions ≡ some position
      → (position.symbol ≡ symbol) × (eq position.quantity nought ≡ false)
  unfolding prepare_initial_state Dict.lookup
  run-position env rounds host_params bars e ended p symbol position empty done =
      run-OnState host_params AreHeld (held_stable host_params) env rounds bars e ended p
        (λ k x q. absurd (nothing k x (ap (Dict.lookup k) (sym empty) ∙ q))) done symbol position
    where
      nothing : (k : String) (x : Position D) → Dict.lookup k [] ≡ some x → ⊥
      nothing k x q = cc
