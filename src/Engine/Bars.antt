-- ===== src/Engine/Bars.antt =====
-- back_test_engine.cpp, run: a predicate of the engine, from bar to bar.
use quant_forge_quant_resear.Common.{ℕ, List, [], ◌∷◌}
use quant_forge_quant_resear.Common.Int.{pos, eqb_ℤ}
use quant_forge_quant_resear.Result.Leaves.{Leaves, Leaves-bind, Leaves-if}
use quant_forge_quant_resear.Double.{Double}
use quant_forge_quant_resear.Params.{HostParams}
use quant_forge_quant_resear.State.{Bar, prepare_next_bar_state, prepare_initial_state}
use quant_forge_quant_resear.Exchange.{is_within_market_hour_restrictions}
use quant_forge_quant_resear.Engine.{Engine, execute_order_book}
use quant_forge_quant_resear.Engine.Limits.{execute_limit_orders}
use quant_forge_quant_resear.Engine.Exits.{execute_exit_orders}
use quant_forge_quant_resear.Engine.Run.{
  Environment, schedule_plugin_instructions, run_bar, run_bars, run,
}
use quant_forge_quant_resear.Engine.Kept.{
  IsKept, execute_order_book-Leaves, execute_limit_orders-Leaves, execute_exit_orders-Leaves,
  schedule_plugin_instructions-Leaves,
}

module _ {D Q : Type 0} ⦃d : Double D⦄ (env : Environment D Q) (host_params : HostParams D)
    (P : Engine D → Type 0) (kept : IsKept env.create_uuid host_params P) where
  abbrev KeptPair : Engine D × Q → Type 0
  KeptPair r = P r.0

  run_bar-Leaves :
      (rounds : ℕ) (bar : Bar D) (e : Engine D) (p : Q)
      → P e
      → Leaves KeptPair (run_bar env rounds host_params bar e p)
  unfolding run_bar
  run_bar-Leaves rounds bar e p h =
      let started = record e { state = prepare_next_bar_state bar e.state } in
      Leaves-if KeptPair (is_within_market_hour_restrictions bar.unix_ts_ns host_params) _ _
        (λ within.
          Leaves-bind P KeptPair
            (execute_order_book env.create_uuid rounds bar.unix_ts_ns host_params started) _
            (execute_order_book-Leaves env.create_uuid host_params P kept rounds bar.unix_ts_ns
              started (kept.bar_started bar e h))
            (λ ordered u.
              Leaves-bind P KeptPair
                (execute_limit_orders env.create_uuid rounds host_params ordered) _
                (execute_limit_orders-Leaves env.create_uuid host_params P kept rounds ordered u)
                (λ limited v.
                  Leaves-bind P KeptPair
                    (execute_exit_orders env.create_uuid rounds host_params limited) _
                    (execute_exit_orders-Leaves env.create_uuid host_params P kept rounds limited v)
                    (λ exited w.
                      let called = env.on_bar p bar exited.state in
                      Leaves-if KeptPair (eqb_ℤ called.0.code (pos 0)) _ _
                        (λ fine.
                          Leaves-bind P KeptPair
                            (schedule_plugin_instructions (env.clock called.1) 0
                              called.0.instructions host_params exited)
                            _
                            (schedule_plugin_instructions-Leaves env.create_uuid host_params P kept
                              _ 0 called.0.instructions exited w)
                            (λ scheduled x. kept.bar_ended scheduled x))
                        (λ failed. tt)))))
        (λ outside. h)

  run_bars-Leaves :
      (rounds : ℕ) (bars : List (Bar D)) (e : Engine D) (p : Q)
      → P e
      → Leaves KeptPair (run_bars env rounds host_params bars e p)
  unfolding run_bars
  run_bars-Leaves rounds [] e p h = h
  run_bars-Leaves rounds (bar ∷ bars) e p h =
      Leaves-bind KeptPair KeptPair _ _ (run_bar-Leaves rounds bar e p h)
        (λ r u. run_bars-Leaves rounds bars r.0 r.1 u)

  pub run-Leaves :
      (rounds : ℕ) (bars : List (Bar D)) (e : Engine D) (p : Q)
      → P (record e { state = prepare_initial_state host_params e.state })
      → Leaves P (run env rounds host_params bars e p)
  unfolding run
  run-Leaves rounds bars e p h =
      Leaves-bind KeptPair P _ _ (run_bars-Leaves rounds bars _ p h)
        (λ r u. Leaves-if P (eqb_ℤ (env.on_end r.1).code (pos 0)) _ _ (λ fine. u) (λ failed. tt))
