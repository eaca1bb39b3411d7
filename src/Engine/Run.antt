-- ===== src/Engine/Run.antt =====
-- back_test_engine.cpp, schedule_plugin_instructions and run. The plugin is a state `P` with its calls;
-- `clock p i` is the time that is read for the i-th instruction of the answer that left the plugin in `p`.
use quant_forge_quant_resear.Common.{ℕ, suc, String, List, [], ◌∷◌, if◌then◌else◌, str_append}
use quant_forge_quant_resear.Common.Int.{ℤ, pos, eqb_ℤ}
use quant_forge_quant_resear.Result.{Result, ok, throw, runtime_error, ◌>>=◌}
use quant_forge_quant_resear.Double.{Double}
use quant_forge_quant_resear.Models.{Order}
use quant_forge_quant_resear.Params.{HostParams}
use quant_forge_quant_resear.State.{
  State, Bar, prepare_initial_state, prepare_next_bar_state, clear_previous_bar_state,
}
use quant_forge_quant_resear.Snapshot.{record_bar_equity_snapshot}
use quant_forge_quant_resear.Exchange.{is_within_market_hour_restrictions}
use quant_forge_quant_resear.Executor.{signal_to_order}
use quant_forge_quant_resear.AbiConverter.{
  PluginResult, CInstruction, Instruction, signal, order, to_instruction,
}
use quant_forge_quant_resear.Engine.{Engine, schedule, execute_order_book}
use quant_forge_quant_resear.Engine.Limits.{execute_limit_orders}
use quant_forge_quant_resear.Engine.Exits.{execute_exit_orders}

pub record Environment (D P : Type 0) : Type 0 where
  pub on_bar : P → Bar D → State D → PluginResult D × P
  pub on_end : P → PluginResult D
  pub clock : P → ℕ → ℤ
  pub create_uuid : ℕ → String

module _ {D : Type 0} ⦃d : Double D⦄ where
  unfoldable pub instruction_order : Instruction D → HostParams D → State D → Result (Order D)
  instruction_order (signal s) host_params state = signal_to_order s host_params state
  instruction_order (order o) host_params state = ok o

  unfoldable pub schedule_plugin_instructions :
      (ℕ → ℤ) → ℕ → List (CInstruction D) → HostParams D → Engine D → Result (Engine D)
  unfolding instruction_order
  schedule_plugin_instructions clock i [] host_params e = ok e
  schedule_plugin_instructions clock i (c_instruction ∷ rest) host_params e = do
    instruction ← to_instruction (clock i) c_instruction
    o ← instruction_order instruction host_params e.state
    e' ← schedule o host_params e
    schedule_plugin_instructions clock (suc i) rest host_params e'

  unfoldable pub end_bar : HostParams D → Engine D → Engine D
  end_bar host_params e = record e {
    state = clear_previous_bar_state (record_bar_equity_snapshot host_params e.state);
  }

  module _ {P : Type 0} (env : Environment D P) where
    open env use {on_bar, on_end, clock, create_uuid}

    unfoldable pub run_bar : ℕ → HostParams D → Bar D → Engine D → P → Result (Engine D × P)
    unfolding schedule_plugin_instructions end_bar
    run_bar rounds host_params bar e p =
        if is_within_market_hour_restrictions bar.unix_ts_ns host_params
        then (do
          let started = record e { state = prepare_next_bar_state bar e.state }
          ordered ← execute_order_book create_uuid rounds bar.unix_ts_ns host_params started
          limited ← execute_limit_orders create_uuid rounds host_params ordered
          exited ← execute_exit_orders create_uuid rounds host_params limited
          let (result, p') = on_bar p bar exited.state
          (if eqb_ℤ result.code (pos 0)
              then (do
                scheduled ←
                    schedule_plugin_instructions (clock p') 0 result.instructions host_params exited
                ok (end_bar host_params scheduled, p'))
              else throw (runtime_error (str_append "Plugin on_bar failed: " result.message))))
        else ok (e, p)

    unfoldable pub run_bars : ℕ → HostParams D → List (Bar D) → Engine D → P → Result (Engine D × P)
    unfolding run_bar
    run_bars rounds host_params [] e p = ok (e, p)
    run_bars rounds host_params (bar ∷ bars) e p = do
      (e', p') ← run_bar rounds host_params bar e p
      run_bars rounds host_params bars e' p'

    unfoldable pub run : ℕ → HostParams D → List (Bar D) → Engine D → P → Result (Engine D)
    unfolding run_bars
    run rounds host_params bars e p = do
      let started = record e { state = prepare_initial_state host_params e.state }
      (ended, p') ← run_bars rounds host_params bars started p
      (if eqb_ℤ (on_end p').code (pos 0)
          then ok ended
          else throw (runtime_error (str_append "Plugin on_end failed: " (on_end p').message)))
