-- ===== src/AbiConverter.antt =====
-- src/plugins/abi/abi.h and src/simulators/back_test/abi_converter.cpp: what a plugin hands back.
-- A union with its tag is a data type; `other` is a tag that the header does not name.
use quant_forge_quant_resear.Common.{String, false, Option, none, some, List, if◌then◌else◌}
use quant_forge_quant_resear.Common.Int.{ℤ, negsuc, eqb_ℤ}
use quant_forge_quant_resear.Result.{Result, ok, throw, runtime_error}
use quant_forge_quant_resear.Double.{Double, nought}
use quant_forge_quant_resear.Money.{Money}
use quant_forge_quant_resear.Models.{Signal, Order}

pub record CSignal : Type 0 where
  pub symbol : String
  pub action : String

pub record COrder (D : Type 0) : Type 0 where
  pub symbol : String
  pub action : String
  pub quantity : D
  pub leverage : D
  pub limit_price : ℤ
  pub stop_loss_price : ℤ
  pub take_profit_price : ℤ
  pub order_type : String

pub data CInstruction (D : Type 0) : Type 0 where
  c_signal : CSignal → CInstruction D
  c_order : COrder D → CInstruction D
  other : CInstruction D

pub record PluginResult (D : Type 0) : Type 0 where
  pub code : ℤ
  pub message : String
  pub instructions : List (CInstruction D)

pub data Instruction (D : Type 0) : Type 0 where
  signal : Signal → Instruction D
  order : Order D → Instruction D

-- NULL_MARKET_TRIGGER_PRICE is INT64_MIN, -(2^63)
abbrev pub null_market_trigger_price : ℤ
null_market_trigger_price = negsuc 9223372036854775807

unfoldable pub optional_price : ℤ → Option Money
optional_price price = if eqb_ℤ price null_market_trigger_price then none else some price

module _ {D : Type 0} ⦃d : Double D⦄ where
  open d use {le}

  -- Order(const COrder&), at the clock's time `now`
  unfoldable pub order_of_c : ℤ → COrder D → Order D
  unfolding optional_price
  order_of_c now inst = record {
    is_exit_order = false;
    quantity = inst.quantity;
    created_at_ns = now;
    symbol = inst.symbol;
    action = inst.action;
    order_type = inst.order_type;
    source_fill_uuid = none;
    limit_price = optional_price inst.limit_price;
    stop_loss_price = optional_price inst.stop_loss_price;
    take_profit_price = optional_price inst.take_profit_price;
    leverage = if le inst.leverage nought then none else some inst.leverage;
  }

  unfoldable pub to_instruction : ℤ → CInstruction D → Result (Instruction D)
  unfolding order_of_c
  to_instruction now (c_signal inst) =
      ok (signal (record { created_at_ns = now; symbol = inst.symbol; action = inst.action }))
  to_instruction now (c_order inst) = ok (order (order_of_c now inst))
  to_instruction now other = throw (runtime_error "Invalid instruction type")
