-- ===== src/Engine/Rounds/Exits.antt =====
-- exit_order_book.cpp, the two loops: how many rounds they take without a cap on the volume.
use quant_forge_quant_resear.Common.{ℕ, ◌≤◌, String, ◌≡◌, none, length}
use quant_forge_quant_resear.Result.{Result}
use quant_forge_quant_resear.Double.{Double, IsIeee}
use quant_forge_quant_resear.Heap
use quant_forge_quant_resear.Models.{Order}
use quant_forge_quant_resear.Params.{HostParams}
use quant_forge_quant_resear.State.{State}
use quant_forge_quant_resear.ExitBook.{ExitOrderBook}
use quant_forge_quant_resear.Engine.{Engine}

module _ {D : Type 0} where
  -- The book has at most so many stop losses and take profits.
  abbrev NoMore : ℕ → ℕ → ExitOrderBook D → Type 0
  NoMore m n book = (length book.stop_loss_heap ≤ m) × (length book.take_profit_heap ≤ n)

  -- The order asks for no exit orders of its own.
  abbrev IsPlain : Order D → Type 0
  IsPlain o = (o.stop_loss_price ≡ none) × (o.take_profit_price ≡ none)

module _ {D : Type 0} ⦃d : Double D⦄ (host_params : HostParams D) where
  module _ (ieee : IsIeee D) (uncapped : host_params.fill_max_pct_of_volume ≡ none) where
    abbrev Small : ℕ → ℕ → Engine D → Type 0
    Small m n e = NoMore m n e.exit_order_book

    module _ (create_uuid : ℕ → String) where
      abbrev Few : ℕ → Engine D → Type 0
      Few n e = length e.exit_order_book.take_profit_heap ≤ n
