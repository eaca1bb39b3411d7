-- ===== src/Engine/Rounds/Limits.antt =====
-- limit_order_book.cpp, the two loops: how many rounds they take without a cap on the volume.
use quant_forge_quant_resear.Common.{ℕ, ◌<◌, String, ◌≡◌, none, List, length}
use quant_forge_quant_resear.Common.Dict
use quant_forge_quant_resear.Common.Dict.{Dict}
use quant_forge_quant_resear.Double.{Double, IsIeee}
use quant_forge_quant_resear.Heap
use quant_forge_quant_resear.Models.{LimitOrder}
use quant_forge_quant_resear.Params.{HostParams}
use quant_forge_quant_resear.LimitBook.{heap_of}
use quant_forge_quant_resear.Engine.{Engine}

module _ {D : Type 0} where
  -- Each symbol has fewer orders than there are rounds.
  abbrev pub AreShort : ℕ → Dict (List (LimitOrder D)) → Type 0
  AreShort rounds limits = (symbol : String) → length (heap_of symbol limits) < rounds

module _ {D : Type 0} ⦃d : Double D⦄ (host_params : HostParams D) (ieee : IsIeee D)
    (uncapped : host_params.fill_max_pct_of_volume ≡ none) (create_uuid : ℕ → String) where
  module _ (limit : ℕ) where
    abbrev Short : Engine D → Type 0
    Short e =
        AreShort limit e.limit_order_book.buy_limits × AreShort limit e.limit_order_book.sell_limits
