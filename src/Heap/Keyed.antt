-- ===== src/Heap/Keyed.antt =====
-- models.hpp: the comparisons of the stored types.
use quant_forge_quant_resear.Common.{◌≡◌, true, false, arith}
use quant_forge_quant_resear.Common.Int.{ℤ, ltb_ℤ}
use quant_forge_quant_resear.Heap.Order.{IsStrictWeak}
use quant_forge_quant_resear.Models.{
  scheduled_before, buy_before, sell_before, stop_loss_before, take_profit_before,
}

ltb_ℤ_asym : (a b : ℤ) → ltb_ℤ a b ≡ true → ltb_ℤ b a ≡ false
ltb_ℤ_asym a b h = ground arith

ltb_ℤ_trans : (a b c : ℤ) → ltb_ℤ b a ≡ false → ltb_ℤ c b ≡ false → ltb_ℤ c a ≡ false
ltb_ℤ_trans a b c h k = ground arith

module _ {D : Type 0} where
  pub scheduled_order : IsStrictWeak (scheduled_before {D = D})
  unfolding scheduled_before
  scheduled_order = record {
    asym = λ x y. ltb_ℤ_asym x.scheduled_fill_at_ns y.scheduled_fill_at_ns;
    trans =
        λ x y z. ltb_ℤ_trans x.scheduled_fill_at_ns y.scheduled_fill_at_ns z.scheduled_fill_at_ns;
  }

  pub buy_order : IsStrictWeak (buy_before {D = D})
  unfolding buy_before
  buy_order = record {
    asym = λ x y. ltb_ℤ_asym y.limit_price x.limit_price;
    trans = λ x y z h k. ltb_ℤ_trans z.limit_price y.limit_price x.limit_price k h;
  }

  pub sell_order : IsStrictWeak (sell_before {D = D})
  unfolding sell_before
  sell_order = record {
    asym = λ x y. ltb_ℤ_asym x.limit_price y.limit_price;
    trans = λ x y z. ltb_ℤ_trans x.limit_price y.limit_price z.limit_price;
  }

  pub stop_loss_order : IsStrictWeak (stop_loss_before {D = D})
  unfolding stop_loss_before
  stop_loss_order = record {
    asym = λ x y. ltb_ℤ_asym x.stop_loss_price y.stop_loss_price;
    trans = λ x y z. ltb_ℤ_trans x.stop_loss_price y.stop_loss_price z.stop_loss_price;
  }

  pub take_profit_order : IsStrictWeak (take_profit_before {D = D})
  unfolding take_profit_before
  take_profit_order = record {
    asym = λ x y. ltb_ℤ_asym x.take_profit_price y.take_profit_price;
    trans = λ x y z. ltb_ℤ_trans x.take_profit_price y.take_profit_price z.take_profit_price;
  }
