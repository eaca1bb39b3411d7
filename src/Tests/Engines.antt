-- ===== src/Tests/Engines.antt =====
-- Runs of the engine on the market of Data.
use quant_forge_quant_resear.Common.{
  String, ◌≡◌, refl, Bool, true, false, none, some, List, [], ◌∷◌, get_elem?, str_eq, if◌then◌else◌,
}
use quant_forge_quant_resear.Common.Int.{ℤ, pos, ltb_ℤ}
use quant_forge_quant_resear.Common.Dict
use quant_forge_quant_resear.Result.{Result, ok}
use quant_forge_quant_resear.Double.{nought}
use quant_forge_quant_resear.Heap.Order.{IsHeap}
use quant_forge_quant_resear.Models.{
  Position, LimitOrder, scheduled_before, buy_before, sell_before, stop_loss_before,
  take_profit_before,
}
use quant_forge_quant_resear.Snapshot.Peak.{IsPeaked}
use quant_forge_quant_resear.LimitBook.{heap_of}
use quant_forge_quant_resear.Engine.{Engine, execute_order_book}
use quant_forge_quant_resear.Engine.Limits.{run_buy_limits, run_sell_limits}
use quant_forge_quant_resear.Engine.Run.{run}
use quant_forge_quant_resear.Engine.Ordered.{IsValid, run-IsValid}
use quant_forge_quant_resear.Engine.Due.{due_orders_done, crossed_buys_done}
use quant_forge_quant_resear.Engine.Account.{run-IsPeaked, run-position}
use quant_forge_quant_resear.Tests.Fixed.{fixed}
use quant_forge_quant_resear.Tests.Unfolded.{tested}
use quant_forge_quant_resear.Tests.Data.{
  units, cash_account, due_at, limit_order, engine, uuid_of, bar, idle, fresh,
}
use quant_forge_quant_resear.Tests.Heaps.{none_IsHeap, one_IsHeap, two_IsHeap, exit_book-IsOrdered}

abbrev left_by : Engine ℤ → Result (Engine ℤ) → Engine ℤ
left_by e (ok a) = a
left_by e _ = e

abbrev ran : Engine ℤ
ran = left_by fresh (run idle 9 cash_account (bar ∷ []) fresh tt)

ran_ok : run idle 9 cash_account (bar ∷ []) fresh tt ≡ ok ran
unfolding tested
ran_ok = refl

abbrev passed : Engine ℤ
passed = left_by engine (execute_order_book uuid_of 9 (pos 1000) cash_account engine)

passed_ok : execute_order_book uuid_of 9 (pos 1000) cash_account engine ≡ ok passed
unfolding tested
passed_ok = refl

abbrev crossed : Engine ℤ
crossed = left_by engine (run_buy_limits uuid_of 9 "A" (units 18) cash_account engine)

crossed_ok : run_buy_limits uuid_of 9 "A" (units 18) cash_account engine ≡ ok crossed
unfolding tested
crossed_ok = refl

abbrev risen : Engine ℤ
risen = left_by engine (run_sell_limits uuid_of 9 "A" (units 19) cash_account engine)

risen_ok : run_sell_limits uuid_of 9 "A" (units 19) cash_account engine ≡ ok risen
unfolding tested
risen_ok = refl

abbrev low_buy : LimitOrder ℤ
low_buy = record { order = limit_order "buy" (units 12); limit_price = units 12 }

abbrev high_sell : LimitOrder ℤ
high_sell = record { order = limit_order "sell" (units 20); limit_price = units 20 }

listed_IsHeap {ℓ} :
    {A : Type ℓ} (before : A → A → Bool) (heap : List A) (b : Bool)
    → IsHeap before heap
    → IsHeap before (elim (if b then some heap else none) [ none ↦ [] | some xs ↦ xs ])
listed_IsHeap before heap true h d = h d
listed_IsHeap before heap false h d = none_IsHeap before d

buys_IsHeap :
    (symbol : String) → IsHeap buy_before (heap_of symbol engine.limit_order_book.buy_limits)
unfolding Dict.lookup buy_before
buys_IsHeap symbol = listed_IsHeap buy_before _ (str_eq "A" symbol) (
    two_IsHeap buy_before (record { order = limit_order "buy" (units 19); limit_price = units 19 })
      low_buy refl)

sells_IsHeap :
    (symbol : String) → IsHeap sell_before (heap_of symbol engine.limit_order_book.sell_limits)
unfolding Dict.lookup
sells_IsHeap symbol =
    listed_IsHeap sell_before _ (str_eq "A" symbol) (one_IsHeap sell_before high_sell)

engine_IsValid : IsValid engine
unfolding scheduled_before
engine_IsValid = record {
  orders = two_IsHeap scheduled_before (due_at (pos 900)) (due_at (pos 2000)) refl;
  exits = exit_book-IsOrdered;
  buys = buys_IsHeap;
  sells = sells_IsHeap;
}

fresh_IsValid : IsValid fresh
unfolding Dict.lookup
fresh_IsValid = record {
  orders = one_IsHeap scheduled_before (due_at (pos 900));
  exits = record { stops = none_IsHeap stop_loss_before; profits = none_IsHeap take_profit_before };
  buys = λ symbol. none_IsHeap buy_before;
  sells = λ symbol. none_IsHeap sell_before;
}

run-IsValid_example : IsValid ran
run-IsValid_example = run-IsValid idle 9 cash_account (bar ∷ []) fresh tt ran fresh_IsValid ran_ok

run-IsPeaked_example : IsPeaked cash_account ran.state
run-IsPeaked_example = run-IsPeaked idle 9 cash_account (bar ∷ []) fresh ran tt refl ran_ok

abbrev five_held : Position ℤ
five_held = record { symbol = "A"; quantity = units 5; average_price = units 20 }

ran_holds : Dict.lookup "A" ran.state.positions ≡ some five_held
unfolding tested
ran_holds = refl

run-position_example : (five_held.symbol ≡ "A") × (fixed.eq five_held.quantity nought ≡ false)
run-position_example =
    run-position idle 9 cash_account (bar ∷ []) fresh ran tt "A" five_held refl ran_ok ran_holds

later_left : get_elem? passed.order_book 0 ≡ some (due_at (pos 2000))
unfolding tested
later_left = refl

due_orders_done_example : ltb_ℤ (pos 1000) (pos 2000) ≡ true
due_orders_done_example =
    due_orders_done uuid_of cash_account 9 (pos 1000) engine passed 0 (due_at (pos 2000))
      engine_IsValid passed_ok later_left

low_left : get_elem? (heap_of "A" crossed.limit_order_book.buy_limits) 0 ≡ some low_buy
unfolding tested
low_left = refl

crossed_buys_done_example : ltb_ℤ (units 12) (units 18) ≡ true
crossed_buys_done_example =
    crossed_buys_done uuid_of cash_account 9 "A" (units 18) engine crossed 0 low_buy engine_IsValid
      crossed_ok low_left

high_left : get_elem? (heap_of "A" risen.limit_order_book.sell_limits) 0 ≡ some high_sell
unfolding tested
high_left = refl
