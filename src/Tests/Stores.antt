-- ===== src/Tests/Stores.antt =====
-- A store of bars.
use quant_forge_quant_resear.Common.{String, false, Option, [], ◌∷◌, ◌≡◌, refl}
use quant_forge_quant_resear.Common.Int.{ℤ}
use quant_forge_quant_resear.DataStore.{
  AggregateBars, DataStore, returned, blocked, get_bars, store_bars_by_plugin_name,
  create_iterable_plugin_data, get_iterable_plugin_data,
}
use quant_forge_quant_resear.DataStore.Stored.{get_bars-store_bars, iterable_calls-blocked}
use quant_forge_quant_resear.Tests.Data.{bar}

abbrev bars_of : String → AggregateBars ℤ
bars_of ticker = record {
  adjusted = false;
  query_count = 1;
  result_count = 1;
  ticker = ticker;
  results = bar ∷ [];
}

abbrev store : DataStore ℤ
store = record {
  mutex_held = false;
  bars = ("momentum", ("AAPL", bars_of "AAPL") ∷ []) ∷ [];
  iterable_plugin_data = [];
}

-- Another symbol of the plugin is as it was.
get_bars-store_bars_example :
    (before : Option (AggregateBars ℤ)) × (after : DataStore ℤ) × (get_bars "momentum" "AAPL" store
      ≡ returned before store)
    × (store_bars_by_plugin_name "momentum" "MSFT" (bars_of "MSFT") store ≡ returned tt after)
    × (after.mutex_held ≡ false)
    × (get_bars "momentum" "AAPL" after ≡ returned before after)
get_bars-store_bars_example =
    get_bars-store_bars "momentum" "MSFT" "momentum" "AAPL" (bars_of "MSFT") store refl

iterable_calls-blocked_example :
    (get_iterable_plugin_data (λ before bars. bars) "momentum" store ≡ blocked)
    × (create_iterable_plugin_data (λ before bars. bars) "momentum" store ≡ blocked)
iterable_calls-blocked_example = iterable_calls-blocked (λ before bars. bars) "momentum" store
