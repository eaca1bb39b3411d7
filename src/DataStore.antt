-- ===== src/DataStore.antt =====
-- `DataStore` (src/forge/stores/data_store.cpp): the bars of each plugin and symbol, and the bars of a plugin in
-- the order of time. Every operation locks one std::mutex; a thread that locks it again stays there for ever, which
-- is `blocked`. An unordered_map is a Dict, so the loops over it visit the key order among the possible ones.
pub mod Stored
use quant_forge_quant_resear.Common.{
  ℕ, String, Bool, true, false, Option, none, some, List, [], ◌∷◌, ◌++◌, map, if◌then◌else◌,
}
use quant_forge_quant_resear.Common.Dict.{Dict, lookup, contains, insert}
use quant_forge_quant_resear.Common.Int.{ltb_ℤ}
use quant_forge_quant_resear.Result.{Exception, out_of_range}
use quant_forge_quant_resear.State.{Bar}

-- src/http/api/stock_api.hpp
pub record AggregateBars (D : Type 0) : Type 0 where
  pub adjusted : Bool
  pub query_count : ℕ
  pub result_count : ℕ
  pub ticker : String
  pub results : List (Bar D)

pub record DataStore (D : Type 0) : Type 0 where
  pub mutex_held : Bool
  pub bars : Dict (Dict (AggregateBars D))
  pub iterable_plugin_data : Dict (List (Bar D))

-- How a call on the store ends. An exception leaves the store as it stands then.
pub data Call (D A : Type 0) : Type 0 where
  returned : A → DataStore D → Call D A
  threw : Exception → DataStore D → Call D A
  blocked : Call D A

abbrev pub Operation : Type 0 → Type 0 → Type 0
Operation D A = DataStore D → Call D A

module _ {D : Type 0} where
  abbrev pub then_do : {A B : Type 0} → Call D A → (A → Operation D B) → Call D B
  then_do (returned a s) f = f a s
  then_do (threw e s) f = threw e s
  then_do blocked f = blocked

  unfoldable pub unlock : {A : Type 0} → Call D A → Call D A
  unlock (returned a s) = returned a (record s { mutex_held = false })
  unlock (threw e s) = threw e (record s { mutex_held = false })
  unlock blocked = blocked

  -- `std::lock_guard` around what follows it
  unfoldable pub lock_guard : {A : Type 0} → Operation D A → Operation D A
  unfolding unlock
  lock_guard body s =
      if s.mutex_held then blocked else unlock (body (record s { mutex_held = true }))

  abbrev pub or_empty : Option (Dict (AggregateBars D)) → Dict (AggregateBars D)
  or_empty (some symbols) = symbols
  or_empty none = []

  -- the entry that is made before the assignment where the plugin has none
  unfoldable pub with_plugin :
      String → Dict (Dict (AggregateBars D)) → Dict (Dict (AggregateBars D))
  with_plugin plugin_name bars =
      if contains plugin_name bars then bars else insert plugin_name [] bars

  unfoldable pub store_bars_by_plugin_name : String → String → AggregateBars D → Operation D Unit
  unfolding lock_guard with_plugin
  store_bars_by_plugin_name plugin_name symbol bars = lock_guard (λ s.
      let made = with_plugin plugin_name s.bars in
      returned tt (record s {
        bars = insert plugin_name (insert symbol bars (or_empty (lookup plugin_name made))) made;
      }))

  abbrev pub symbol_bars : String → Option (Dict (AggregateBars D)) → Option (AggregateBars D)
  symbol_bars symbol none = none
  symbol_bars symbol (some symbols) = lookup symbol symbols

  unfoldable pub get_bars : String → String → Operation D (Option (AggregateBars D))
  unfolding lock_guard
  get_bars plugin_name symbol =
      lock_guard (λ s. returned (symbol_bars symbol (lookup plugin_name s.bars)) s)

  unfoldable pub get_all_bars_for_plugin : String → Operation D (Option (Dict (AggregateBars D)))
  unfolding lock_guard
  get_all_bars_for_plugin plugin_name = lock_guard (λ s. returned (lookup plugin_name s.bars) s)

  unfoldable pub get_symbols_for_plugin : String → Operation D (List String)
  unfolding lock_guard
  get_symbols_for_plugin plugin_name =
      lock_guard (λ s. returned (map (λ entry. entry.0) (or_empty (lookup plugin_name s.bars))) s)

  unfoldable pub has_plugin_data : String → Operation D Bool
  unfolding lock_guard
  has_plugin_data plugin_name = lock_guard (λ s. returned (contains plugin_name s.bars) s)

  unfoldable pub clear : Operation D Unit
  unfolding lock_guard
  clear = lock_guard (λ s. returned tt (record s { bars = []; iterable_plugin_data = [] }))

  unfoldable pub has_iterable_plugin_data : String → Operation D Bool
  unfolding lock_guard
  has_iterable_plugin_data plugin_name =
      lock_guard (λ s. returned (contains plugin_name s.iterable_plugin_data) s)

  unfoldable pub all_results : Dict (AggregateBars D) → List (Bar D)
  all_results [] = []
  all_results ((symbol, bars) ∷ rest) = bars.results ++ all_results rest

  -- the comparison of the sort
  unfoldable pub earlier : Bar D → Bar D → Bool
  earlier a b = ltb_ℤ a.unix_ts_ns b.unix_ts_ns

-- `sort` is std::sort.
module _ {D : Type 0} (sort : (Bar D → Bar D → Bool) → List (Bar D) → List (Bar D)) where
  unfoldable pub create_iterable_plugin_data : String → Operation D Unit
  unfolding lock_guard has_iterable_plugin_data get_all_bars_for_plugin all_results earlier
  create_iterable_plugin_data plugin_name = lock_guard (λ s.
      then_do (has_iterable_plugin_data plugin_name s) (λ present s.
        if present
        then returned tt s
        else then_do (get_all_bars_for_plugin plugin_name s) (λ found s. elim found [
          | none ↦ returned tt s
          | some bars ↦ returned tt (record s {
            iterable_plugin_data =
                insert plugin_name (sort earlier (all_results bars)) s.iterable_plugin_data;
          })
        ])))

  abbrev at_or_throw : String → Operation D (List (Bar D))
  at_or_throw plugin_name s = elim (lookup plugin_name s.iterable_plugin_data) [
    | none ↦ threw out_of_range s
    | some bars ↦ returned bars s
  ]

  unfoldable pub get_iterable_plugin_data : String → Operation D (List (Bar D))
  unfolding lock_guard has_iterable_plugin_data create_iterable_plugin_data
  get_iterable_plugin_data plugin_name = lock_guard (λ s.
      then_do (has_iterable_plugin_data plugin_name s) (λ present s.
        then_do (if present then returned tt s else create_iterable_plugin_data plugin_name s)
          (λ _ s. at_or_throw plugin_name s)))
