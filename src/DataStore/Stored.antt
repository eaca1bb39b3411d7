-- ===== src/DataStore/Stored.antt =====
-- `DataStore`: what is stored is read again, and the calls that lock the mutex twice.
use quant_forge_quant_resear.Common.{
  String, Bool, true, false, Option, some, List, [], ◌≡◌, refl, ap, arith, ◌&&◌, str_eq, eq_iff,
  if◌then◌else◌, inl, inr, Bool-cases,
}
use quant_forge_quant_resear.Common.Dict.{
  Dict, lookup, contains, insert, lookup-insert, contains-lookup, contains-some,
}
use quant_forge_quant_resear.State.{Bar}
use quant_forge_quant_resear.DataStore.{
  AggregateBars, DataStore, Call, returned, blocked, or_empty, with_plugin, symbol_bars, lock_guard,
  unlock, get_bars, store_bars_by_plugin_name, create_iterable_plugin_data,
  get_iterable_plugin_data, has_iterable_plugin_data,
}

module _ {D : Type 0} where
  -- The empty entry of a new plugin changes no other plugin's.
  lookup-with_plugin :
      (p q : String) (m : Dict (Dict (AggregateBars D)))
      → str_eq p q ≡ false
      → lookup q (with_plugin p m) ≡ lookup q m
  unfolding with_plugin
  lookup-with_plugin p q m h = elim (Bool-cases (contains p m)) [
    | inl c ↦ rw c refl
    | inr c ↦ rw c (rw (lookup-insert p q [] m, h) refl)
  ]

  -- It has no symbol that was not there.
  symbol-with_plugin :
      (p z : String) (m : Dict (Dict (AggregateBars D)))
      → lookup z (or_empty (lookup p (with_plugin p m))) ≡ symbol_bars z (lookup p m)
  unfolding with_plugin lookup
  symbol-with_plugin p z m = elim (Bool-cases (contains p m)) [
    | inl c ↦ rw c (let (w, e) = contains-some p m c in rw e refl)
    | inr c ↦ rw c (rw (lookup-insert p p [] m, contains-lookup p m c) (ground arith))
  ]

  symbol-insert :
      (p y q z : String) (b : AggregateBars D) (m : Dict (Dict (AggregateBars D)))
      → symbol_bars z (
          lookup q
            (insert p (insert y b (or_empty (lookup p (with_plugin p m)))) (with_plugin p m)))
        ≡ (if str_eq p q && str_eq y z then some b else symbol_bars z (lookup q m))
  symbol-insert p y q z b m = elim (Bool-cases (str_eq p q)) [
    | inl e ↦
        rw
          (
            lookup-insert p q (insert y b (or_empty (lookup p (with_plugin p m))))
                (with_plugin p m),
            e,
            lookup-insert y z b (or_empty (lookup p (with_plugin p m))),
            symbol-with_plugin p z m,
          )
          (ap (λ k. if str_eq y z then some b else symbol_bars z (lookup k m)) ((eq_iff p q).0 e))
    | inr e ↦
        rw
          (
            lookup-insert p q (insert y b (or_empty (lookup p (with_plugin p m))))
                (with_plugin p m),
            e,
          )
          (ap (symbol_bars z) (lookup-with_plugin p q m e))
  ]

  -- Whether the mutex is held or the body locks it again, the call is the same.
  either_way : {A : Type 0} (held : Bool) (call : Call D A) → (if held then call else call) ≡ call
  either_way true call = refl
  either_way false call = refl

  -- A call of `get_bars` for any plugin and symbol returns and leaves the store; so does
  -- `store_bars_by_plugin_name` with a free mutex, and afterwards `get_bars` returns the stored bars for the
  -- plugin and symbol stored and what it returned before for every other pair.
  pub get_bars-store_bars :
      (p y q z : String) (b : AggregateBars D) (s : DataStore D)
      → s.mutex_held ≡ false
      → (before : Option (AggregateBars D)) × (after : DataStore D) × (get_bars q z s
          ≡ returned before s)
        × (store_bars_by_plugin_name p y b s ≡ returned tt after)
        × (after.mutex_held ≡ false)
        × (get_bars q z after
            ≡ returned (if str_eq p q && str_eq y z then some b else before) after)
  unfolding get_bars store_bars_by_plugin_name lock_guard unlock
  get_bars-store_bars p y q z b s h =
      let after : DataStore D = record {
        mutex_held = false;
        bars =
            insert p (insert y b (or_empty (lookup p (with_plugin p s.bars))))
              (with_plugin p s.bars);
        iterable_plugin_data = s.iterable_plugin_data;
      } in
      (
        symbol_bars z (lookup q s.bars),
        after,
        rw h refl,
        rw h refl,
        refl,
        ap (λ found. returned found after) (symbol-insert p y q z b s.bars),
      )

  -- `get_iterable_plugin_data` and `create_iterable_plugin_data` never return, whatever the store holds and
  -- whoever holds the mutex: each of them calls an operation that locks the mutex it has locked.
  pub iterable_calls-blocked :
      (sort : (Bar D → Bar D → Bool) → List (Bar D) → List (Bar D)) (p : String) (s : DataStore D)
      → (get_iterable_plugin_data sort p s ≡ blocked)
        × (create_iterable_plugin_data sort p s ≡ blocked)
  unfolding get_iterable_plugin_data create_iterable_plugin_data has_iterable_plugin_data lock_guard
      unlock
  iterable_calls-blocked sort p s =
      (either_way s.mutex_held blocked, either_way s.mutex_held blocked)
