-- ===== src/Engine/Rounds.antt =====
-- back_test_engine.cpp: how many rounds the loops take without a cap on the volume.
pub mod Limits
pub mod Exits
use quant_forge_quant_resear.Common.{
  ℕ, suc, ◌≤◌, String, ◌≡◌, refl, ap, ◌∙◌, inl, inr, Bool, true, false, Option, none, some, List,
  [], ◌∷◌, ◌++◌, arith, length-perm, Bool-cases, Option-cases,
}
use quant_forge_quant_resear.Result.{Result, ok, throw, unfinished, ◌>>=◌}
use quant_forge_quant_resear.Result.Leaves.{Gives}
use quant_forge_quant_resear.Double.{Double, IsIeee, nought}
use quant_forge_quant_resear.Heap
use quant_forge_quant_resear.Models.{
  Order, ExecutionResult, ExecutionResultSuccess, success, error, has_value, is_limit_order,
}
use quant_forge_quant_resear.Params.{HostParams}
use quant_forge_quant_resear.State.{State}
use quant_forge_quant_resear.LimitBook.{LimitOrderBook}
use quant_forge_quant_resear.Executor.{
  get_fillable_and_remaining_quantities, success_result, execute_order,
}
use quant_forge_quant_resear.Executor.Total.{execute_order-Returns}
use quant_forge_quant_resear.Executor.Success.{Filled, execute_order-Filled}
use quant_forge_quant_resear.Engine.{
  Engine, create_scheduled_limit_order, schedule, book_success, handle_execution_result, execute,
}
use quant_forge_quant_resear.Engine.Kept.{IsKept}
use quant_forge_quant_resear.Engine.Ordered.{IsValid, valid_kept}

ok-injective {ℓ} : {A : Type ℓ} {a b : A} → ok a ≡ ok b → a ≡ b
ok-injective h = cc

module _ {D : Type 0} ⦃d : Double D⦄ (host_params : HostParams D) where
  -- Scheduling throws nothing: a limit order has its limit price.
  schedule-Gives :
      (o : Order D) (e : Engine D) → Gives (λ (e' : Engine D). Unit) (schedule o host_params e)
  unfolding schedule create_scheduled_limit_order is_limit_order
  schedule-Gives o e = ground arith

  module _ (ieee : IsIeee D) (uncapped : host_params.fill_max_pct_of_volume ≡ none) where
    pub no_partial_order :
        (o : Order D) (s : State D) (uuid : String) (r : ExecutionResultSuccess D)
        → execute_order o host_params s uuid ≡ ok (success r)
        → r.partial_order ≡ none
    unfolding get_fillable_and_remaining_quantities success_result
    no_partial_order o s uuid r done =
        let f = execute_order-Filled o host_params s uuid r done in
        ground (arith, f.result, f.quantities, uncapped, ieee.lt_asym nought nought)

    abbrev pub SameQueues : Engine D → Engine D → Type 0
    SameQueues e e' = (e'.order_book ≡ e.order_book) × (e'.limit_order_book ≡ e.limit_order_book)

    handle-SameQueues :
        (result : ExecutionResult D) (e : Engine D)
        → ((r : ExecutionResultSuccess D) → result ≡ success r → r.partial_order ≡ none)
        → Gives (SameQueues e) (handle_execution_result result host_params e)
    unfolding handle_execution_result book_success
    handle-SameQueues (error message) e h = (refl, refl)
    handle-SameQueues (success r) e h = rw (h r refl) (refl, refl)

    -- An execution returns, and leaves the order book and the limit books as they are.
    pub execute-SameQueues :
        (create_uuid : ℕ → String) (o : Order D) (e : Engine D)
        → Gives (SameQueues e) (execute create_uuid o host_params e)
    unfolding execute
    execute-SameQueues create_uuid o e =
        let uuid = create_uuid e.uuids_drawn in
        let (result, q) = execute_order-Returns o host_params e.state uuid in
        rw q (
          handle-SameQueues result (record e { uuids_drawn = suc e.uuids_drawn })
            (λ r s. no_partial_order o e.state uuid r (q ∙ ap ok s)))
