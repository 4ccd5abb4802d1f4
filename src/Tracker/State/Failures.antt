-- ===== src/Tracker/State/Failures.antt =====
-- What the tracker remembers of failed orders.
use eibc_client.Base.{
  ◌≡◌, ◌≢◌, refl, true, false, not, ◌&&◌, List, [], ◌∷◌, none, some, String, str_eq, contains_key,
  eq_iff, eq_refl, if◌then◌else◌, arith,
}
use eibc_client.Base.Map.{lookup, insert, lookup-insert, lookup-erase}
use eibc_client.Pool.{get_order}
use eibc_client.Pool.Contents.{get_order-remove_order}
use eibc_client.Sdk.{Sdk}
use eibc_client.Tracker.State.{
  OrderTracker, can_fulfill_order, is_rollapp_supported, process_results, process_result,
}
use eibc_client.Types.{DemandOrder, OrderFulfillResult}

module _ ⦃S : Sdk⦄ where
  -- After an order failed with the hash `h`, an order with its identifier is taken on exactly if
  -- its rollapp is supported and its own hash is another one, as when its fee was raised; and once
  -- it was taken on, the failure is forgotten, so that the next one is taken on whatever its fee.
  pub can_fulfill_order-process_results :
      (o : DemandOrder) (h : String) (t : OrderTracker)
      → h ≢ ""
      → let (taken, t') =
          can_fulfill_order o
            (process_results (record { order_id = o.id; failed_order_hash = h } ∷ []) t) in
        (taken ≡ (is_rollapp_supported o.rollapp_id t && not (str_eq (S.order_hash o.id o.fee) h)))
        × (taken ≡ true → lookup o.id t'.failed_order_hashes ≡ none)
        × (taken ≡ false → lookup o.id t'.failed_order_hashes ≡ some h)
        × (get_order o.id t'.pool ≡ none)
  unfolding can_fulfill_order process_results is_rollapp_supported
  can_fulfill_order-process_results o h t filled = (
    ground (arith, eq_iff h "", eq_refl o.id, lookup-insert o.id o.id h t.failed_order_hashes),
    ground (
      arith,
      eq_iff h "",
      eq_refl o.id,
      lookup-insert o.id o.id h t.failed_order_hashes,
      lookup-erase o.id o.id (insert o.id h t.failed_order_hashes),
    ),
    ground (arith, eq_iff h "", eq_refl o.id, lookup-insert o.id o.id h t.failed_order_hashes),
    ground (arith, eq_refl o.id, get_order-remove_order o.id o.id t.pool),
  )

  abbrev pub ids : List OrderFulfillResult → List String
  ids [] = []
  ids (r ∷ rs) = r.order_id ∷ ids rs

  -- A message of results removes exactly its orders from the pool.
  pub get_order-process_results :
      (rs : List OrderFulfillResult) (t : OrderTracker) (j : String)
      → get_order j (process_results rs t).pool
        ≡ (if contains_key j (ids rs) then none else get_order j t.pool)
  unfolding process_results
  get_order-process_results [] t j = refl
  get_order-process_results (r ∷ rs) t j = ground (
    arith,
    get_order-remove_order r.order_id j t.pool,
    get_order-process_results rs (process_result r t) j,
  )
