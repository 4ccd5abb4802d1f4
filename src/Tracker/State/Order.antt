-- ===== src/Tracker/State/Order.antt =====
-- In which order the tracker hands orders on.
use mathlib.Core.List.{Perm}
use eibc_client.Base.{ℕ, ◌≡◌, ◌⊎◌, inl, inr, List-cases, List, [], ◌∷◌, ◌++◌, String, arith}
use eibc_client.Base.Sort.{sort_slice, IsStrict, IsSorted, sort_slice-IsSorted, sort_slice-perm}
use eibc_client.Config.{new_order_buffer_size}
use eibc_client.Pool.{Heap, pop_orders}
use eibc_client.Sdk.{Sdk}
use eibc_client.Tracker.State.{OrderTracker, check_orders, higher_first}

module _ ⦃S : Sdk⦄ where
  higher_first-IsStrict : (h : Heap) → IsStrict (higher_first h)
  higher_first-IsStrict h = record {
    asym = λ a b e. ground arith;
    negative = λ a b c e k. ground arith;
  }

  -- `checkOrders` either finds no idle order and sends nothing, or it sends one batch: the orders
  -- that it popped, each as often, with the highest proof heights first.
  pub check_orders-IsSorted :
      (keys : List String) (t : OrderTracker)
      → let (popped, h) = pop_orders new_order_buffer_size keys t.pool t.heap in
        let t' = check_orders keys t in
        (t'.heap ≡ h)
        × (((popped ≡ []) × (t'.to_check_orders ≡ t.to_check_orders))
            ⊎ ((batch : List ℕ) × (t'.to_check_orders ≡ t.to_check_orders ++ batch ∷ [])
                × Perm batch popped
                × IsSorted (higher_first h) batch))
  unfolding check_orders
  check_orders-IsSorted keys t =
      let popped = (pop_orders new_order_buffer_size keys t.pool t.heap).0 in
      let h = (pop_orders new_order_buffer_size keys t.pool t.heap).1 in
      elim (List-cases popped) [
        | inl e ↦ (ground arith, inl (e, ground arith))
        | inr (r, rs, e) ↦ (
          ground arith,
          inr (
            sort_slice (higher_first h) popped,
            ground arith,
            sort_slice-perm (higher_first h) popped,
            sort_slice-IsSorted (higher_first h) (higher_first-IsStrict h) popped,
          ),
        )
      ]
