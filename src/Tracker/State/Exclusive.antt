-- ===== src/Tracker/State/Exclusive.antt =====
-- The batches of orders that wait to be checked or to be fulfilled, and what an operation must do to
-- keep them apart.
use eibc_client.Base.{
  ℕ, ◌+◌, ◌≤◌, ◌<◌, ◌≡◌, refl, ap, subst, ◌∙◌, List, [], ◌∷◌, String, arith, List-cases, inl, inr,
  All,
}
use eibc_client.Base.Chunk.{join}
use eibc_client.Base.Counts.{flag, count, count-join_last, count-sort_slice, All-count}
use eibc_client.Base.Sort.{sort_slice}
use eibc_client.Config.{new_order_buffer_size}
use eibc_client.Pool.{busy, pop_orders}
use eibc_client.Pool.Places.{
  IsBelow, remove_order-IsBelow, upsert_order-IsBelow, pop_orders-count, pop_orders-IsBelow,
}
use eibc_client.Sdk.{Sdk}
use eibc_client.Tracker.State.{
  OrderTracker, check_orders, higher_first, process_results, process_result, track_orders,
}
use eibc_client.Types.{OrderFulfillResult}

module _ ⦃S : Sdk⦄ where
  -- how often a pointer occurs in the batches that wait
  abbrev pub waiting : ℕ → OrderTracker → ℕ
  waiting q t = count q (join t.to_check_orders) + count q (join t.output_orders)

  -- An order waits at most once, and only while it is being checked or is valid; what waits and what
  -- is in the pool has been stored.
  pub record IsExclusive (t : OrderTracker) : Type 0 where
    pub once : (q : ℕ) → waiting q t ≤ flag (busy (t.heap q))
    pub known : (q : ℕ) → t.next ≤ q → waiting q t ≡ 0
    pub stored : IsBelow t.next t.pool

  -- The waiting batches stay as they are, and no stored order is set idle.
  pub record Grows (t u : OrderTracker) : Type 0 where
    pub checks : u.to_check_orders ≡ t.to_check_orders
    pub outputs : u.output_orders ≡ t.output_orders
    pub sizes : (u.num_fulfillers ≡ t.num_fulfillers) × (u.max_orders_per_tx ≡ t.max_orders_per_tx)
    pub more : t.next ≤ u.next
    pub same : (q : ℕ) → q < t.next → busy (u.heap q) ≡ busy (t.heap q)
    pub stores : IsBelow t.next t.pool → IsBelow u.next u.pool

  pub Grows-waiting : (t u : OrderTracker) → Grows t u → (q : ℕ) → waiting q u ≡ waiting q t
  Grows-waiting t u g q = rw (g.checks, g.outputs) refl

  pub Grows-IsExclusive : (t u : OrderTracker) → Grows t u → IsExclusive t → IsExclusive u
  Grows-IsExclusive t u g x = record {
    once = λ q. ground (arith, Grows-waiting t u g q, x.once q, x.known q, g.same q);
    known = λ q b. omega (arith, Grows-waiting t u g q, x.known q (omega (arith, g.more)), g.more);
    stored = g.stores x.stored;
  }

  pub Grows-refl : (t : OrderTracker) → Grows t t
  Grows-refl t = record {
    checks = refl;
    outputs = refl;
    sizes = (refl, refl);
    more = omega arith;
    same = λ q b. refl;
    stores = λ s. s;
  }

  pub Grows-trans : (t u v : OrderTracker) → Grows t u → Grows u v → Grows t v
  Grows-trans t u v g h = record {
    checks = h.checks ∙ g.checks;
    outputs = h.outputs ∙ g.outputs;
    sizes = (h.sizes.0 ∙ g.sizes.0, h.sizes.1 ∙ g.sizes.1);
    more = omega (arith, g.more, h.more);
    same = λ q b. h.same q (omega (arith, g.more)) ∙ g.same q b;
    stores = λ s. h.stores (g.stores s);
  }

  pub track_orders-Grows :
      (rs : List ℕ) (t : OrderTracker) → All (λ r. r < t.next) rs → Grows t (track_orders rs t)
  unfolding track_orders
  track_orders-Grows rs t b = record {
    checks = refl;
    outputs = refl;
    sizes = (refl, refl);
    more = omega arith;
    same = λ q h. refl;
    stores = upsert_order-IsBelow t.next t.heap rs t.pool b;
  }

  process_result-Grows : (r : OrderFulfillResult) (t : OrderTracker) → Grows t (process_result r t)
  unfolding process_result
  process_result-Grows r t = record {
    checks = refl;
    outputs = refl;
    sizes = (refl, refl);
    more = omega arith;
    same = λ q h. refl;
    stores = remove_order-IsBelow t.next r.order_id t.pool;
  }

  pub process_results-Grows :
      (rs : List OrderFulfillResult) (t : OrderTracker) → Grows t (process_results rs t)
  unfolding process_results
  process_results-Grows [] t = Grows-refl t
  process_results-Grows (r ∷ rs) t =
      Grows-trans t (process_result r t) (process_results rs (process_result r t))
        (process_result-Grows r t) (process_results-Grows rs (process_result r t))

  -- What `checkOrders` sends is what `popOrders` returned.
  pub check_orders-count :
      (keys : List String) (t : OrderTracker) (q : ℕ)
      → count q (join (check_orders keys t).to_check_orders)
        ≡ count q (join t.to_check_orders)
          + count q (pop_orders new_order_buffer_size keys t.pool t.heap).0
  unfolding check_orders
  check_orders-count keys t q =
      let p = pop_orders new_order_buffer_size keys t.pool t.heap in
      elim (List-cases p.0) [
        | inl e ↦ rw (e, check_orders) (omega arith)
        | inr (r, rs, e) ↦
            rw (e, check_orders)
              (count-join_last q t.to_check_orders (sort_slice (higher_first p.1) (r ∷ rs))
                ∙ ap (λ n. count q (join t.to_check_orders) + n)
                    (count-sort_slice (higher_first p.1) q (r ∷ rs)))
      ]

  -- Otherwise it changes the orders only.
  pub check_orders_rest :
      (keys : List String) (t : OrderTracker)
      → ((check_orders keys t).output_orders ≡ t.output_orders)
        × ((check_orders keys t).num_fulfillers ≡ t.num_fulfillers)
        × ((check_orders keys t).max_orders_per_tx ≡ t.max_orders_per_tx)
        × ((check_orders keys t).next ≡ t.next)
        × ((check_orders keys t).pool ≡ t.pool)
        × ((check_orders keys t).heap ≡ (pop_orders new_order_buffer_size keys t.pool t.heap).1)
  unfolding check_orders
  check_orders_rest keys t =
      elim (List-cases (pop_orders new_order_buffer_size keys t.pool t.heap).0) [
        | inl e ↦ rw (check_orders, e) (refl, refl, refl, refl, refl, refl)
        | inr (r, rs, e) ↦ rw (check_orders, e) (refl, refl, refl, refl, refl, refl)
      ]

  -- A batch that `checkOrders` sends holds no order that already waits.
  pub check_orders-IsExclusive :
      (keys : List String) (t : OrderTracker) → IsExclusive t → IsExclusive (check_orders keys t)
  check_orders-IsExclusive keys t x =
      let p = pop_orders new_order_buffer_size keys t.pool t.heap in
      let below = pop_orders-IsBelow new_order_buffer_size keys t.pool t.heap t.next x.stored in
      let (outputs, _, _, next, pool, heap) = check_orders_rest keys t in
      record {
        once = λ q.
            rw (heap, outputs, check_orders-count keys t q)
              (omega
                (arith, x.once q, pop_orders-count new_order_buffer_size keys t.pool t.heap q));
        known = λ q b.
            let known_before = subst (λ n. n ≤ q) next b in
            rw (outputs, check_orders-count keys t q)
              (omega (arith, x.known q known_before, All-count t.next p.0 below q known_before));
        stored = rw (next, pool) x.stored;
      }
