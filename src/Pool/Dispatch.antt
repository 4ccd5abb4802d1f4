-- ===== src/Pool/Dispatch.antt =====
-- `popOrders` hands each order out once.
use eibc_client.Base.{
  ℕ, ◌+◌, ◌≡◌, ◌≤◌, ◌<◌, refl, true, false, List, [], ◌∷◌, some, String, arith, if◌then◌else◌,
  Option-cases, inl, inr, contains, contains_key, length, eq_iff,
}
use eibc_client.Base.Map.{lookup}
use eibc_client.Sdk.{Sdk}
use eibc_client.Pool.{Heap, OrderPool, pop_loop, pop_orders, busy, mark_checking, get_order, update}

module _ ⦃S : Sdk⦄ where
  abbrev pub marked : Heap → ℕ → Heap
  marked h r = update h r (mark_checking (h r))

  pop_loop_idle :
      (limit n : ℕ) (ks : List String) (p : OrderPool) (h : Heap) (q : ℕ)
      → contains q (pop_loop limit n ks p h).0 ≡ true
      → busy (h q) ≡ false
  unfolding pop_loop
  pop_loop_idle limit n [] p h q c = ground arith
  pop_loop_idle limit n (k ∷ ks) p h q c = elim (Option-cases (lookup k p.orders)) [
    | inl e ↦ ground (arith, pop_loop_idle limit n ks p h q)
    | inr (r, e) ↦
        ground
          (arith, pop_loop_idle limit n ks p h q, pop_loop_idle limit (n + 1) ks p (marked h r) q)
  ]

  pop_loop_heap :
      (limit n : ℕ) (ks : List String) (p : OrderPool) (h : Heap) (q : ℕ)
      → (pop_loop limit n ks p h).1 q
        ≡ (if contains q (pop_loop limit n ks p h).0 then mark_checking (h q) else h q)
  unfolding pop_loop
  pop_loop_heap limit n [] p h q = refl
  pop_loop_heap limit n (k ∷ ks) p h q = elim (Option-cases (lookup k p.orders)) [
    | inl e ↦ ground (arith, pop_loop_heap limit n ks p h q)
    | inr (r, e) ↦
        ground
          (arith, pop_loop_heap limit n ks p h q, pop_loop_heap limit (n + 1) ks p (marked h r) q)
  ]

  pop_loop_bound :
      (limit n : ℕ) (ks : List String) (p : OrderPool) (h : Heap)
      → n < limit
      → n + length (pop_loop limit n ks p h).0 ≤ limit
  unfolding pop_loop
  pop_loop_bound limit n [] p h b = omega arith
  pop_loop_bound limit n (k ∷ ks) p h b = elim (Option-cases (lookup k p.orders)) [
    | inl e ↦ ground (arith, pop_loop_bound limit n ks p h b)
    | inr (r, e) ↦
        ground
          (arith, pop_loop_bound limit n ks p h, pop_loop_bound limit (n + 1) ks p (marked h r))
  ]

  -- Whatever the runtime's order of iteration: every order handed out was neither being checked
  -- nor valid, and exactly those orders are marked as being checked, with nothing else changed.
  pub pop_orders_exact :
      (limit : ℕ) (ks : List String) (p : OrderPool) (h : Heap) (q : ℕ)
      → (contains q (pop_orders limit ks p h).0 ≡ true → busy (h q) ≡ false)
        × ((pop_orders limit ks p h).1 q
            ≡ (if contains q (pop_orders limit ks p h).0 then mark_checking (h q) else h q))
  unfolding pop_orders
  pop_orders_exact limit ks p h q = (pop_loop_idle limit 0 ks p h q, pop_loop_heap limit 0 ks p h q)

  -- A batch never exceeds a positive limit.
  pub pop_orders_bound :
      (limit : ℕ) (ks : List String) (p : OrderPool) (h : Heap)
      → 0 < limit
      → length (pop_orders limit ks p h).0 ≤ limit
  unfolding pop_orders
  pop_orders_bound limit ks p h b = omega (arith, pop_loop_bound limit 0 ks p h)

  -- Two calls in a row, with any limits and any orders of iteration, have no order in common, even
  -- if entries were added or removed in between.
  pub pop_orders_once :
      (limit limit' : ℕ) (ks ks' : List String) (p p' : OrderPool) (h : Heap) (q : ℕ)
      → contains q (pop_orders limit ks p h).0 ≡ true
      → contains q (pop_orders limit' ks' p' (pop_orders limit ks p h).1).0 ≡ false
  pop_orders_once limit limit' ks ks' p p' h q c = ground (
    arith,
    pop_orders_exact limit ks p h q,
    pop_orders_exact limit' ks' p' (pop_orders limit ks p h).1 q,
  )

  pop_loop-busy :
      (limit n : ℕ) (ks : List String) (p : OrderPool) (h : Heap) (q : ℕ)
      → busy (h q) ≡ true
      → busy ((pop_loop limit n ks p h).1 q) ≡ true
  pop_loop-busy limit n ks p h q b = ground (arith, pop_loop_heap limit n ks p h q)

  pop_loop_exhaustive :
      (limit n : ℕ) (ks : List String) (p : OrderPool) (h : Heap) (k : String) (q : ℕ)
      → n + length (pop_loop limit n ks p h).0 < limit
      → contains_key k ks ≡ true
      → lookup k p.orders ≡ some q
      → busy ((pop_loop limit n ks p h).1 q) ≡ true
  unfolding pop_loop
  pop_loop_exhaustive limit n [] p h k q b v e = cc
  pop_loop_exhaustive limit n (j ∷ ks) p h k q b v e = elim (Option-cases (lookup j p.orders)) [
    | inl a ↦ ground (arith, eq_iff j k, pop_loop_exhaustive limit n ks p h k q)
    | inr (r, a) ↦ ground (
      arith,
      eq_iff j k,
      pop_loop-busy limit n ks p h q,
      pop_loop-busy limit (n + 1) ks p (marked h r) q,
      pop_loop_exhaustive limit n ks p h k q,
      pop_loop_exhaustive limit (n + 1) ks p (marked h r) k q,
    )
  ]

  -- A batch that stays below the limit leaves no order idle: after it every order that the
  -- iteration visited is being checked or valid.
  pub pop_orders_exhaustive :
      (limit : ℕ) (ks : List String) (p : OrderPool) (h : Heap) (k : String) (q : ℕ)
      → length (pop_orders limit ks p h).0 < limit
      → contains_key k ks ≡ true
      → get_order k p ≡ some q
      → busy ((pop_orders limit ks p h).1 q) ≡ true
  unfolding pop_orders get_order
  pop_orders_exhaustive limit ks p h k q b v e =
      pop_loop_exhaustive limit 0 ks p h k q (omega arith) v e
