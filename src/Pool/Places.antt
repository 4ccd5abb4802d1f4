-- ===== src/Pool/Places.antt =====
-- Which pointers the pool holds, and how often `popOrders` hands a pointer out.
use eibc_client.Base.{
  ℕ, ◌+◌, ◌≤◌, ◌<◌, ◌≡◌, List, [], ◌∷◌, some, String, arith, Option-cases, Bool-cases, inl, inr,
  ◌==◌, All,
}
use eibc_client.Base.Counts.{flag, count}
use eibc_client.Base.Map.{lookup, insert, lookup-insert, lookup-erase}
use eibc_client.Pool.{
  Heap, OrderPool, busy, in_hand, remove_order, add_order, upsert_order, pop_loop, pop_orders,
}
use eibc_client.Pool.Dispatch.{marked}
use eibc_client.Sdk.{Sdk}

-- Every pointer in the pool is below `n`.
abbrev pub IsBelow : ℕ → OrderPool → Type 0
IsBelow n p = (k : String) (r : ℕ) → lookup k p.orders ≡ some r → r < n

pub remove_order-IsBelow :
    (n : ℕ) (id : String) (p : OrderPool) → IsBelow n p → IsBelow n (remove_order id p)
unfolding remove_order
remove_order-IsBelow n id p h k r e = ground (arith, lookup-erase id k p.orders, h k r)

insert-IsBelow :
    (n : ℕ) (id : String) (q : ℕ) (p : OrderPool)
    → q < n
    → IsBelow n p
    → IsBelow n (record { orders = insert id q p.orders })
insert-IsBelow n id q p b h k r e = ground (arith, lookup-insert id k q p.orders, h k r)

module _ ⦃S : Sdk⦄ where
  pub add_order-IsBelow :
      (n : ℕ) (h : Heap) (rs : List ℕ) (p : OrderPool)
      → All (λ r. r < n) rs
      → IsBelow n p
      → IsBelow n (add_order h rs p)
  unfolding add_order
  add_order-IsBelow n h [] p b s = s
  add_order-IsBelow n h (r ∷ rs) p b s = elim (Option-cases (lookup (h r).id p.orders)) [
    | inr (q, e) ↦ rw (e, add_order) (add_order-IsBelow n h rs p b.1 s)
    | inl e ↦
        rw (e, add_order)
          (add_order-IsBelow n h rs (record { orders = insert (h r).id r p.orders }) b.1
            (insert-IsBelow n (h r).id r p b.0 s))
  ]

  pub upsert_order-IsBelow :
      (n : ℕ) (h : Heap) (rs : List ℕ) (p : OrderPool)
      → All (λ r. r < n) rs
      → IsBelow n p
      → IsBelow n (upsert_order h rs p)
  unfolding upsert_order
  upsert_order-IsBelow n h [] p b s = s
  upsert_order-IsBelow n h (r ∷ rs) p b s =
      elim (Bool-cases (in_hand h (lookup (h r).id p.orders))) [
        | inl e ↦ rw (e, upsert_order) (upsert_order-IsBelow n h rs p b.1 s)
        | inr e ↦
            rw (e, upsert_order)
              (upsert_order-IsBelow n h rs (record { orders = insert (h r).id r p.orders }) b.1
                (insert-IsBelow n (h r).id r p b.0 s))
      ]

  -- What is handed out was idle, each once, and is busy afterwards; what was busy still is.
  pop_loop-count :
      (limit n : ℕ) (ks : List String) (p : OrderPool) (h : Heap) (q : ℕ)
      → count q (pop_loop limit n ks p h).0 + flag (busy (h q))
        ≤ flag (busy ((pop_loop limit n ks p h).1 q))
  unfolding pop_loop
  pop_loop-count limit n [] p h q = omega arith
  pop_loop-count limit n (k ∷ ks) p h q = elim (Option-cases (lookup k p.orders)) [
    | inl e ↦ rw (e, pop_loop) (pop_loop-count limit n ks p h q)
    | inr (r, e) ↦
        ground
          (arith, pop_loop-count limit n ks p h q, pop_loop-count limit (n + 1) ks p (marked h r) q)
  ]

  pop_loop-IsBelow :
      (limit n : ℕ) (ks : List String) (p : OrderPool) (h : Heap) (b : ℕ)
      → IsBelow b p
      → All (λ r. r < b) (pop_loop limit n ks p h).0
  unfolding pop_loop
  pop_loop-IsBelow limit n [] p h b s = tt
  pop_loop-IsBelow limit n (k ∷ ks) p h b s = elim (Option-cases (lookup k p.orders)) [
    | inl e ↦ rw (e, pop_loop) (pop_loop-IsBelow limit n ks p h b s)
    | inr (r, e) ↦ elim (Bool-cases (busy (h r))) [
      | inl x ↦ rw (e, pop_loop, x) (pop_loop-IsBelow limit n ks p h b s)
      | inr x ↦ elim (Bool-cases (n + 1 == limit)) [
        | inl y ↦ rw (e, pop_loop, x, y) (s k r e, tt)
        | inr y ↦
            rw (e, pop_loop, x, y) (s k r e, pop_loop-IsBelow limit (n + 1) ks p (marked h r) b s)
      ]
    ]
  ]

  pub pop_orders-count :
      (limit : ℕ) (ks : List String) (p : OrderPool) (h : Heap) (q : ℕ)
      → count q (pop_orders limit ks p h).0 + flag (busy (h q))
        ≤ flag (busy ((pop_orders limit ks p h).1 q))
  unfolding pop_orders
  pop_orders-count limit ks p h q = pop_loop-count limit 0 ks p h q

  pub pop_orders-IsBelow :
      (limit : ℕ) (ks : List String) (p : OrderPool) (h : Heap) (b : ℕ)
      → IsBelow b p
      → All (λ r. r < b) (pop_orders limit ks p h).0
  unfolding pop_orders
  pop_orders-IsBelow limit ks p h b s = pop_loop-IsBelow limit 0 ks p h b s
