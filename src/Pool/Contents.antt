-- ===== src/Pool/Contents.antt =====
-- What the pool holds after each operation that writes it.
use eibc_client.Base.{
  ℕ, ◌≡◌, true, List, [], ◌∷◌, none, some, String, arith, str_eq, eq_iff, if◌then◌else◌,
}
use eibc_client.Base.Map.{lookup-insert, lookup-erase}
use eibc_client.Sdk.{Sdk}
use eibc_client.Pool.{
  Heap, OrderPool, in_hand, get_order, remove_order, add_order, upsert_order, busy,
}

module _ ⦃S : Sdk⦄ where
  -- One upserted order replaces the entry of its identifier, or adds it, unless the order there is
  -- being checked or was found valid; no other entry changes.
  pub get_order-upsert_order :
      (h : Heap) (r : ℕ) (p : OrderPool) (id : String)
      → get_order id (upsert_order h (r ∷ []) p) ≡ (elim (get_order (h r).id p) [
        | none ↦ if str_eq (h r).id id then some r else get_order id p
        | some q ↦
            if busy (h q)
            then get_order id p
            else if str_eq (h r).id id
            then some r
            else get_order id p
      ])
  unfolding get_order upsert_order in_hand
  get_order-upsert_order h r p id = ground (arith, lookup-insert (h r).id id r p.orders)

  -- An order that is in hand stays in the pool under its identifier, whatever is upserted.
  pub upsert_order_in_hand :
      (h : Heap) (rs : List ℕ) (p : OrderPool) (id : String) (q : ℕ)
      → get_order id p ≡ some q
      → busy (h q) ≡ true
      → get_order id (upsert_order h rs p) ≡ some q
  unfolding get_order upsert_order in_hand
  upsert_order_in_hand h [] p id q e b = e
  upsert_order_in_hand h (r ∷ rs) p id q e b =
      upsert_order_in_hand h rs _ id q
        (ground (arith, lookup-insert (h r).id id r p.orders, eq_iff (h r).id id)) b

  -- `addOrder` never replaces an entry.
  pub add_order_keeps :
      (h : Heap) (rs : List ℕ) (p : OrderPool) (id : String) (q : ℕ)
      → get_order id p ≡ some q
      → get_order id (add_order h rs p) ≡ some q
  unfolding get_order add_order
  add_order_keeps h [] p id q e = e
  add_order_keeps h (r ∷ rs) p id q e =
      add_order_keeps h rs _ id q
        (ground (arith, lookup-insert (h r).id id r p.orders, eq_iff (h r).id id))

  -- A removed order is gone, and no other entry changes.
  pub get_order-remove_order :
      (id j : String) (p : OrderPool)
      → get_order j (remove_order id p) ≡ (if str_eq id j then none else get_order j p)
  unfolding get_order remove_order
  get_order-remove_order id j p = lookup-erase id j p.orders
