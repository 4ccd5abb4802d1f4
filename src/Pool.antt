-- ===== src/Pool.antt =====
-- eibc/pool.go: the orders that wait to be fulfilled. The map holds pointers, so an order that was
-- handed out is still the pool's: a pointer is a number, and the heap says which order it leads to.
pub mod Contents
pub mod Dispatch
pub mod Places
use eibc_client.Base.{
  ℕ, ◌+◌, Bool, true, ◌||◌, List, [], ◌∷◌, Option, none, some, String, ◌==◌, if◌then◌else◌,
}
use eibc_client.Base.Map.{Map, lookup, insert, erase}
use eibc_client.Sdk.{Sdk}
use eibc_client.Types.{DemandOrder}

module _ ⦃S : Sdk⦄ where
  abbrev pub Heap : Type 0
  Heap = ℕ → DemandOrder

  abbrev pub update : Heap → ℕ → DemandOrder → Heap
  update h r o q = if q == r then o else h q

  -- `order.checking || order.valid`
  abbrev pub busy : DemandOrder → Bool
  busy o = o.checking || o.valid

  -- `order.checking = true`
  abbrev pub mark_checking : DemandOrder → DemandOrder
  mark_checking o = record o { checking = true }

  -- `order.valid = true`
  abbrev pub mark_valid : DemandOrder → DemandOrder
  mark_valid o = record o { valid = true }

pub record OrderPool : Type 0 where
  pub orders : Map ℕ

abbrev pub empty_pool : OrderPool
empty_pool = record { orders = [] }

unfoldable pub get_order : String → OrderPool → Option ℕ
get_order id p = lookup id p.orders

unfoldable pub remove_order : String → OrderPool → OrderPool
remove_order id p = record { orders = erase id p.orders }

module _ ⦃S : Sdk⦄ where
  -- the loop of `addOrder`: an order that is in the pool stays as it is
  unfoldable pub add_order : Heap → List ℕ → OrderPool → OrderPool
  add_order h [] p = p
  add_order h (r ∷ rs) p = add_order h rs (elim (lookup (h r).id p.orders) [
    | none ↦ record { orders = insert (h r).id r p.orders }
    | some _ ↦ p
  ])

  -- whether `upsertOrder` skips an order, because the one in the pool is in hand
  in_hand : Heap → Option ℕ → Bool
  in_hand h none = Bool.false
  in_hand h (some r) = busy (h r)

  unfoldable pub upsert_order : Heap → List ℕ → OrderPool → OrderPool
  unfolding in_hand
  upsert_order h [] p = p
  upsert_order h (r ∷ rs) p = upsert_order h rs (
      if in_hand h (lookup (h r).id p.orders)
      then p
      else record { orders = insert (h r).id r p.orders })

  unfoldable pub set_valid : String → OrderPool → Heap → Heap
  set_valid id p h = elim (lookup id p.orders) [ none ↦ h | some r ↦ update h r (mark_valid (h r)) ]

  -- The loop of `popOrders`, over the keys in the order in which `range` gives them; `n` is
  -- `len(orders)`.
  unfoldable pub pop_loop : ℕ → ℕ → List String → OrderPool → Heap → List ℕ × Heap
  pop_loop limit n [] p h = ([], h)
  pop_loop limit n (k ∷ ks) p h = elim (lookup k p.orders) [
    | none ↦ pop_loop limit n ks p h
    | some r ↦
        let skip = pop_loop limit n ks p h in
        let h' = update h r (mark_checking (h r)) in
        let more = pop_loop limit (n + 1) ks p h' in
        if busy (h r) then skip else if n + 1 == limit then (r ∷ [], h') else (r ∷ more.0, more.1)
  ]

  unfoldable pub pop_orders : ℕ → List String → OrderPool → Heap → List ℕ × Heap
  unfolding pop_loop
  pop_orders limit ks p h = pop_loop limit 0 ks p h
