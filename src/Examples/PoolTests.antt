-- ===== src/Examples/PoolTests.antt =====
-- eibc/pool.go
use eibc_client.Base.{◌≡◌, refl, true, false, [], ◌∷◌, arith, contains, if◌then◌else◌}
use eibc_client.Examples.Bank.{one_coin}
use eibc_client.Examples.Samples.{sample_heap, sample_pool}
use eibc_client.Pool.{Heap, busy, get_order, pop_orders, mark_checking, update}
use eibc_client.Pool.Dispatch.{pop_orders_exact, pop_orders_exhaustive}

pop_one : (pop_orders 1 ("b" ∷ "a" ∷ []) sample_pool sample_heap).0 ≡ 1 ∷ []
unfolding pop_orders
pop_one = refl

pop_all : (pop_orders 100 ("b" ∷ "a" ∷ []) sample_pool sample_heap).0 ≡ 1 ∷ 0 ∷ []
unfolding pop_orders
pop_all = refl

abbrev checked_heap : Heap
checked_heap = update sample_heap 0 (mark_checking (sample_heap 0))

pop_orders_exact_example :
    (contains 1 (pop_orders 1 ("b" ∷ "a" ∷ []) sample_pool sample_heap).0 ≡ true
      → busy (sample_heap 1) ≡ false)
    × ((pop_orders 1 ("b" ∷ "a" ∷ []) sample_pool sample_heap).1 1 ≡ (
        if contains 1 (pop_orders 1 ("b" ∷ "a" ∷ []) sample_pool sample_heap).0
        then mark_checking (sample_heap 1)
        else sample_heap 1))
pop_orders_exact_example = pop_orders_exact 1 ("b" ∷ "a" ∷ []) sample_pool sample_heap 1

pop_orders_exhaustive_example :
    busy ((pop_orders 9 ("b" ∷ "a" ∷ []) sample_pool sample_heap).1 0) ≡ true
unfolding pop_orders get_order
pop_orders_exhaustive_example =
    pop_orders_exhaustive 9 ("b" ∷ "a" ∷ []) sample_pool sample_heap "a" 0 (omega arith) refl refl
