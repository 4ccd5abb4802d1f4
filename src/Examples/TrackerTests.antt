-- ===== src/Examples/TrackerTests.antt =====
-- eibc/order_tracker.go: results, validation and the split into batches
use mathlib.Core.List.{Perm}
use eibc_client.Base.{
  ℕ, ◌≡◌, ◌⊎◌, ◌++◌, refl, true, false, not, ◌&&◌, [], ◌∷◌, some, none, String, ok, List, contains,
  str_eq,
}
use eibc_client.Base.Chunk.{chunk}
use eibc_client.Base.Int.{pos}
use eibc_client.Base.Map.{lookup}
use eibc_client.Base.Sort.{IsSorted}
use eibc_client.Config.{new_order_buffer_size}
use eibc_client.Examples.Bank.{one_coin}
use eibc_client.Examples.Samples.{tracker, order, node_client, all_p2p, none_answers, sample_heap}
use eibc_client.Examples.SelectionTests.{unshuffled}
use eibc_client.Lp.{Lp}
use eibc_client.Node.{block_validated}
use eibc_client.Pool.{
  OrderPool, get_order, set_valid, add_order, pop_orders, upsert_order, update, mark_checking,
}
use eibc_client.Tracker.State.{
  OrderTracker, can_fulfill_order, process_results, check_orders, higher_first,
  is_rollapp_supported,
}
use eibc_client.Tracker.State.Failures.{can_fulfill_order-process_results}
use eibc_client.Tracker.State.Order.{check_orders-IsSorted}
use eibc_client.Tracker.Validation.{
  validated, unchecked, check_order, batches, enqueue_valid_orders,
}
use eibc_client.Tracker.Validation.Stuck.{validated_once, unchecked_stuck}
use eibc_client.Tracker.Validation.Verdicts.{Explains, check_order-Explains}

abbrev pub clock : String → ℕ
clock id = 10

abbrev pub shuffle : String → List Lp → List Lp
shuffle id = unshuffled

-- Both orders were popped.
abbrev pub popped : OrderTracker
popped = record tracker {
  heap =
      update (update sample_heap 0 (mark_checking (sample_heap 0))) 1
        (mark_checking (sample_heap 1));
}

abbrev confirmed : OrderTracker
confirmed = record popped {
  full_node_client = record node_client {
    last_valid_height = ("ra1", record { height = pos 7; confirmations = pos 2 }) ∷ [];
  };
  heap = set_valid "a" popped.pool popped.heap;
}

check_confirmed : check_order all_p2p clock shuffle 0 popped ≡ ok (confirmed, validated)
unfolding check_order block_validated
check_confirmed = refl

check_unanswered : check_order none_answers clock shuffle 0 popped ≡ ok (popped, unchecked)
unfolding check_order block_validated
check_unanswered = refl

abbrev pub settled : OrderTracker
settled = record confirmed {
  heap = set_valid "b" popped.pool (set_valid "a" popped.pool popped.heap);
  output_orders = (0 ∷ []) ∷ (1 ∷ []) ∷ [];
}

pub enqueue_settled : enqueue_valid_orders all_p2p clock shuffle (0 ∷ 1 ∷ []) popped ≡ ok settled
unfolding enqueue_valid_orders check_order block_validated batches set_valid add_order chunk
enqueue_settled = refl

can_fulfill_order-process_results_example :
    let (taken, t') =
      can_fulfill_order
        (order "a" 80)
        (process_results (record { order_id = "a"; failed_order_hash = "x" } ∷ []) tracker) in
    (taken ≡ (
      is_rollapp_supported "ra1" tracker
      && not (str_eq (one_coin.order_hash "a" (order "a" 80).fee) "x")))
    × (taken ≡ true → lookup "a" t'.failed_order_hashes ≡ none)
    × (taken ≡ false → lookup "a" t'.failed_order_hashes ≡ some "x")
    × (get_order "a" t'.pool ≡ none)
can_fulfill_order-process_results_example =
    can_fulfill_order-process_results (order "a" 80) "x" tracker (λ e. cc e)

check_orders-IsSorted_example :
    let (orders, h) = pop_orders new_order_buffer_size ("a" ∷ "b" ∷ []) tracker.pool tracker.heap in
    let t' = check_orders ("a" ∷ "b" ∷ []) tracker in
    (t'.heap ≡ h)
    × (((orders ≡ []) × (t'.to_check_orders ≡ tracker.to_check_orders))
        ⊎ ((batch : List ℕ) × (t'.to_check_orders ≡ tracker.to_check_orders ++ batch ∷ [])
            × Perm batch orders
            × IsSorted (higher_first h) batch))
check_orders-IsSorted_example = check_orders-IsSorted ("a" ∷ "b" ∷ []) tracker

check_order-Explains_example : Explains all_p2p clock shuffle 0 popped confirmed validated
check_order-Explains_example =
    check_order-Explains all_p2p clock shuffle 0 popped confirmed validated check_confirmed

validated_once_example :
    ((confirmed.heap 0).valid ≡ true)
    × ((limit : ℕ) (keys : List String) (p : OrderPool)
        → contains 0 (pop_orders limit keys p confirmed.heap).0 ≡ false)
unfolding get_order
validated_once_example =
    validated_once all_p2p clock shuffle 0 popped confirmed refl check_confirmed

unchecked_stuck_example :
    ((limit : ℕ) (keys : List String) (p : OrderPool)
      → contains 0 (pop_orders limit keys p popped.heap).0 ≡ false)
    × ((rs : List ℕ) → get_order "a" (upsert_order popped.heap rs popped.pool) ≡ some 0)
    × (popped.lps ≡ popped.lps)
unfolding get_order
unchecked_stuck_example =
    unchecked_stuck none_answers clock shuffle 0 popped popped refl refl check_unanswered
