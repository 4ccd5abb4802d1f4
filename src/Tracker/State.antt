-- ===== src/Tracker/State.antt =====
-- The state of `orderTracker`, with the channels that it writes as lists, oldest first, and the
-- operations on orders that involve neither LPs nor full nodes.
pub mod Failures
pub mod Order
pub mod Exclusive
use eibc_client.Base.{
  ℕ, suc, Bool, true, false, ◌&&◌, List, [], ◌∷◌, ◌++◌, Option, none, some, String, str_eq,
  if◌then◌else◌, Result, ok, panic,
}
use eibc_client.Base.Int.{ℤ, pos, negsuc, pos_part, ltb_ℤ}
use eibc_client.Base.Map.{Map, lookup, insert, erase}
use eibc_client.Base.Sort.{sort_slice}
use eibc_client.Config.{new_order_buffer_size}
use eibc_client.Lp.{Lp}
use eibc_client.Node.{NodeClient}
use eibc_client.Pool.{Heap, OrderPool, update, upsert_order, remove_order, pop_orders, empty_pool}
use eibc_client.Sdk.{Sdk, Decimal}
use eibc_client.Types.{DemandOrder, OrderFulfillResult}

module _ ⦃S : Sdk⦄ where
  pub record OrderTracker : Type 0 where
    pub full_node_client : NodeClient
    pub policy_address : String
    pub lps : Map Lp
    pub min_operator_fee_share : Decimal
    pub pool : OrderPool
    pub failed_order_hashes : Map String
    pub num_fulfillers : ℕ
    pub max_orders_per_tx : ℕ
    pub wait_time : ℕ
    pub to_check_orders : List (List ℕ)
    pub output_orders : List (List ℕ)
    -- the memory that pointers to orders lead to, and the next free pointer
    pub heap : Heap
    pub next : ℕ

  -- `newOrderTracker`, for a number of fulfillers that is not negative
  abbrev pub tracker_with : Heap → String → Decimal → NodeClient → ℕ → ℤ → ℕ → OrderTracker
  tracker_with memory policy_address share node num_fulfillers max_orders_per_tx wait_time =
      record {
        full_node_client = node;
        policy_address = policy_address;
        lps = [];
        min_operator_fee_share = share;
        pool = empty_pool;
        failed_order_hashes = [];
        num_fulfillers = num_fulfillers;
        max_orders_per_tx = pos_part max_orders_per_tx;
        wait_time = wait_time;
        to_check_orders = [];
        output_orders = [];
        heap = memory;
        next = 0;
      }

  -- `newOrderTracker`; the memory holds no order that a pointer leads to. A channel of a negative
  -- size panics. A negative limit does to the sizes of the batches what 0 does.
  unfoldable pub new_order_tracker :
      Heap → String → Decimal → NodeClient → ℤ → ℤ → ℕ → Result OrderTracker
  new_order_tracker memory policy_address share node (pos n) limit wait_time =
      ok (tracker_with memory policy_address share node n limit wait_time)
  new_order_tracker memory policy_address share node (negsuc n) limit wait_time = panic

  -- `&demandOrder{…}`: a new pointer
  unfoldable pub alloc : DemandOrder → OrderTracker → OrderTracker × ℕ
  alloc o t = (record t { heap = update t.heap t.next o; next = suc t.next }, t.next)

  unfoldable pub is_rollapp_supported : String → OrderTracker → Bool
  is_rollapp_supported id t = elim (lookup id t.full_node_client.rollapps) [
    | none ↦ false
    | some _ ↦ true
  ]

  -- `canFulfillOrder`: the result, and the tracker with the record of an outdated failure removed
  unfoldable pub can_fulfill_order : DemandOrder → OrderTracker → Bool × OrderTracker
  unfolding is_rollapp_supported
  can_fulfill_order o t =
      if is_rollapp_supported o.rollapp_id t
      then elim (lookup o.id t.failed_order_hashes) [
        | none ↦ (true, t)
        | some failed_hash ↦
            if str_eq (S.order_hash o.id o.fee) failed_hash
            then (false, t)
            else (true, record t { failed_order_hashes = erase o.id t.failed_order_hashes })
      ]
      else (false, t)

  unfoldable pub track_orders : List ℕ → OrderTracker → OrderTracker
  track_orders rs t = record t { pool = upsert_order t.heap rs t.pool }

  -- `o1` comes before `o2`: the comparison of `checkOrders` is negative
  abbrev pub higher_first : Heap → ℕ → ℕ → Bool
  higher_first h r q = ltb_ℤ (h q).proof_height (h r).proof_height

  -- `checkOrders`, with the order in which `range` visits the keys of the pool
  unfoldable pub check_orders : List String → OrderTracker → OrderTracker
  check_orders keys t =
      let (orders, h) = pop_orders new_order_buffer_size keys t.pool t.heap in
      elim orders [
        | [] ↦ record t { heap = h }
        | r ∷ rs ↦ record t {
          heap = h;
          to_check_orders = t.to_check_orders ++ sort_slice (higher_first h) (r ∷ rs) ∷ [];
        }
      ]

  -- the body of the inner loop of `manageProcessed`
  process_result : OrderFulfillResult → OrderTracker → OrderTracker
  process_result r t = record t {
    failed_order_hashes =
        if str_eq r.failed_order_hash ""
        then t.failed_order_hashes
        else insert r.order_id r.failed_order_hash t.failed_order_hashes;
    pool = remove_order r.order_id t.pool;
  }

  -- one message
  unfoldable pub process_results : List OrderFulfillResult → OrderTracker → OrderTracker
  unfolding process_result
  process_results [] t = t
  process_results (r ∷ rs) t = process_results rs (process_result r t)
