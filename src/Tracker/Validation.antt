-- ===== src/Tracker/Validation.antt =====
-- `getValidAndRetryOrders` and `enqueueValidOrders`: popped orders are checked with the full nodes.
-- An order is written through its pointer, so the pool sees every change.
pub mod Verdicts
pub mod Stuck
pub mod Solvency
pub mod Exclusive
pub mod Moves
pub mod Sends
pub mod Returns
pub mod Answers
pub mod Batches
use eibc_client.Base.{
  ℕ, ◌/◌, max, Bool, true, false, List, [], ◌∷◌, ◌++◌, Option, none, some, String, if◌then◌else◌,
  ltb, ◌==◌, length, Result, ok, err, panic, ◌>>=◌,
}
use eibc_client.Base.Chunk.{chunk}
use eibc_client.Lp.{Lp}
use eibc_client.Node.{
  BlockValidatedResponse, ValidationLevel, NodeClient, validation_level_p2p,
  validation_level_settlement, block_validated,
}
use eibc_client.Pool.{update, remove_order, set_valid, add_order}
use eibc_client.Sdk.{Sdk}
use eibc_client.Tracker.State.{OrderTracker}
use eibc_client.Tracker.Selection.{find_lp_for_order, release_all}
use eibc_client.Types.{DemandOrder}

-- What becomes of a popped order
pub data Verdict : Type 0 where
  -- it may be fulfilled
  validated : Verdict
  -- it goes back to the pool
  retried : Verdict
  -- it was expired or no LP takes it any more, and it left the pool
  evicted : Verdict
  -- its block could not be checked
  unchecked : Verdict

-- the pointer, if the verdict is the wanted one
abbrev pub if_validated : ℕ → Verdict → List ℕ → List ℕ
if_validated r validated rs = r ∷ rs
if_validated r _ rs = rs

abbrev pub if_retried : ℕ → Verdict → List ℕ → List ℕ
if_retried r retried rs = r ∷ rs
if_retried r _ rs = rs

-- `len(validOrders)/or.numFulfillers` panics for no fulfillers, and `slices.Chunk` below size 1
unfoldable pub batches : ℕ → ℕ → List ℕ → Result (List (List ℕ))
batches max_orders fulfillers valid =
    let size = max max_orders (length valid / fulfillers) in
    if fulfillers == 0 then panic else if size == 0 then panic else ok (chunk size valid)

module _ ⦃S : Sdk⦄ where
  abbrev pub expected_level : DemandOrder → ValidationLevel
  expected_level o =
      if o.settlement_validated then validation_level_settlement else validation_level_p2p

  unfoldable pub is_order_expired : (String → ℕ) → DemandOrder → Bool
  is_order_expired now o = ltb o.valid_deadline (now o.id)

  unfoldable pub evict_order : DemandOrder → OrderTracker → OrderTracker
  evict_order o t = record t { pool = remove_order o.id t.pool; lps = release_all (o ∷ []) t.lps }

  -- the batches on the channel, which has room for all of them here
  unfoldable pub send_valid : List ℕ → OrderTracker → Result OrderTracker
  unfolding batches
  send_valid [] t = ok t
  send_valid (r ∷ rs) t = do
    bs ← batches t.max_orders_per_tx t.num_fulfillers (r ∷ rs)
    ok (record t { output_orders = t.output_orders ++ bs })

-- the answers of the full nodes, the time at which an order is looked at, and `rand.Shuffle`
module _ ⦃S : Sdk⦄ (get : String → Result BlockValidatedResponse) (now : String → ℕ)
    (shuffle : String → List Lp → List Lp) where
  -- from `orderFulfillable` on: the order is not valid yet and not expired
  reconsider : ℕ → OrderTracker → Result (OrderTracker × Verdict)
  unfolding evict_order
  reconsider r t = elim (find_lp_for_order (shuffle (t.heap r).id) (t.heap r) t.lps) [
    | panic ↦ panic
    | err _ ↦ ok (evict_order (t.heap r) t, evicted)
    | ok (o, lps) ↦
        ok (record t { heap = update t.heap r (record o { checking = false }); lps = lps }, retried)
  ]

  -- the body of the loop of `getValidAndRetryOrders`, after the answer of the full nodes
  after_answer : Result Bool → ℕ → OrderTracker → Result (OrderTracker × Verdict)
  unfolding reconsider evict_order is_order_expired
  after_answer panic r t = panic
  after_answer (err _) r t = ok (t, unchecked)
  after_answer (ok true) r t =
      ok (record t { heap = set_valid (t.heap r).id t.pool t.heap }, validated)
  after_answer (ok false) r t =
      if is_order_expired now (t.heap r)
      then ok (evict_order (t.heap r) t, evicted)
      else reconsider r t

  unfoldable pub check_order : ℕ → OrderTracker → Result (OrderTracker × Verdict)
  unfolding after_answer
  check_order r t =
      let o = t.heap r in
      let (answer, c) =
        block_validated get o.rollapp_id o.proof_height (expected_level o) t.full_node_client in
      after_answer answer r (record t { full_node_client = c })

  -- the valid orders and those to retry
  unfoldable pub get_valid_and_retry_orders :
      List ℕ → OrderTracker → Result (OrderTracker × List ℕ × List ℕ)
  unfolding check_order
  get_valid_and_retry_orders [] t = ok (t, [], [])
  get_valid_and_retry_orders (r ∷ rs) t = elim (check_order r t) [
    | panic ↦ panic
    | err e ↦ err e
    | ok (t', v) ↦ elim (get_valid_and_retry_orders rs t') [
      | panic ↦ panic
      | err e ↦ err e
      | ok (t'', valid, retry) ↦ ok (t'', if_validated r v valid, if_retried r v retry)
    ]
  ]

  -- one message of the loop of `enqueueValidOrders`
  unfoldable pub enqueue_valid_orders : List ℕ → OrderTracker → Result OrderTracker
  unfolding get_valid_and_retry_orders send_valid
  enqueue_valid_orders orders t = do
    (t', valid, retry) ← get_valid_and_retry_orders orders t
    t'' ← send_valid valid t'
    ok (record t'' { pool = add_order t''.heap retry t''.pool })
