-- ===== src/Tracker/Validation/Returns.antt =====
-- The check of a batch does not panic.
use eibc_client.Base.{
  ℕ, ◌<◌, ◌≡◌, ◌≢◌, refl, Bool, true, false, List, [], ◌∷◌, String, Result, ok, err, panic, arith,
  Result-cases, Bool-cases, inl, inr, >>=_returns, >>=-eq-panic, ◌==◌, max, length, ◌/◌, str_eq,
}
use eibc_client.Base.Int.{ℤ}
use eibc_client.Base.Map.{lookup}
use eibc_client.Base.Text.{concat, format_ℤ}
use eibc_client.Lp.{Lp}
use eibc_client.Node.{
  BlockValidatedResponse, NodeClient, ValidationLevel, node_block_validated, count_votes,
  block_validated, config_of,
}
use eibc_client.Node.Votes.{cache_hits}
use eibc_client.Sdk.{Sdk}
use eibc_client.Sdk.Laws.{CoinLaws, DecLaws}
use eibc_client.Tracker.Selection.{find_lp_for_order}
use eibc_client.Tracker.Selection.Choice.{IsShuffle}
use eibc_client.Tracker.Selection.Solvency.{AreSolvent, find_lp_for_order-AreSolvent}
use eibc_client.Tracker.State.{OrderTracker}
use eibc_client.Tracker.Validation.{
  check_order, after_answer, reconsider, is_order_expired, expected_level,
  get_valid_and_retry_orders, enqueue_valid_orders, send_valid, batches,
}
use eibc_client.Tracker.Validation.Exclusive.{loop-Checks}
use eibc_client.Tracker.Validation.Solvency.{check_order-AreSolvent}

module _ (get : String → Result BlockValidatedResponse)
    (answers : (url : String) → get url ≢ panic) where
  node_block_validated_returns :
      (id location : String) (height : ℤ) (expected : ValidationLevel)
      → node_block_validated get id location height expected ≢ panic
  unfolding node_block_validated
  node_block_validated_returns id location height expected e =
      elim (>>=-eq-panic
        (get (concat (concat (concat location "/block_validated") "?height=") (format_ℤ height))) _
        e) [
          | inl p ↦ answers _ p
          | inr (r, _, e') ↦ elim (Bool-cases (str_eq r.chain_id id)) [
            | inl z ↦ cc (rw z at e')
            | inr z ↦ cc (rw z at e')
          ]
        ]

  count_votes_returns :
      (id : String) (locations : List String) (height : ℤ) (expected : ValidationLevel)
      → count_votes get id locations height expected ≢ panic
  unfolding count_votes
  count_votes_returns id [] height expected e = cc
  count_votes_returns id (l ∷ ls) height expected e =
      >>=_returns (node_block_validated get id l height expected) _
        (node_block_validated_returns id l height expected)
        (λ vote h.
          >>=_returns (count_votes get id ls height expected) _
            (count_votes_returns id ls height expected) (λ n k e'. cc))
        e

  pub block_validated_returns :
      (id : String) (height : ℤ) (expected : ValidationLevel) (c : NodeClient)
      → (block_validated get id height expected c).0 ≢ panic
  unfolding block_validated
  block_validated_returns id height expected c e = elim (Bool-cases (cache_hits id height c)) [
    | inl z ↦ cc (rw (block_validated, z) at e)
    | inr z ↦
        elim (Result-cases
          (count_votes get id (config_of (lookup id c.rollapps)).full_nodes height expected)) [
            | inl (n, y) ↦ cc (rw (block_validated, z, y) at e)
            | inr (inl (m, y)) ↦ cc (rw (block_validated, z, y) at e)
            | inr (inr y) ↦ count_votes_returns id _ height expected y
          ]
  ]

module _ ⦃S : Sdk⦄ (L : CoinLaws) (D : DecLaws) (get : String → Result BlockValidatedResponse)
    (now : String → ℕ) (shuffle : String → List Lp → List Lp)
    (mixes : (id : String) → IsShuffle (shuffle id))
    (answers : (url : String) → get url ≢ panic) where
  reconsider_returns :
      (r : ℕ) (t : OrderTracker) → AreSolvent L t.lps → reconsider get now shuffle r t ≢ panic
  unfolding reconsider
  reconsider_returns r t h e =
      elim (Result-cases (find_lp_for_order (shuffle (t.heap r).id) (t.heap r) t.lps)) [
        | inl ((o, lps), f) ↦ cc (rw (f, reconsider) at e)
        | inr (inl (m, f)) ↦ cc (rw (f, reconsider) at e)
        | inr (inr f) ↦
            (find_lp_for_order-AreSolvent L (shuffle (t.heap r).id) (mixes (t.heap r).id) D
                (t.heap r) t.lps h).0
              f
      ]

  after_answer_returns :
      (a : Result Bool) (r : ℕ) (t : OrderTracker)
      → a ≢ panic
      → AreSolvent L t.lps
      → after_answer get now shuffle a r t ≢ panic
  unfolding after_answer
  after_answer_returns panic r t n h e = n refl
  after_answer_returns (err m) r t n h e = cc
  after_answer_returns (ok true) r t n h e = cc
  after_answer_returns (ok false) r t n h e = elim (Bool-cases (is_order_expired now (t.heap r))) [
    | inl x ↦ cc (rw (x, after_answer) at e)
    | inr x ↦ reconsider_returns r t h (rw (x, after_answer) at e)
  ]

  check_order_returns :
      (r : ℕ) (t : OrderTracker) → AreSolvent L t.lps → check_order get now shuffle r t ≢ panic
  unfolding check_order
  check_order_returns r t h =
      let o = t.heap r in
      after_answer_returns _ r _
        (block_validated_returns get answers o.rollapp_id o.proof_height (expected_level o)
          t.full_node_client)
        h

  loop_returns :
      (rs : List ℕ) (t : OrderTracker)
      → AreSolvent L t.lps
      → get_valid_and_retry_orders get now shuffle rs t ≢ panic
  unfolding get_valid_and_retry_orders
  loop_returns [] t h e = cc
  loop_returns (r ∷ rs) t h e = elim (Result-cases (check_order get now shuffle r t)) [
    | inr (inr c) ↦ check_order_returns r t h c
    | inr (inl (m, c)) ↦ cc (rw (c, get_valid_and_retry_orders) at e)
    | inl ((u, v), c) ↦ elim (Result-cases (get_valid_and_retry_orders get now shuffle rs u)) [
      | inl (x, d) ↦ cc (rw (c, get_valid_and_retry_orders, d) at e)
      | inr (inl (m, d)) ↦ cc (rw (c, get_valid_and_retry_orders, d) at e)
      | inr (inr d) ↦
          loop_returns rs u (check_order-AreSolvent L D get now shuffle mixes r t u v h c) d
    ]
  ]

  batches_returns :
      (size fulfillers : ℕ) (valid : List ℕ)
      → 0 < size
      → 0 < fulfillers
      → batches size fulfillers valid ≢ panic
  unfolding batches
  batches_returns size fulfillers valid a b e =
      let some_fulfiller : (fulfillers == 0) ≡ false = ground arith in
      let some_size : (max size (length valid / fulfillers) == 0) ≡ false = ground arith in
      cc (rw (some_fulfiller, batches, some_size) at e)

  send_valid_returns :
      (valid : List ℕ) (t : OrderTracker)
      → 0 < t.max_orders_per_tx
      → 0 < t.num_fulfillers
      → send_valid valid t ≢ panic
  unfolding send_valid
  send_valid_returns [] t a b e = cc
  send_valid_returns (r ∷ rs) t a b e =
      >>=_returns (batches t.max_orders_per_tx t.num_fulfillers (r ∷ rs)) _
        (batches_returns t.max_orders_per_tx t.num_fulfillers (r ∷ rs) a b) (λ bs h e'. cc) e

  -- With solvent books, at least one fulfiller and a limit of at least one order for a transaction,
  -- the check of a batch does not panic, as long as no request to a full node does.
  pub enqueue_valid_orders_returns :
      (batch : List ℕ) (t : OrderTracker)
      → AreSolvent L t.lps
      → 0 < t.max_orders_per_tx
      → 0 < t.num_fulfillers
      → enqueue_valid_orders get now shuffle batch t ≢ panic
  unfolding enqueue_valid_orders
  enqueue_valid_orders_returns batch t h a b e =
      elim (>>=-eq-panic (get_valid_and_retry_orders get now shuffle batch t) _ e) [
        | inl p ↦ loop_returns batch t h p
        | inr ((u, valid, retry), f, e') ↦
            let sizes = (loop-Checks get now shuffle batch t u valid retry f).sizes in
            >>=_returns (send_valid valid u) _
              (send_valid_returns valid u (omega (arith, sizes.1)) (omega (arith, sizes.0)))
              (λ x k e''. cc) e'
      ]
