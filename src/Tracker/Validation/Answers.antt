-- ===== src/Tracker/Validation/Answers.antt =====
-- The check of a batch has no errors of its own: what goes wrong with one order is a verdict.
use eibc_client.Base.{
  ℕ, ◌≡◌, ◌≢◌, ◌<◌, Bool, true, false, List, [], ◌∷◌, String, Result, ok, err, panic, Result-cases,
  Bool-cases, inl, inr, >>=_no_err, ◌==◌, max, length, ◌/◌,
}
use eibc_client.Lp.{Lp}
use eibc_client.Node.{BlockValidatedResponse}
use eibc_client.Sdk.{Sdk}
use eibc_client.Sdk.Laws.{CoinLaws, DecLaws}
use eibc_client.Tracker.Selection.{find_lp_for_order}
use eibc_client.Tracker.Selection.Choice.{IsShuffle}
use eibc_client.Tracker.Selection.Solvency.{AreSolvent}
use eibc_client.Tracker.State.{OrderTracker}
use eibc_client.Tracker.Validation.{
  check_order, after_answer, reconsider, is_order_expired, get_valid_and_retry_orders,
  enqueue_valid_orders, send_valid, batches,
}
use eibc_client.Tracker.Validation.Returns.{enqueue_valid_orders_returns}

module _ ⦃S : Sdk⦄ (get : String → Result BlockValidatedResponse) (now : String → ℕ)
    (shuffle : String → List Lp → List Lp) where
  reconsider_no_err :
      (r : ℕ) (t : OrderTracker) (m : String) → reconsider get now shuffle r t ≢ err m
  unfolding reconsider
  reconsider_no_err r t m e =
      elim (Result-cases (find_lp_for_order (shuffle (t.heap r).id) (t.heap r) t.lps)) [
        | inl ((o, lps), f) ↦ cc (rw (f, reconsider) at e)
        | inr (inl (n, f)) ↦ cc (rw (f, reconsider) at e)
        | inr (inr f) ↦ cc (rw (f, reconsider) at e)
      ]

  after_answer_no_err :
      (a : Result Bool) (r : ℕ) (t : OrderTracker) (m : String)
      → after_answer get now shuffle a r t ≢ err m
  unfolding after_answer
  after_answer_no_err panic r t m e = cc
  after_answer_no_err (err n) r t m e = cc
  after_answer_no_err (ok true) r t m e = cc
  after_answer_no_err (ok false) r t m e = elim (Bool-cases (is_order_expired now (t.heap r))) [
    | inl x ↦ cc (rw (x, after_answer) at e)
    | inr x ↦ reconsider_no_err r t m (rw (x, after_answer) at e)
  ]

  check_order_no_err :
      (r : ℕ) (t : OrderTracker) (m : String) → check_order get now shuffle r t ≢ err m
  unfolding check_order
  check_order_no_err r t = after_answer_no_err _ r _

  loop_no_err :
      (rs : List ℕ) (t : OrderTracker) (m : String)
      → get_valid_and_retry_orders get now shuffle rs t ≢ err m
  unfolding get_valid_and_retry_orders
  loop_no_err [] t m e = cc
  loop_no_err (r ∷ rs) t m e = elim (Result-cases (check_order get now shuffle r t)) [
    | inr (inr c) ↦ cc (rw (c, get_valid_and_retry_orders) at e)
    | inr (inl (n, c)) ↦ check_order_no_err r t n c
    | inl ((u, v), c) ↦ elim (Result-cases (get_valid_and_retry_orders get now shuffle rs u)) [
      | inl (x, d) ↦ cc (rw (c, get_valid_and_retry_orders, d) at e)
      | inr (inr d) ↦ cc (rw (c, get_valid_and_retry_orders, d) at e)
      | inr (inl (n, d)) ↦ loop_no_err rs u n d
    ]
  ]

  batches_no_err :
      (size fulfillers : ℕ) (valid : List ℕ) (m : String) → batches size fulfillers valid ≢ err m
  unfolding batches
  batches_no_err size fulfillers valid m e = elim (Bool-cases (fulfillers == 0)) [
    | inl a ↦ cc (rw (a, batches) at e)
    | inr a ↦ elim (Bool-cases (max size (length valid / fulfillers) == 0)) [
      | inl b ↦ cc (rw (a, batches, b) at e)
      | inr b ↦ cc (rw (a, batches, b) at e)
    ]
  ]

  send_valid_no_err : (valid : List ℕ) (t : OrderTracker) (m : String) → send_valid valid t ≢ err m
  unfolding send_valid
  send_valid_no_err [] t m e = cc
  send_valid_no_err (r ∷ rs) t m e =
      >>=_no_err (batches t.max_orders_per_tx t.num_fulfillers (r ∷ rs)) _
        (batches_no_err t.max_orders_per_tx t.num_fulfillers (r ∷ rs)) (λ bs n e'. cc) m e

  enqueue_valid_orders_no_err :
      (batch : List ℕ) (t : OrderTracker) (m : String)
      → enqueue_valid_orders get now shuffle batch t ≢ err m
  unfolding enqueue_valid_orders
  enqueue_valid_orders_no_err batch t m e =
      >>=_no_err (get_valid_and_retry_orders get now shuffle batch t) _ (loop_no_err batch t)
        (λ x. >>=_no_err (send_valid x.1 x.0) _ (send_valid_no_err x.1 x.0) (λ u n e'. cc)) m e

  -- With solvent books, at least one fulfiller and a limit of at least one order for a transaction,
  -- the check of a batch comes to its end, as long as no request to a full node panics.
  pub enqueue_valid_orders_ends :
      (L : CoinLaws) (D : DecLaws) (mixes : (id : String) → IsShuffle (shuffle id))
      (answers : (url : String) → get url ≢ panic) (batch : List ℕ) (t : OrderTracker)
      → AreSolvent L t.lps
      → 0 < t.max_orders_per_tx
      → 0 < t.num_fulfillers
      → (u : OrderTracker) × (enqueue_valid_orders get now shuffle batch t ≡ ok u)
  enqueue_valid_orders_ends L D mixes answers batch t h a b =
      elim (Result-cases (enqueue_valid_orders get now shuffle batch t)) [
        | inl found ↦ found
        | inr (inl (m, e)) ↦ absurd (enqueue_valid_orders_no_err batch t m e)
        | inr (inr e) ↦
            absurd (enqueue_valid_orders_returns L D get now shuffle mixes answers batch t h a b e)
      ]
