-- ===== src/Tracker/Validation/Stuck.antt =====
-- Which orders the pool does not hand out again.
use eibc_client.Base.{ℕ, ◌≡◌, true, false, List, some, String, arith, contains, Result, ok}
use eibc_client.Lp.{Lp}
use eibc_client.Node.{BlockValidatedResponse}
use eibc_client.Pool.{OrderPool, busy, get_order, set_valid, pop_orders, upsert_order}
use eibc_client.Pool.Contents.{upsert_order_in_hand}
use eibc_client.Pool.Dispatch.{pop_orders_exact}
use eibc_client.Sdk.{Sdk}
use eibc_client.Tracker.State.{OrderTracker}
use eibc_client.Tracker.Validation.{validated, retried, unchecked, check_order}
use eibc_client.Tracker.Validation.Verdicts.{check_order-Explains}

module _ ⦃S : Sdk⦄ (get : String → Result BlockValidatedResponse) (now : String → ℕ)
    (shuffle : String → List Lp → List Lp) where
  -- An order that is in the pool under its own pointer is marked valid when it is validated, and
  -- never handed out again: whatever is popped from the memory as it then is, from whatever pool,
  -- leaves it out.
  pub validated_once :
      (r : ℕ) (t t' : OrderTracker)
      → get_order (t.heap r).id t.pool ≡ some r
      → check_order get now shuffle r t ≡ ok (t', validated)
      → ((t'.heap r).valid ≡ true)
        × ((limit : ℕ) (keys : List String) (p : OrderPool)
            → contains r (pop_orders limit keys p t'.heap).0 ≡ false)
  unfolding set_valid get_order
  validated_once r t t' own e =
      let (_, h, _, _) = check_order-Explains get now shuffle r t t' validated e in
      let marked : (t'.heap r).valid ≡ true = ground arith in
      (marked, λ limit keys p. ground (arith, pop_orders_exact limit keys p t'.heap r))

  -- A popped order of the pool whose block could not be checked, because a full node did not
  -- answer, is lost: it stays in the pool with its flag `checking`, so that no call pops it from
  -- the memory as it then is and no update replaces it, and what its LP reserved for it stays
  -- reserved.
  pub unchecked_stuck :
      (r : ℕ) (t t' : OrderTracker)
      → (t.heap r).checking ≡ true
      → get_order (t.heap r).id t.pool ≡ some r
      → check_order get now shuffle r t ≡ ok (t', unchecked)
      → ((limit : ℕ) (keys : List String) (p : OrderPool)
          → contains r (pop_orders limit keys p t'.heap).0 ≡ false)
        × ((rs : List ℕ) → get_order (t.heap r).id (upsert_order t'.heap rs t'.pool) ≡ some r)
        × (t'.lps ≡ t.lps)
  unchecked_stuck r t t' popped own e =
      let (_, h, p, l) = check_order-Explains get now shuffle r t t' unchecked e in
      let held : busy (t'.heap r) ≡ true = ground arith in
      (
        λ limit keys q. ground (arith, pop_orders_exact limit keys q t'.heap r),
        λ rs. upsert_order_in_hand t'.heap rs t'.pool (t.heap r).id r (ground arith) held,
        l,
      )

  -- A retried order is idle again, and stays in the pool if it was there.
  pub retried_idle :
      (r : ℕ) (t t' : OrderTracker)
      → check_order get now shuffle r t ≡ ok (t', retried)
      → ((t'.heap r).checking ≡ false) × (t'.pool ≡ t.pool)
  retried_idle r t t' e =
      let (_, _, (o, f, h), p) = check_order-Explains get now shuffle r t t' retried e in
      (ground arith, p)
