-- ===== src/System/Confirmed.antt =====
-- What reaches the fulfillers was confirmed by the full nodes.
use eibc_client.Base.{ℕ, ◌<◌, ◌≡◌, ◌⊎◌, subst, List, ◌∷◌, String, arith, inl, inr, Bool-cases, ltb}
use eibc_client.Base.Chunk.{join}
use eibc_client.Base.Counts.{count}
use eibc_client.Eventer.Exclusive.{enqueue_event_orders-Grows}
use eibc_client.Lp.{Lp}
use eibc_client.Poller.Convert.Exclusive.{poll_pending_demand_orders-Grows}
use eibc_client.Sdk.{Sdk}
use eibc_client.System.{
  OrderClient, tracker_of, Step, polled, notified, popped, checked, fulfilled, reported, loaded,
  refreshed, Run, stay, step,
}
use eibc_client.System.Exclusive.{front_count, load_lps-Grows, tracker_of-after_load}
use eibc_client.Tracker.Grants.{load_lps}
use eibc_client.Tracker.State.{OrderTracker, check_orders, process_results}
use eibc_client.Tracker.State.Exclusive.{process_results-Grows, check_orders_rest}
use eibc_client.Tracker.Validation.Sends.{IsConfirmed, enqueue_valid_orders-Sends}

module _ ⦃S : Sdk⦄ (shuffle : ℕ → String → List Lp → List Lp) where
  -- The order waits to be fulfilled.
  abbrev pub IsReady : ℕ → OrderClient → Type 0
  IsReady q c = 0 < count q (join (tracker_of c).output_orders)

  -- In this step the full nodes confirm the block of the order.
  abbrev pub StepConfirms : ℕ → (c d : OrderClient) → Step shuffle c d → Type 0
  StepConfirms q c _ (checked get draw now batch later _ t _ _) =
      IsConfirmed get now (shuffle draw) q batch (record (tracker_of c) { to_check_orders = later })
  StepConfirms q c _ _ = ⊥

  -- In one of the steps the full nodes confirm the block of the order.
  abbrev pub RunConfirms : ℕ → (c d : OrderClient) → Run shuffle c d → Type 0
  RunConfirms q c _ (stay _) = ⊥
  RunConfirms q c _ (step _ d e r s) = RunConfirms q c d r ⊎ StepConfirms q d e s

  same_outputs :
      (q : ℕ) (t u : OrderTracker)
      → u.output_orders ≡ t.output_orders
      → 0 < count q (join u.output_orders)
      → 0 < count q (join t.output_orders)
  same_outputs q t u e h = subst (λ os. 0 < count q (join os)) e h

  Step-StepConfirms :
      (c d : OrderClient) (q : ℕ) (s : Step shuffle c d)
      → IsReady q d
      → IsReady q c ⊎ StepConfirms q c d s
  Step-StepConfirms c _ q (polled draw now orders _ p e) h = inl (
      same_outputs q (tracker_of c) p.order_tracker
        (poll_pending_demand_orders-Grows now (shuffle draw) orders c.poller p e).outputs h)
  Step-StepConfirms c _ q (notified draw now name events _ t e) h = inl (
      same_outputs q (tracker_of c) t
        (enqueue_event_orders-Grows now (shuffle draw) events name (tracker_of c) t e).outputs h)
  Step-StepConfirms c _ q (popped keys _) h = inl (
      same_outputs q (tracker_of c) (check_orders keys (tracker_of c))
        (check_orders_rest keys (tracker_of c)).0 h)
  Step-StepConfirms c _ q (checked get draw now batch later _ t front e) h =
      let u = record (tracker_of c) { to_check_orders = later } in
      let s = enqueue_valid_orders-Sends get now (shuffle draw) batch u t e in
      elim (Bool-cases (ltb 0 (count q s.sent))) [
        | inl z ↦ inr (s.sound q (ground arith))
        | inr z ↦ inl (ground (arith, s.outputs q))
      ]
  Step-StepConfirms c _ q (fulfilled fulfill size r batch later _ p front e) h =
      inl (omega (arith, front_count q (r ∷ batch) later front))
  Step-StepConfirms c _ q (reported results later _ _) h = inl (
      same_outputs q (tracker_of c) (process_results results (tracker_of c))
        (process_results-Grows results (tracker_of c)).outputs h)
  Step-StepConfirms c _ q (refreshed get_balances _) h = inl h
  Step-StepConfirms c _ q (loaded unmarshal get_balances rollapps_hash grants _) h =
      let y = load_lps unmarshal get_balances rollapps_hash grants (tracker_of c) in
      inl (
        same_outputs q (tracker_of c) y.0
          (load_lps-Grows unmarshal get_balances rollapps_hash grants (tracker_of c)).outputs
          (subst (λ t. 0 < count q (join t.output_orders)) (tracker_of-after_load c y.0 y.1 y.2) h))

  -- In every run of the client: an order that waits to be fulfilled waited for that already at the
  -- start, or in one of the steps it was checked and `BlockValidated` confirmed its block, at the
  -- level that its LP asked for then.
  pub Run-RunConfirms :
      (c d : OrderClient) (q : ℕ) (r : Run shuffle c d)
      → IsReady q d
      → IsReady q c ⊎ RunConfirms q c d r
  Run-RunConfirms c _ q (stay _) h = inl h
  Run-RunConfirms c _ q (step _ d e r s) h = elim (Step-StepConfirms d e q s h) [
    | inr k ↦ inr (inr k)
    | inl k ↦ elim (Run-RunConfirms c d q r k) [ inl z ↦ inl z | inr z ↦ inr (inl z) ]
  ]
