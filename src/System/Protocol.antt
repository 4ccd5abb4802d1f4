-- ===== src/System/Protocol.antt =====
-- The life of an order as an abstract protocol, which every step of the client follows.
use eibc_client.Base.{
  ℕ, ◌+◌, ◌≤◌, ◌≡◌, Bool, true, false, List, ◌∷◌, String, arith, Bool-cases, inl, inr, ltb,
}
use eibc_client.Base.Chunk.{join}
use eibc_client.Base.Counts.{flag_le, count}
use eibc_client.Config.{new_order_buffer_size}
use eibc_client.Eventer.Exclusive.{enqueue_event_orders-Grows}
use eibc_client.Lp.{Lp}
use eibc_client.Poller.Convert.Exclusive.{poll_pending_demand_orders-Grows}
use eibc_client.Pool.{busy, pop_orders}
use eibc_client.Pool.Places.{pop_orders-count}
use eibc_client.Sdk.{Sdk}
use eibc_client.System.{
  OrderClient, tracker_of, Step, polled, notified, popped, checked, fulfilled, reported, loaded,
  refreshed,
}
use eibc_client.System.Exclusive.{front_count, load_lps-Grows, tracker_of-after_load}
use eibc_client.Tracker.Grants.{load_lps}
use eibc_client.Tracker.State.{OrderTracker, process_results}
use eibc_client.Tracker.State.Exclusive.{
  IsExclusive, Grows, process_results-Grows, check_orders-count, check_orders_rest,
}
use eibc_client.Tracker.Validation.Sends.{enqueue_valid_orders-Sends}

-- Where an order stands: it does not wait, it waits to be checked, or it waits to be fulfilled.
pub data Place : Type 0 where
  resting : Place
  to_check : Place
  to_fulfill : Place

-- The moves that the protocol allows in one step. No order gets to the fulfillers without a check.
pub data Move : Place → Place → Type 0 where
  stays : (p : Place) → Move p p
  handed_out : Move resting to_check
  passed : Move to_check to_fulfill
  returned : Move to_check resting
  taken_on : Move to_fulfill resting

abbrev pub place_by : Bool → Bool → Place
place_by true _ = to_check
place_by false true = to_fulfill
place_by false false = resting

module _ ⦃S : Sdk⦄ where
  -- the place of the order at a pointer
  abbrev pub place : ℕ → OrderTracker → Place
  place q t =
      place_by (ltb 0 (count q (join t.to_check_orders))) (ltb 0 (count q (join t.output_orders)))

  place_same :
      (q : ℕ) (t u : OrderTracker)
      → u.to_check_orders ≡ t.to_check_orders
      → u.output_orders ≡ t.output_orders
      → Move (place q t) (place q u)
  place_same q t u checks outputs = rw (checks, outputs) (stays (place q t))

  Grows-Move : (q : ℕ) (t u : OrderTracker) → Grows t u → Move (place q t) (place q u)
  Grows-Move q t u g = place_same q t u g.checks g.outputs

-- An order that is handed out `p` times.
out-Move :
    (a b p : ℕ)
    → p + (a + b) ≤ 1
    → Move (place_by (ltb 0 a) (ltb 0 b)) (place_by (ltb 0 (a + p)) (ltb 0 b))
out-Move a b p h = elim (Bool-cases (ltb 0 p)) [
  | inl z ↦
      let no_a : ltb 0 a ≡ false = ground arith in
      let no_b : ltb 0 b ≡ false = ground arith in
      let out : ltb 0 (a + p) ≡ true = ground arith in rw (no_a, no_b, out) handed_out
  | inr z ↦ let same : ltb 0 (a + p) ≡ ltb 0 a = ground arith in rw same (stays _)
]

-- An order that stands `n` times in the batch that is checked, and is sent on `s` times.
checked-Move :
    (a b n s : ℕ)
    → n + a + b ≤ 1
    → s ≤ n
    → Move (place_by (ltb 0 (n + a)) (ltb 0 b)) (place_by (ltb 0 a) (ltb 0 (b + s)))
checked-Move a b n s h k = elim (Bool-cases (ltb 0 n)) [
  | inl z ↦
      let was : ltb 0 (n + a) ≡ true = ground arith in
      let no_a : ltb 0 a ≡ false = ground arith in
      elim (Bool-cases (ltb 0 (b + s))) [
        | inl y ↦ rw (was, no_a, y) passed
        | inr y ↦ rw (was, no_a, y) returned
      ]
  | inr z ↦
      let same_a : ltb 0 (n + a) ≡ ltb 0 a = ground arith in
      let same_b : ltb 0 (b + s) ≡ ltb 0 b = ground arith in rw (same_a, same_b) (stays _)
]

-- An order that stands `n` times in the batch that a fulfiller takes.
taken-Move :
    (a b n : ℕ)
    → a + (n + b) ≤ 1
    → Move (place_by (ltb 0 a) (ltb 0 (n + b))) (place_by (ltb 0 a) (ltb 0 b))
taken-Move a b n h = elim (Bool-cases (ltb 0 n)) [
  | inl z ↦
      let no_a : ltb 0 a ≡ false = ground arith in
      let was : ltb 0 (n + b) ≡ true = ground arith in
      let no_b : ltb 0 b ≡ false = ground arith in rw (no_a, was, no_b) taken_on
  | inr z ↦ let same : ltb 0 (n + b) ≡ ltb 0 b = ground arith in rw same (stays _)
]

module _ ⦃S : Sdk⦄ (shuffle : ℕ → String → List Lp → List Lp) where
  -- Every step of the client refines the protocol: in a state in which no order waits twice, it
  -- takes each order from its place to one that the protocol allows, so no order reaches the
  -- fulfillers that did not wait for a check.
  pub Step-Move :
      (c d : OrderClient) (q : ℕ)
      → IsExclusive (tracker_of c)
      → Step shuffle c d
      → Move (place q (tracker_of c)) (place q (tracker_of d))
  Step-Move c _ q x (polled draw now orders _ p e) =
      Grows-Move q (tracker_of c) p.order_tracker
        (poll_pending_demand_orders-Grows now (shuffle draw) orders c.poller p e)
  Step-Move c _ q x (notified draw now name events _ t e) =
      Grows-Move q (tracker_of c) t
        (enqueue_event_orders-Grows now (shuffle draw) events name (tracker_of c) t e)
  Step-Move c _ q x (popped keys _) =
      let t = tracker_of c in
      let p = pop_orders new_order_buffer_size keys t.pool t.heap in
      rw (check_orders-count keys t q, (check_orders_rest keys t).0)
        (out-Move (count q (join t.to_check_orders)) (count q (join t.output_orders)) (count q p.0)
          (omega (
            arith,
            x.once q,
            pop_orders-count new_order_buffer_size keys t.pool t.heap q,
            flag_le (busy (p.1 q)),
          )))
  Step-Move c _ q x (checked get draw now batch later _ t front e) =
      let u = record (tracker_of c) { to_check_orders = later } in
      let s = enqueue_valid_orders-Sends get now (shuffle draw) batch u t e in
      rw (s.checks, s.outputs q, front_count q batch later front)
        (checked-Move (count q (join later)) (count q (join u.output_orders)) (count q batch)
          (count q s.sent)
          (omega (
            arith,
            x.once q,
            front_count q batch later front,
            flag_le (busy ((tracker_of c).heap q)),
          ))
          (s.fewer q))
  Step-Move c _ q x (fulfilled fulfill size r batch later _ p front e) =
      let t = tracker_of c in
      rw (front_count q (r ∷ batch) later front) (
        taken-Move (count q (join t.to_check_orders)) (count q (join later)) (count q (r ∷ batch)) (
          omega
            (arith, x.once q, front_count q (r ∷ batch) later front, flag_le (busy (t.heap q)))))
  Step-Move c _ q x (reported results later _ _) =
      Grows-Move q (tracker_of c) (process_results results (tracker_of c))
        (process_results-Grows results (tracker_of c))
  Step-Move c _ q x (refreshed get_balances _) = stays (place q (tracker_of c))
  Step-Move c _ q x (loaded unmarshal get_balances rollapps_hash grants _) =
      let y = load_lps unmarshal get_balances rollapps_hash grants (tracker_of c) in
      rw (tracker_of-after_load c y.0 y.1 y.2) (
        Grows-Move q (tracker_of c) y.0
          (load_lps-Grows unmarshal get_balances rollapps_hash grants (tracker_of c)))
