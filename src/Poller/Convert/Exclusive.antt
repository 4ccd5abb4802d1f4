-- ===== src/Poller/Convert/Exclusive.antt =====
-- A round of polling does not touch the batches that wait.
use eibc_client.Base.{
  refl, ◌∙◌, ◌≤◌, ◌<◌, All, ◌^◌, panic, err, ℕ, ◌+◌, ◌≡◌, subst, List, [], ◌∷◌, Option, none, some,
  String, Result, ok, Option-cases, inl, inr, ok-injective, >>=-eq-ok,
}
use eibc_client.Base.Text.{parse_uint}
use eibc_client.Poller.Convert.Books.{note_heights_max, note_heights_bound}
use eibc_client.Base.Sort.{All-sort_slice}
use eibc_client.Lp.{Lp}
use eibc_client.Poller.{Order, OrderPoller}
use eibc_client.Poller.Convert.{
  Parsed, parse_order, new_order, noted, lower_first, note_heights, convert_parsed, convert_order,
  convert_each, convert_orders, poll_pending_demand_orders,
}
use eibc_client.Pool.{get_order}
use eibc_client.Sdk.{Sdk}
use eibc_client.Tracker.Intake.{Offer, taken, refused, no_lp, offer}
use eibc_client.Tracker.Intake.Exclusive.{
  update_exist-Grows, IsStored, offer-Grows, Learns, Learns-trans, track_orders-Learns,
}
use eibc_client.Tracker.State.{OrderTracker, track_orders}
use eibc_client.Tracker.State.Exclusive.{Grows, Grows-refl}

module _ ⦃S : Sdk⦄ (now : String → ℕ) (shuffle : String → List Lp → List Lp) where
  -- the tracker learns of the new orders, and the height that is remembered stays
  abbrev LearnsPoller : OrderPoller → OrderPoller × List ℕ → Type 0
  LearnsPoller p (q, new) =
      Learns p.order_tracker q.order_tracker new × (q.last_block_height ≡ p.last_block_height)

  noted-Learns :
      (id : String) (p : OrderPoller) (u : OrderTracker) (x : Offer)
      → Grows p.order_tracker u
      → IsStored u x
      → LearnsPoller p (noted id p u x)
  noted-Learns id p u (taken r) g s = ((g, (s, tt)), refl)
  noted-Learns id p u refused g s = ((g, tt), refl)
  noted-Learns id p u no_lp g s = ((g, tt), refl)

  convert_parsed-Learns :
      (o : Order) (x : Parsed) (p p' : OrderPoller) (new : List ℕ)
      → convert_parsed now shuffle o x p ≡ ok (p', new)
      → LearnsPoller p (p', new)
  unfolding convert_parsed
  convert_parsed-Learns o x p p' new e =
      elim (Option-cases (get_order o.eibc_order_id p.order_tracker.pool)) [
        | inr (r, g) ↦
            subst (LearnsPoller p) (ok-injective (rw (g, convert_parsed) at e))
              ((update_exist-Grows o.eibc_order_id r x.fee x.price p.order_tracker g, tt), refl)
        | inl g ↦
            let new_one = new_order o x (now o.eibc_order_id + p.order_tracker.wait_time) in
            let ((t, what), a, b) =
              >>=-eq-ok (offer (shuffle o.eibc_order_id) new_one p.order_tracker) _
                (rw (g, convert_parsed) at e) in
            let (grows, stored) =
              offer-Grows (shuffle o.eibc_order_id) new_one p.order_tracker t what a in
            subst (LearnsPoller p) (ok-injective b)
              (noted-Learns o.eibc_order_id p t what grows stored)
      ]

  convert_order-Learns :
      (o : Order) (p p' : OrderPoller) (new : List ℕ)
      → convert_order now shuffle o p ≡ ok (p', new)
      → LearnsPoller p (p', new)
  unfolding convert_order
  convert_order-Learns o p p' new e =
      let (parsed, a, b) = >>=-eq-ok (parse_order o) _ e in step parsed b
    where
      step :
          (parsed : Option Parsed)
          → ◌≡◌ {A = Result (OrderPoller × List ℕ)}
              (elim parsed [ none ↦ ok (p, []) | some x ↦ convert_parsed now shuffle o x p ])
              (ok (p', new))
          → LearnsPoller p (p', new)
      step none b = subst (LearnsPoller p) (ok-injective b) ((Grows-refl p.order_tracker, tt), refl)
      step (some x) b = convert_parsed-Learns o x p p' new b

  convert_each-Learns :
      (os : List Order) (p p' : OrderPoller) (new : List ℕ)
      → convert_each now shuffle os p ≡ ok (p', new)
      → LearnsPoller p (p', new)
  unfolding convert_each
  convert_each-Learns [] p p' new e =
      subst (LearnsPoller p) (ok-injective e) ((Grows-refl p.order_tracker, tt), refl)
  convert_each-Learns (o ∷ os) p p' new e =
      let ((p1, new1), a, e1) = >>=-eq-ok (convert_order now shuffle o p) _ e in
      let ((p2, later), b, e2) = >>=-eq-ok (convert_each now shuffle os p1) _ e1 in
      let first = convert_order-Learns o p p1 new1 a in
      let rest = convert_each-Learns os p1 p2 later b in
      subst (LearnsPoller p) (ok-injective e2) (
        Learns-trans p.order_tracker p1.order_tracker p2.order_tracker new1 later first.0 rest.0,
        rest.1 ∙ first.1,
      )

  convert_orders-Learns :
      (os : List Order) (p p' : OrderPoller) (new : List ℕ)
      → convert_orders now shuffle os p ≡ ok (p', new)
      → LearnsPoller p (p', new)
  unfolding convert_orders
  convert_orders-Learns os p p' new e =
      let ((q, found), a, b) = >>=-eq-ok (convert_each now shuffle os p) _ e in
      let ((grows, stored), height) = convert_each-Learns os p q found a in
      subst (LearnsPoller p) (ok-injective b)
        ((grows, All-sort_slice (lower_first q.order_tracker.heap) _ found stored), height)

  -- the tracker grows, and the height is that of the orders that are kept
  Polls : OrderPoller → ℕ → OrderPoller → Type 0
  Polls p last p' = Grows p.order_tracker p'.order_tracker × (p'.last_block_height ≡ last)

  polled-Polls :
      (orders : List Order) (p p' : OrderPoller)
      → poll_pending_demand_orders now shuffle (ok orders) p ≡ ok p'
      → Polls p (note_heights orders p.last_block_height).0 p'
  unfolding poll_pending_demand_orders Polls
  polled-Polls orders p p' e =
      let (last, kept) = note_heights orders p.last_block_height in
      let ((q, new), b, e2) =
        >>=-eq-ok (convert_orders now shuffle kept (record p { last_block_height = last })) _ e in
      step new q (convert_orders-Learns kept _ q new b) e2
    where
      step :
          (new : List ℕ) (q : OrderPoller)
          → LearnsPoller
              (record p { last_block_height = (note_heights orders p.last_block_height).0 })
              (q, new)
          → (elim new [
            | [] ↦ ok q
            | r ∷ rs ↦ ok (record q { order_tracker = track_orders (r ∷ rs) q.order_tracker })
          ])
            ≡ ok p'
          → Polls p (note_heights orders p.last_block_height).0 p'
      step [] q k b =
          subst (Polls p (note_heights orders p.last_block_height).0) (ok-injective b) (k.0.0, k.1)
      step (r ∷ rs) q k b =
          subst (Polls p (note_heights orders p.last_block_height).0) (ok-injective b)
            (track_orders-Learns p.order_tracker q.order_tracker (r ∷ rs) k.0, k.1)

  pub poll_pending_demand_orders-Grows :
      (get_orders : Result (List Order)) (p p' : OrderPoller)
      → poll_pending_demand_orders now shuffle get_orders p ≡ ok p'
      → Grows p.order_tracker p'.order_tracker
  unfolding poll_pending_demand_orders Polls
  poll_pending_demand_orders-Grows panic p p' e = absurd (cc)
  poll_pending_demand_orders-Grows (err text) p p' e = absurd (cc)
  poll_pending_demand_orders-Grows (ok orders) p p' e = (polled-Polls orders p p' e).0

  -- The block height that a round of polling remembers stays within 64 bits: it does not fall, and
  -- it is at least that of every order that is kept.
  pub poll_pending_demand_orders_height :
      (orders : List Order) (p p' : OrderPoller)
      → p.last_block_height < 2 ^ 64
      → poll_pending_demand_orders now shuffle (ok orders) p ≡ ok p'
      → (p.last_block_height ≤ p'.last_block_height)
        × (p'.last_block_height < 2 ^ 64)
        × All
            (λ o. (n : ℕ) × (parse_uint o.block_height ≡ some n) × (n ≤ p'.last_block_height))
            (note_heights orders p.last_block_height).1
  unfolding Polls
  poll_pending_demand_orders_height orders p p' b e =
      let same = (polled-Polls orders p p' e).1 in
      let (up, kept) = note_heights_max orders p.last_block_height in
      rw same (up, note_heights_bound orders p.last_block_height b, kept)
