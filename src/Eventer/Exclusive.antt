-- ===== src/Eventer/Exclusive.antt =====
-- A message of events does not touch the batches that wait.
use eibc_client.Base.{
  ℕ, suc, ◌≡◌, subst, List, [], ◌∷◌, Option, none, some, String, Result, ok, Bool-cases,
  Option-cases, inl, inr, ok-injective, str_eq, >>=-eq-ok, ◌+◌,
}
use eibc_client.Eventer.{
  Events, EventOrder, values, value_at, parse_event, order_of, take_new, take_event, one_event,
  each_event, parse_orders_from_events, enqueue_event_orders, updated_fee_event, kept,
}
use eibc_client.Lp.{Lp}
use eibc_client.Pool.{get_order}
use eibc_client.Sdk.{Sdk}
use eibc_client.Tracker.Intake.{Offer, taken, refused, no_lp, offer}
use eibc_client.Tracker.Intake.Exclusive.{
  update_exist-Grows, IsStored, offer-Grows, Learns, Learns-trans, track_orders-Learns,
}
use eibc_client.Tracker.State.{OrderTracker, track_orders}
use eibc_client.Tracker.State.Exclusive.{Grows, Grows-refl}

module _ ⦃S : Sdk⦄ (now : String → ℕ) (shuffle : String → List Lp → List Lp) where
  abbrev LearnsEvent : OrderTracker → OrderTracker × List ℕ → Type 0
  LearnsEvent t (u, new) = Learns t u new

  kept-Learns :
      (t u : OrderTracker) (x : Offer) → Grows t u → IsStored u x → LearnsEvent t (u, kept x)
  kept-Learns t u (taken r) g s = (g, (s, tt))
  kept-Learns t u refused g s = (g, tt)
  kept-Learns t u no_lp g s = (g, tt)

  module _ (events : Events) (name : String) where
    take_new-Learns :
        (id : String) (i : ℕ) (x : EventOrder) (t t' : OrderTracker) (new : List ℕ)
        → take_new now shuffle events name id i x t ≡ ok (t', new)
        → Learns t t' new
    unfolding take_new
    take_new-Learns id i x t t' new e =
        let (rollapp_id, a, e1) = >>=-eq-ok (value_at events name ".rollapp_id" i) _ e in
        let o = order_of id rollapp_id x (now id + t.wait_time) in
        let ((t1, what), b, e2) = >>=-eq-ok (offer (shuffle id) o t) _ e1 in
        let (grows, stored) = offer-Grows (shuffle id) o t t1 what b in
        subst (LearnsEvent t) (ok-injective e2) (kept-Learns t t1 what grows stored)

    take_event-Learns :
        (id : String) (i : ℕ) (x : EventOrder) (t t' : OrderTracker) (new : List ℕ)
        → take_event now shuffle events name id i x t ≡ ok (t', new)
        → Learns t t' new
    unfolding take_event
    take_event-Learns id i x t t' new e = elim (Bool-cases (str_eq name updated_fee_event)) [
      | inr n ↦ take_new-Learns id i x t t' new (rw (n, take_event) at e)
      | inl y ↦ elim (Option-cases (get_order id t.pool)) [
        | inl g ↦ take_new-Learns id i x t t' new (rw (y, take_event, g) at e)
        | inr (r, g) ↦
            subst (LearnsEvent t) (ok-injective (rw (y, take_event, g) at e))
              (update_exist-Grows id r x.fee x.price t g, tt)
      ]
    ]

    one_event-Learns :
        (id : String) (i : ℕ) (t t' : OrderTracker) (new : List ℕ)
        → one_event now shuffle events name id i t ≡ ok (t', new)
        → Learns t t' new
    unfolding one_event
    one_event-Learns id i t t' new e =
        let (parsed, a, b) = >>=-eq-ok (parse_event events name i) _ e in step parsed b
      where
        step :
            (parsed : Option EventOrder)
            → ◌≡◌ {A = Result (OrderTracker × List ℕ)}
                (elim parsed [
                  | none ↦ ok (t, [])
                  | some x ↦ take_event now shuffle events name id i x t
                ])
                (ok (t', new))
            → Learns t t' new
        step none b = subst (LearnsEvent t) (ok-injective b) (Grows-refl t, tt)
        step (some x) b = take_event-Learns id i x t t' new b

    each_event-Learns :
        (ids : List String) (i : ℕ) (t t' : OrderTracker) (new : List ℕ)
        → each_event now shuffle events name ids i t ≡ ok (t', new)
        → Learns t t' new
    unfolding each_event
    each_event-Learns [] i t t' new e = subst (LearnsEvent t) (ok-injective e) (Grows-refl t, tt)
    each_event-Learns (id ∷ ids) i t t' new e =
        let ((t1, new1), a, e1) = >>=-eq-ok (one_event now shuffle events name id i t) _ e in
        let ((t2, later), b, e2) =
          >>=-eq-ok (each_event now shuffle events name ids (suc i) t1) _ e1 in
        subst (LearnsEvent t) (ok-injective e2) (
          Learns-trans t t1 t2 new1 later (one_event-Learns id i t t1 new1 a)
            (each_event-Learns ids (suc i) t1 t2 later b))

    pub enqueue_event_orders-Grows :
        (t t' : OrderTracker) → enqueue_event_orders now shuffle name events t ≡ ok t' → Grows t t'
    unfolding enqueue_event_orders parse_orders_from_events
    enqueue_event_orders-Grows t t' e =
        let ((t1, new), a, b) =
          >>=-eq-ok (parse_orders_from_events now shuffle name events t) _ e in
        step new t1 (each_event-Learns (values events name ".order_id") 0 t t1 new a) b
      where
        step :
            (new : List ℕ) (u : OrderTracker)
            → Learns t u new
            → ◌≡◌ {A = Result OrderTracker}
                (elim new [ [] ↦ ok u | r ∷ rs ↦ ok (track_orders (r ∷ rs) u) ])
                (ok t')
            → Grows t t'
        step [] u k b = subst (Grows t) (ok-injective b) k.0
        step (r ∷ rs) u k b = subst (Grows t) (ok-injective b) (track_orders-Learns t u (r ∷ rs) k)
