-- ===== src/Eventer/Books.antt =====
-- A message of events keeps the books of the LPs solvent.
use eibc_client.Base.{
  ℕ, suc, ◌≡◌, subst, List, [], ◌∷◌, Option, none, some, String, Result, ok, Bool-cases,
  Option-cases, inl, inr, ok-injective, str_eq, >>=-eq-ok, ◌+◌,
}
use eibc_client.Eventer.{
  Events, EventOrder, values, value_at, parse_event, order_of, take_new, take_event, one_event,
  each_event, parse_orders_from_events, enqueue_event_orders, updated_fee_event,
}
use eibc_client.Lp.{Lp}
use eibc_client.Pool.{get_order}
use eibc_client.Sdk.{Sdk}
use eibc_client.Sdk.Laws.{CoinLaws, DecLaws}
use eibc_client.Tracker.Intake.{offer, update_exist}
use eibc_client.Tracker.Intake.Books.{offer-AreSolvent}
use eibc_client.Tracker.Selection.Choice.{IsShuffle}
use eibc_client.Tracker.Selection.Solvency.{AreSolvent}
use eibc_client.Tracker.State.{OrderTracker, track_orders}

module _ ⦃S : Sdk⦄ (L : CoinLaws) (D : DecLaws) (now : String → ℕ)
    (shuffle : String → List Lp → List Lp) (mixes : (id : String) → IsShuffle (shuffle id)) where
  take_new-AreSolvent :
      (events : Events) (name id : String) (i : ℕ) (x : EventOrder) (t t' : OrderTracker)
      (new : List ℕ)
      → AreSolvent L t.lps
      → take_new now shuffle events name id i x t ≡ ok (t', new)
      → AreSolvent L t'.lps
  unfolding take_new
  take_new-AreSolvent events name id i x t t' new h e =
      let (rollapp_id, a, e1) = >>=-eq-ok (value_at events name ".rollapp_id" i) _ e in
      let o = order_of id rollapp_id x (now id + t.wait_time) in
      let ((t1, what), b, e2) = >>=-eq-ok (offer (shuffle id) o t) _ e1 in
      subst (λ p. AreSolvent L p.0.lps) (ok-injective e2)
        ((offer-AreSolvent L D (shuffle id) (mixes id) o t h).1 t1 what b)

  take_event-AreSolvent :
      (events : Events) (name id : String) (i : ℕ) (x : EventOrder) (t t' : OrderTracker)
      (new : List ℕ)
      → AreSolvent L t.lps
      → take_event now shuffle events name id i x t ≡ ok (t', new)
      → AreSolvent L t'.lps
  unfolding take_event update_exist
  take_event-AreSolvent events name id i x t t' new h e =
      elim (Bool-cases (str_eq name updated_fee_event)) [
        | inr n ↦ take_new-AreSolvent events name id i x t t' new h (rw (n, take_event) at e)
        | inl y ↦ elim (Option-cases (get_order id t.pool)) [
          | inl g ↦ take_new-AreSolvent events name id i x t t' new h (rw (y, take_event, g) at e)
          | inr (r, g) ↦
              subst (λ p. AreSolvent L p.0.lps) (ok-injective (rw (y, take_event, g) at e)) h
        ]
      ]

  pub one_event-AreSolvent :
      (events : Events) (name id : String) (i : ℕ) (t t' : OrderTracker) (new : List ℕ)
      → AreSolvent L t.lps
      → one_event now shuffle events name id i t ≡ ok (t', new)
      → AreSolvent L t'.lps
  unfolding one_event
  one_event-AreSolvent events name id i t t' new h e =
      let (parsed, a, b) = >>=-eq-ok (parse_event events name i) _ e in step parsed b
    where
      step :
          (parsed : Option EventOrder)
          → ◌≡◌ {A = Result (OrderTracker × List ℕ)}
              (elim parsed [
                | none ↦ ok (t, [])
                | some x ↦ take_event now shuffle events name id i x t
              ])
              (ok (t', new))
          → AreSolvent L t'.lps
      step none b = subst (λ p. AreSolvent L p.0.lps) (ok-injective b) h
      step (some x) b = take_event-AreSolvent events name id i x t t' new h b

  each_event-AreSolvent :
      (events : Events) (name : String) (ids : List String) (i : ℕ) (t t' : OrderTracker)
      (new : List ℕ)
      → AreSolvent L t.lps
      → each_event now shuffle events name ids i t ≡ ok (t', new)
      → AreSolvent L t'.lps
  unfolding each_event
  each_event-AreSolvent events name [] i t t' new h e =
      subst (λ p. AreSolvent L p.0.lps) (ok-injective e) h
  each_event-AreSolvent events name (id ∷ ids) i t t' new h e =
      let ((t1, new1), a, e1) = >>=-eq-ok (one_event now shuffle events name id i t) _ e in
      let ((t2, later), b, e2) =
        >>=-eq-ok (each_event now shuffle events name ids (suc i) t1) _ e1 in
      subst (λ p. AreSolvent L p.0.lps) (ok-injective e2)
        (each_event-AreSolvent events name ids (suc i) t1 t2 later
          (one_event-AreSolvent events name id i t t1 new1 h a) b)

  -- A message of events that is processed leaves every LP with at least what it has reserved,
  -- whatever orders it creates or updates.
  pub enqueue_event_orders-AreSolvent :
      (name : String) (events : Events) (t t' : OrderTracker)
      → AreSolvent L t.lps
      → enqueue_event_orders now shuffle name events t ≡ ok t'
      → AreSolvent L t'.lps
  unfolding enqueue_event_orders parse_orders_from_events track_orders
  enqueue_event_orders-AreSolvent name events t t' h e =
      let ((t1, new), a, b) = >>=-eq-ok (parse_orders_from_events now shuffle name events t) _ e in
      step new t1
        (each_event-AreSolvent events name (values events name ".order_id") 0 t t1 new h a) b
    where
      step :
          (new : List ℕ) (u : OrderTracker)
          → AreSolvent L u.lps
          → ◌≡◌ {A = Result OrderTracker}
              (elim new [ [] ↦ ok u | r ∷ rs ↦ ok (track_orders (r ∷ rs) u) ])
              (ok t')
          → AreSolvent L t'.lps
      step [] u k b = subst (λ w. AreSolvent L w.lps) (ok-injective b) k
      step (r ∷ rs) u k b = subst (λ w. AreSolvent L w.lps) (ok-injective b) k
