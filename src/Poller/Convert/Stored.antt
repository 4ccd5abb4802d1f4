-- ===== src/Poller/Convert/Stored.antt =====
-- Which orders a conversion stores, and that it hands on those.
use eibc_client.Base.{
  ℕ, zero, suc, ◌+◌, ◌≡◌, refl, ap, ◌∙◌, subst, List, [], ◌∷◌, ◌++◌, Option, none, some, String,
  Result, ok, Result-cases, Option-cases, Bool-cases, inl, inr, ok-injective, >>=-eq-ok, arith,
}
use eibc_client.Lp.{Lp}
use eibc_client.Poller.{Order, OrderPoller}
use eibc_client.Poller.Convert.{
  Parsed, parse_order, new_order, noted, convert_parsed, convert_order, convert_each,
}
use eibc_client.Pool.{get_order}
use eibc_client.Sdk.{Sdk}
use eibc_client.Tracker.Intake.{Offer, taken, refused, no_lp, assign, offer, update_exist}
use eibc_client.Tracker.Selection.{find_lp_for_order}
use eibc_client.Tracker.State.{OrderTracker, alloc, can_fulfill_order, is_rollapp_supported}
use eibc_client.Types.{DemandOrder}

-- the `n` pointers from `r` on
abbrev pub pointers : ℕ → ℕ → List ℕ
pointers r zero = []
pointers r (suc n) = r ∷ pointers (suc r) n

next_sum : (m n : ℕ) → suc (m + n) ≡ suc m + n
next_sum m n = omega arith

pointers-append : (r m n : ℕ) → pointers r m ++ pointers (m + r) n ≡ pointers r (m + n)
pointers-append r zero n =
    ap (λ x. pointers x n) (omega arith) ∙ ap (λ x. pointers r x) (omega arith)
pointers-append r (suc m) n =
    ap (λ ps. r ∷ ps)
      (ap (λ x. pointers (suc r) m ++ pointers x n) (omega arith) ∙ pointers-append (suc r) m n)
    ∙ ap (λ x. pointers r x) (next_sum m n)

module _ ⦃S : Sdk⦄ where
  -- The tracker has stored an order at each of the new pointers, which are the next ones.
  abbrev pub Stores : OrderTracker → OrderTracker → List ℕ → Type 0
  Stores t u new = (n : ℕ) × (u.next ≡ n + t.next) × (new ≡ pointers t.next n)

  Stores-trans :
      (t u v : OrderTracker) (new later : List ℕ)
      → Stores t u new
      → Stores u v later
      → Stores t v (new ++ later)
  Stores-trans t u v new later (m, a, b) (n, c, d) =
      (m + n, omega (arith, a, c), rw (b, d, a) (pointers-append t.next m n))

  offered : Offer → List ℕ
  offered (taken r) = r ∷ []
  offered refused = []
  offered no_lp = []

  can_fulfill_order-next :
      (o : DemandOrder) (t : OrderTracker) → (can_fulfill_order o t).1.next ≡ t.next
  unfolding can_fulfill_order is_rollapp_supported
  can_fulfill_order-next o t = ground arith

  module _ (shuffle : List Lp → List Lp) where
    assign-Stores :
        (o : DemandOrder) (t t' : OrderTracker) (x : Offer)
        → assign shuffle o t ≡ ok (t', x)
        → Stores t t' (offered x)
    unfolding assign alloc offered
    assign-Stores o t t' x e = elim (Result-cases (find_lp_for_order shuffle o t.lps)) [
      | inl ((o', lps), f) ↦
          subst (λ p. Stores t p.0 (offered p.1)) (ok-injective (rw (f, assign) at e))
            (1, omega arith, refl)
      | inr (inl (m, f)) ↦
          subst (λ p. Stores t p.0 (offered p.1)) (ok-injective (rw (f, assign) at e))
            (0, omega arith, refl)
      | inr (inr f) ↦ absurd (cc (rw (f, assign) at e))
    ]

    offer-Stores :
        (o : DemandOrder) (t t' : OrderTracker) (x : Offer)
        → offer shuffle o t ≡ ok (t', x)
        → Stores t t' (offered x)
    unfolding offer offered
    offer-Stores o t t' x e = elim (Bool-cases (can_fulfill_order o t).0) [
      | inl c ↦
          let (n, a, b) = assign-Stores o (can_fulfill_order o t).1 t' x (rw (c, offer) at e) in
          let same = can_fulfill_order-next o t in
          (n, a ∙ ap (λ y. n + y) same, b ∙ ap (λ y. pointers y n) same)
      | inr c ↦
          subst (λ p. Stores t p.0 (offered p.1)) (ok-injective (rw (c, offer) at e))
            (0, omega (arith, can_fulfill_order-next o t), refl)
    ]

module _ ⦃S : Sdk⦄ (now : String → ℕ) (shuffle : String → List Lp → List Lp) where
  abbrev StoresIn : OrderPoller → OrderPoller × List ℕ → Type 0
  StoresIn p (q, new) = Stores p.order_tracker q.order_tracker new

  noted-Stores :
      (id : String) (p : OrderPoller) (u : OrderTracker) (x : Offer)
      → Stores p.order_tracker u (offered x)
      → StoresIn p (noted id p u x)
  unfolding offered
  noted-Stores id p u (taken r) s = s
  noted-Stores id p u refused s = s
  noted-Stores id p u no_lp s = s

  convert_parsed-Stores :
      (o : Order) (x : Parsed) (p p' : OrderPoller) (new : List ℕ)
      → convert_parsed now shuffle o x p ≡ ok (p', new)
      → StoresIn p (p', new)
  unfolding convert_parsed update_exist
  convert_parsed-Stores o x p p' new e =
      elim (Option-cases (get_order o.eibc_order_id p.order_tracker.pool)) [
        | inr (r, g) ↦
            subst (StoresIn p) (ok-injective (rw (g, convert_parsed) at e)) (0, omega arith, refl)
        | inl g ↦
            let new_one = new_order o x (now o.eibc_order_id + p.order_tracker.wait_time) in
            let ((t, what), a, b) =
              >>=-eq-ok (offer (shuffle o.eibc_order_id) new_one p.order_tracker) _
                (rw (g, convert_parsed) at e) in
            subst (StoresIn p) (ok-injective b) (
              noted-Stores o.eibc_order_id p t what
                (offer-Stores (shuffle o.eibc_order_id) new_one p.order_tracker t what a))
      ]

  convert_order-Stores :
      (o : Order) (p p' : OrderPoller) (new : List ℕ)
      → convert_order now shuffle o p ≡ ok (p', new)
      → StoresIn p (p', new)
  unfolding convert_order
  convert_order-Stores o p p' new e =
      let (parsed, a, b) = >>=-eq-ok (parse_order o) _ e in step parsed b
    where
      step :
          (parsed : Option Parsed)
          → ◌≡◌ {A = Result (OrderPoller × List ℕ)}
              (elim parsed [ none ↦ ok (p, []) | some x ↦ convert_parsed now shuffle o x p ])
              (ok (p', new))
          → StoresIn p (p', new)
      step none b = subst (StoresIn p) (ok-injective b) (0, omega arith, refl)
      step (some x) b = convert_parsed-Stores o x p p' new b

  -- The conversion keeps the pointers of the orders that it stored, in the order of storing.
  pub convert_each-Stores :
      (os : List Order) (p p' : OrderPoller) (new : List ℕ)
      → convert_each now shuffle os p ≡ ok (p', new)
      → Stores p.order_tracker p'.order_tracker new
  unfolding convert_each
  convert_each-Stores [] p p' new e = subst (StoresIn p) (ok-injective e) (0, omega arith, refl)
  convert_each-Stores (o ∷ os) p p' new e =
      let ((p1, new1), a, e1) = >>=-eq-ok (convert_order now shuffle o p) _ e in
      let ((p2, later), b, e2) = >>=-eq-ok (convert_each now shuffle os p1) _ e1 in
      subst (StoresIn p) (ok-injective e2) (
        Stores-trans p.order_tracker p1.order_tracker p2.order_tracker new1 later
          (convert_order-Stores o p p1 new1 a) (convert_each-Stores os p1 p2 later b))
