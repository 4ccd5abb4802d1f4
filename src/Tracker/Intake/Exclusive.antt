-- ===== src/Tracker/Intake/Exclusive.antt =====
-- An order that is learnt of, or learnt of again, does not touch the batches that wait.
use eibc_client.Base.{
  ℕ, ◌<◌, ◌≡◌, refl, subst, List, [], ◌∷◌, some, String, str_eq, ok, arith, Result-cases,
  Bool-cases, Option-cases, inl, inr, ok-injective, All, All-append, All-map, ◌++◌,
}
use eibc_client.Base.Map.{lookup}
use eibc_client.Lp.{Lp}
use eibc_client.Pool.{get_order}
use eibc_client.Pool.Places.{upsert_order-IsBelow}
use eibc_client.Sdk.{Sdk, Coin, Coins, Amount}
use eibc_client.Tracker.Intake.{Offer, taken, refused, no_lp, assign, offer, update_exist}
use eibc_client.Tracker.Selection.{find_lp_for_order}
use eibc_client.Tracker.State.{
  OrderTracker, alloc, can_fulfill_order, is_rollapp_supported, track_orders,
}
use eibc_client.Tracker.State.Exclusive.{Grows, Grows-refl, Grows-trans, track_orders-Grows}
use eibc_client.Types.{DemandOrder}

module _ ⦃S : Sdk⦄ where
  pub update_exist-Grows :
      (id : String) (r : ℕ) (fee : Coin Amount) (price : Coins) (t : OrderTracker)
      → get_order id t.pool ≡ some r
      → Grows t (update_exist r fee price t)
  unfolding update_exist get_order
  update_exist-Grows id r fee price t e = record {
    checks = refl;
    outputs = refl;
    sizes = (refl, refl);
    more = omega arith;
    same = λ q b. ground arith;
    stores = λ s. upsert_order-IsBelow t.next _ (r ∷ []) t.pool (s id r e, tt) s;
  }

  -- A pointer that is kept has been stored.
  abbrev pub IsStored : OrderTracker → Offer → Type 0
  IsStored t (taken r) = r < t.next
  IsStored t refused = Unit
  IsStored t no_lp = Unit

  can_fulfill_order-Grows : (o : DemandOrder) (t : OrderTracker) → Grows t (can_fulfill_order o t).1
  unfolding can_fulfill_order is_rollapp_supported
  can_fulfill_order-Grows o t = elim (Bool-cases (is_rollapp_supported o.rollapp_id t)) [
    | inr z ↦ rw (can_fulfill_order, z) (Grows-refl t)
    | inl z ↦ elim (Option-cases (lookup o.id t.failed_order_hashes)) [
      | inl y ↦ rw (can_fulfill_order, z, y) (Grows-refl t)
      | inr (hash, y) ↦ elim (Bool-cases (str_eq (S.order_hash o.id o.fee) hash)) [
        | inl x ↦ rw (can_fulfill_order, z, y, x) (Grows-refl t)
        | inr x ↦ rw (can_fulfill_order, z, y, x) (same_but_hashes t _)
      ]
    ]
  ]
    where
      same_but_hashes : (u : OrderTracker) (m : _) → Grows u (record u { failed_order_hashes = m })
      same_but_hashes u m = record {
        checks = refl;
        outputs = refl;
        sizes = (refl, refl);
        more = omega arith;
        same = λ q b. refl;
        stores = λ s. s;
      }

  module _ (shuffle : List Lp → List Lp) where
    assign-Grows :
        (o : DemandOrder) (t t' : OrderTracker) (x : Offer)
        → assign shuffle o t ≡ ok (t', x)
        → Grows t t' × IsStored t' x
    unfolding assign alloc
    assign-Grows o t t' x e = elim (Result-cases (find_lp_for_order shuffle o t.lps)) [
      | inl ((o', lps), f) ↦
          subst (λ p. Grows t p.0 × IsStored p.0 p.1) (ok-injective (rw (f, assign) at e))
            (
              record {
                checks = refl;
                outputs = refl;
                sizes = (refl, refl);
                more = omega arith;
                same = λ q b. ground arith;
                stores = λ s k r h. omega (arith, s k r h);
              },
              omega arith,
            )
      | inr (inl (m, f)) ↦
          subst (λ p. Grows t p.0 × IsStored p.0 p.1) (ok-injective (rw (f, assign) at e))
            (Grows-refl t, tt)
      | inr (inr f) ↦ absurd (cc (rw (f, assign) at e))
    ]

    pub offer-Grows :
        (o : DemandOrder) (t t' : OrderTracker) (x : Offer)
        → offer shuffle o t ≡ ok (t', x)
        → Grows t t' × IsStored t' x
    unfolding offer
    offer-Grows o t t' x e = elim (Bool-cases (can_fulfill_order o t).0) [
      | inl c ↦
          let (g, s) = assign-Grows o (can_fulfill_order o t).1 t' x (rw (c, offer) at e) in
          (Grows-trans t (can_fulfill_order o t).1 t' (can_fulfill_order-Grows o t) g, s)
      | inr c ↦
          subst (λ p. Grows t p.0 × IsStored p.0 p.1) (ok-injective (rw (c, offer) at e))
            (can_fulfill_order-Grows o t, tt)
    ]

  -- New pointers have been stored, and the waiting batches stay as they are.
  abbrev pub Learns : OrderTracker → OrderTracker → List ℕ → Type 0
  Learns t u new = Grows t u × All (λ r. r < u.next) new

  pub Learns-trans :
      (t u v : OrderTracker) (new later : List ℕ)
      → Learns t u new
      → Learns u v later
      → Learns t v (new ++ later)
  Learns-trans t u v new later (g, a) (h, b) = (
    Grows-trans t u v g h,
    All-append _ new later (All-map new (λ r l. omega (arith, h.more)) a) b,
  )

  pub track_orders-Learns :
      (t u : OrderTracker) (new : List ℕ) → Learns t u new → Grows t (track_orders new u)
  track_orders-Learns t u new (g, a) = Grows-trans t u _ g (track_orders-Grows new u a)
