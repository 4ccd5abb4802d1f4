-- ===== src/Tracker/Intake/Books.antt =====
-- What taking an order means for the order and the books of the LPs.
use eibc_client.Base.{
  ℕ, ◌≡◌, ◌≢◌, refl, sym, subst, true, List, ok, panic, Result-cases, Bool-cases, inl, inr,
  ok-injective, arith, ◌==◌,
}
use eibc_client.Base.Map.{Map}
use eibc_client.Lp.{Lp}
use eibc_client.Sdk.{Sdk}
use eibc_client.Sdk.Laws.{CoinLaws, DecLaws}
use eibc_client.Tracker.State.{OrderTracker, alloc, can_fulfill_order, is_rollapp_supported}
use eibc_client.Tracker.Selection.{find_lp_for_order}
use eibc_client.Tracker.Selection.Choice.{IsShuffle}
use eibc_client.Tracker.Selection.Found.{Assigned, Found-Assigned, find_lp_for_order-Found}
use eibc_client.Tracker.Selection.Solvency.{AreSolvent, find_lp_for_order-AreSolvent}
use eibc_client.Tracker.Intake.{Offer, taken, refused, no_lp, assign, offer}
use eibc_client.Types.{DemandOrder}

module _ ⦃S : Sdk⦄ (L : CoinLaws) (D : DecLaws) (shuffle : List Lp → List Lp)
    (mixes : IsShuffle shuffle) where
  -- What became of an order, by the offer: a taken one stands at its new pointer with an LP that
  -- reserves its price; of another one the LPs do not know.
  abbrev pub BecomesFrom : DemandOrder → Map Lp → OrderTracker → Offer → Type 0
  BecomesFrom o lps t' (taken r) = Assigned o (t'.heap r) lps t'.lps
  BecomesFrom o lps t' refused = t'.lps ≡ lps
  BecomesFrom o lps t' no_lp = t'.lps ≡ lps

  abbrev pub Becomes : DemandOrder → OrderTracker → OrderTracker → Offer → Type 0
  Becomes o t = BecomesFrom o t.lps

  can_fulfill_order-lps :
      (o : DemandOrder) (t : OrderTracker) → (can_fulfill_order o t).1.lps ≡ t.lps
  unfolding can_fulfill_order is_rollapp_supported
  can_fulfill_order-lps o t = ground arith

  same_pointer : (n : ℕ) → (n == n) ≡ true
  same_pointer n = ground arith

  assign-Becomes :
      (o : DemandOrder) (t t' : OrderTracker) (x : Offer)
      → o.lp_address ≡ ""
      → assign shuffle o t ≡ ok (t', x)
      → Becomes o t t' x
  unfolding assign alloc
  assign-Becomes o t t' x new e = elim (Result-cases (find_lp_for_order shuffle o t.lps)) [
    | inl ((o', lps), f) ↦
        subst (λ p. Becomes o t p.0 p.1) (ok-injective (rw (f, assign) at e))
          (rw (same_pointer t.next) (
            Found-Assigned o o' t.lps lps new
              (find_lp_for_order-Found shuffle mixes D o o' t.lps lps f)))
    | inr (inl (m, f)) ↦ subst (λ p. Becomes o t p.0 p.1) (ok-injective (rw (f, assign) at e)) refl
    | inr (inr f) ↦ absurd (cc (rw (f, assign) at e))
  ]

  -- An order that is learnt of, and has no LP yet, is taken on only with an LP of the map that accepts
  -- it, and none that accepts it is better: then the order at its new pointer has this LP, which
  -- reserves the price. An order that is not taken changes no LP.
  pub offer-Becomes :
      (o : DemandOrder) (t t' : OrderTracker) (x : Offer)
      → o.lp_address ≡ ""
      → offer shuffle o t ≡ ok (t', x)
      → Becomes o t t' x
  unfolding offer
  offer-Becomes o t t' x new e = elim (Bool-cases (can_fulfill_order o t).0) [
    | inl c ↦
        subst (λ lps. BecomesFrom o lps t' x) (can_fulfill_order-lps o t)
          (assign-Becomes o (can_fulfill_order o t).1 t' x new (rw (c, offer) at e))
    | inr c ↦
        subst (λ p. Becomes o t p.0 p.1) (ok-injective (rw (c, offer) at e))
          (can_fulfill_order-lps o t)
  ]

  assign-AreSolvent :
      (o : DemandOrder) (t t' : OrderTracker) (x : Offer)
      → AreSolvent L t.lps
      → assign shuffle o t ≡ ok (t', x)
      → AreSolvent L t'.lps
  unfolding assign alloc
  assign-AreSolvent o t t' x h e = elim (Result-cases (find_lp_for_order shuffle o t.lps)) [
    | inl ((o', lps), f) ↦
        subst (λ p. AreSolvent L p.0.lps) (ok-injective (rw (f, assign) at e))
          ((find_lp_for_order-AreSolvent L shuffle mixes D o t.lps h).1 o' lps f)
    | inr (inl (m, f)) ↦ subst (λ p. AreSolvent L p.0.lps) (ok-injective (rw (f, assign) at e)) h
    | inr (inr f) ↦ absurd (cc (rw (f, assign) at e))
  ]

  assign_returns :
      (o : DemandOrder) (t : OrderTracker) → AreSolvent L t.lps → assign shuffle o t ≢ panic
  unfolding assign alloc
  assign_returns o t h e = elim (Result-cases (find_lp_for_order shuffle o t.lps)) [
    | inl ((o', lps), f) ↦ cc (rw (f, assign) at e)
    | inr (inl (m, f)) ↦ cc (rw (f, assign) at e)
    | inr (inr f) ↦ (find_lp_for_order-AreSolvent L shuffle mixes D o t.lps h).0 f
  ]

  -- Taking an order on keeps the books solvent, and does not panic.
  pub offer-AreSolvent :
      (o : DemandOrder) (t : OrderTracker)
      → AreSolvent L t.lps
      → (offer shuffle o t ≢ panic)
        × ((t' : OrderTracker) (x : Offer) → offer shuffle o t ≡ ok (t', x) → AreSolvent L t'.lps)
  unfolding offer
  offer-AreSolvent o t h =
      let h' = subst (AreSolvent L) (sym (can_fulfill_order-lps o t)) h in
      let t1 = (can_fulfill_order o t).1 in
      elim (Bool-cases (can_fulfill_order o t).0) [
        | inl c ↦ (
          λ e. assign_returns o t1 h' (rw (c, offer) at e),
          λ t' x e. assign-AreSolvent o t1 t' x h' (rw (c, offer) at e),
        )
        | inr c ↦ (
          λ e. cc (rw (c, offer) at e),
          λ t' x e. subst (λ p. AreSolvent L p.0.lps) (ok-injective (rw (c, offer) at e)) h',
        )
      ]
