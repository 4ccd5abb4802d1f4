-- ===== src/Tracker/Validation/Verdicts.antt =====
-- What each verdict means for the order and the rest of the state.
use eibc_client.Base.{
  ℕ, ◌≡◌, ◌⊎◌, refl, subst, Bool, true, false, List, [], ◌∷◌, none, String, Result, ok, err, panic,
  Result-cases, Bool-cases, inl, inr, arith, ok-injective, eq_refl,
}
use eibc_client.Lp.{Lp}
use eibc_client.Node.{BlockValidatedResponse, NodeClient, block_validated}
use eibc_client.Pool.{update, get_order, set_valid}
use eibc_client.Pool.Contents.{get_order-remove_order}
use eibc_client.Sdk.{Sdk}
use eibc_client.Tracker.State.{OrderTracker}
use eibc_client.Tracker.Selection.{find_lp_for_order, release_all}
use eibc_client.Tracker.Validation.{
  Verdict, validated, retried, evicted, unchecked, check_order, after_answer, reconsider,
  expected_level, is_order_expired, evict_order,
}
use eibc_client.Types.{DemandOrder}

module _ ⦃S : Sdk⦄ (get : String → Result BlockValidatedResponse) (now : String → ℕ)
    (shuffle : String → List Lp → List Lp) where
  abbrev pub answer : ℕ → OrderTracker → Result Bool × NodeClient
  answer r t =
      let o = t.heap r in
      block_validated get o.rollapp_id o.proof_height (expected_level o) t.full_node_client

  -- What a verdict says of the order behind `r`, and of the state before and after.
  abbrev pub Explains : ℕ → OrderTracker → OrderTracker → Verdict → Type 0
  Explains r t t' validated =
      ((answer r t).0 ≡ ok true)
      × (t'.heap ≡ set_valid (t.heap r).id t.pool t.heap)
      × (t'.pool ≡ t.pool)
      × (t'.lps ≡ t.lps)
  Explains r t t' retried =
      ((answer r t).0 ≡ ok false)
      × (is_order_expired now (t.heap r) ≡ false)
      × ((o : DemandOrder) × (find_lp_for_order (shuffle (t.heap r).id) (t.heap r) t.lps
            ≡ ok (o, t'.lps))
          × (t'.heap ≡ update t.heap r (record o { checking = false })))
      × (t'.pool ≡ t.pool)
  Explains r t t' evicted =
      ((answer r t).0 ≡ ok false)
      × ((is_order_expired now (t.heap r) ≡ true)
          ⊎ ((e : String) × (find_lp_for_order (shuffle (t.heap r).id) (t.heap r) t.lps ≡ err e)))
      × (get_order (t.heap r).id t'.pool ≡ none)
      × (t'.lps ≡ release_all (t.heap r ∷ []) t.lps)
      × (t'.heap ≡ t.heap)
  Explains r t t' unchecked =
      ((e : String) × ((answer r t).0 ≡ err e))
      × (t'.heap ≡ t.heap)
      × (t'.pool ≡ t.pool)
      × (t'.lps ≡ t.lps)

  module _ (r : ℕ) (t t' : OrderTracker) (v : Verdict) where
    abbrev seen : OrderTracker
    seen = record t { full_node_client = (answer r t).1 }

    arrives :
        {u : OrderTracker} {w : Verdict}
        → Explains r t u w
        → ◌≡◌ {A = Result (OrderTracker × Verdict)} (ok (u, w)) (ok (t', v))
        → Explains r t t' v
    arrives x e = subst (λ p. Explains r t p.0 p.1) (ok-injective e) x

    reconsider-Explains :
        (answer r t).0 ≡ ok false
        → is_order_expired now (t.heap r) ≡ false
        → reconsider get now shuffle r seen ≡ ok (t', v)
        → Explains r t t' v
    unfolding reconsider evict_order
    reconsider-Explains a x e =
        elim (Result-cases (find_lp_for_order (shuffle (t.heap r).id) (t.heap r) t.lps)) [
          | inl ((o, lps), f) ↦ arrives (a, x, (o, f, refl), refl) (rw (f, reconsider) at e)
          | inr (inl (m, f)) ↦
              arrives
                (
                  a,
                  inr (m, f),
                  ground (
                    arith,
                    get_order-remove_order (t.heap r).id (t.heap r).id t.pool,
                    eq_refl (t.heap r).id,
                  ),
                  refl,
                  refl,
                )
                (rw (f, reconsider) at e)
          | inr (inr f) ↦ absurd (ground arith)
        ]

    after_answer-Explains :
        (a : Result Bool)
        → (answer r t).0 ≡ a
        → after_answer get now shuffle a r seen ≡ ok (t', v)
        → Explains r t t' v
    unfolding after_answer evict_order
    after_answer-Explains panic a e = absurd (cc)
    after_answer-Explains (err m) a e = arrives ((m, a), refl, refl, refl) e
    after_answer-Explains (ok true) a e = arrives (a, refl, refl, refl) e
    after_answer-Explains (ok false) a e = elim (Bool-cases (is_order_expired now (t.heap r))) [
      | inl x ↦
          arrives
            (
              a,
              inl x,
              ground (
                arith,
                get_order-remove_order (t.heap r).id (t.heap r).id t.pool,
                eq_refl (t.heap r).id,
              ),
              refl,
              refl,
            )
            (rw x at e)
      | inr x ↦ reconsider-Explains a x (rw x at e)
    ]

  -- Each popped order gets exactly the verdict that the full nodes, the clock and the LPs give it:
  -- a validated one is marked valid through the pool; one that is not valid yet is retried while
  -- it has time left and an LP, and is idle again; without either it leaves the pool and its
  -- reservation is released; and one whose block could not be checked is left as it is.
  pub check_order-Explains :
      (r : ℕ) (t t' : OrderTracker) (v : Verdict)
      → check_order get now shuffle r t ≡ ok (t', v)
      → Explains r t t' v
  unfolding check_order
  check_order-Explains r t t' v e = after_answer-Explains r t t' v (answer r t).0 refl e
