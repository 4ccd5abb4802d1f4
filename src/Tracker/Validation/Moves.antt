-- ===== src/Tracker/Validation/Moves.antt =====
-- What the check of one order does to it, and to the orders beside it.
use eibc_client.Base.{
  ℕ, ◌+◌, ◌≤◌, ◌≡◌, refl, subst, Bool, true, false, List, String, Result, ok, err, panic, arith,
  Result-cases, Bool-cases, Option-cases, inl, inr, ok-injective, ◌==◌,
}
use eibc_client.Base.Counts.{flag}
use eibc_client.Base.Map.{lookup}
use eibc_client.Lp.{Lp}
use eibc_client.Node.{BlockValidatedResponse, block_validated}
use eibc_client.Pool.{busy, set_valid}
use eibc_client.Pool.Places.{IsBelow, remove_order-IsBelow}
use eibc_client.Sdk.{Sdk}
use eibc_client.Tracker.Selection.{find_lp_for_order}
use eibc_client.Tracker.State.{OrderTracker}
use eibc_client.Tracker.Validation.{
  Verdict, validated, retried, evicted, check_order, after_answer, reconsider, evict_order,
  is_order_expired, expected_level,
}

-- 1 if the order is set idle
abbrev pub freed : ℕ → Verdict → ℕ → ℕ
freed r retried q = flag (r == q)
freed r _ q = 0

module _ ⦃S : Sdk⦄ where
  -- The batches and what is stored stay, and no order but `r` is set idle, and that only to retry it.
  pub record Moves (r : ℕ) (t u : OrderTracker) (v : Verdict) : Type 0 where
    pub checks : u.to_check_orders ≡ t.to_check_orders
    pub outputs : u.output_orders ≡ t.output_orders
    pub sizes : (u.num_fulfillers ≡ t.num_fulfillers) × (u.max_orders_per_tx ≡ t.max_orders_per_tx)
    pub same : u.next ≡ t.next
    pub stores : IsBelow t.next t.pool → IsBelow t.next u.pool
    pub idle : (q : ℕ) → flag (busy (t.heap q)) ≤ flag (busy (u.heap q)) + freed r v q

module _ ⦃S : Sdk⦄ (get : String → Result BlockValidatedResponse) (now : String → ℕ)
    (shuffle : String → List Lp → List Lp) where
  abbrev MovesTo : ℕ → OrderTracker → OrderTracker × Verdict → Type 0
  MovesTo r t (u, v) = Moves r t u v

  evict-Moves : (r : ℕ) (t : OrderTracker) → MovesTo r t (evict_order (t.heap r) t, evicted)
  unfolding evict_order
  evict-Moves r t = record {
    checks = refl;
    outputs = refl;
    sizes = (refl, refl);
    same = refl;
    stores = remove_order-IsBelow t.next (t.heap r).id t.pool;
    idle = λ q. omega arith;
  }

  reconsider-Moves :
      (r : ℕ) (t u : OrderTracker) (v : Verdict)
      → reconsider get now shuffle r t ≡ ok (u, v)
      → Moves r t u v
  unfolding reconsider
  reconsider-Moves r t u v e =
      elim (Result-cases (find_lp_for_order (shuffle (t.heap r).id) (t.heap r) t.lps)) [
        | inl ((o, lps), f) ↦ subst (MovesTo r t) (ok-injective (rw (f, reconsider) at e)) (record {
          checks = refl;
          outputs = refl;
          sizes = (refl, refl);
          same = refl;
          stores = λ s. s;
          idle = λ q. ground arith;
        })
        | inr (inl (m, f)) ↦
            subst (MovesTo r t) (ok-injective (rw (f, reconsider) at e)) (evict-Moves r t)
        | inr (inr f) ↦ absurd (cc (rw (f, reconsider) at e))
      ]

  set_valid-Moves :
      (r : ℕ) (t : OrderTracker)
      → MovesTo r t (record t { heap = set_valid (t.heap r).id t.pool t.heap }, validated)
  unfolding set_valid
  set_valid-Moves r t = record {
    checks = refl;
    outputs = refl;
    sizes = (refl, refl);
    same = refl;
    stores = λ s. s;
    idle = λ q. elim (Option-cases (lookup (t.heap r).id t.pool.orders)) [
      | inl z ↦ rw (set_valid, z) (omega arith)
      | inr (p, z) ↦ ground arith
    ];
  }

  after_answer-Moves :
      (a : Result Bool) (r : ℕ) (t u : OrderTracker) (v : Verdict)
      → after_answer get now shuffle a r t ≡ ok (u, v)
      → Moves r t u v
  unfolding after_answer
  after_answer-Moves panic r t u v e = absurd (cc)
  after_answer-Moves (err m) r t u v e = subst (MovesTo r t) (ok-injective e) (record {
    checks = refl;
    outputs = refl;
    sizes = (refl, refl);
    same = refl;
    stores = λ s. s;
    idle = λ q. omega arith;
  })
  after_answer-Moves (ok true) r t u v e =
      subst (MovesTo r t) (ok-injective e) (set_valid-Moves r t)
  after_answer-Moves (ok false) r t u v e = elim (Bool-cases (is_order_expired now (t.heap r))) [
    | inl x ↦ subst (MovesTo r t) (ok-injective (rw (x, after_answer) at e)) (evict-Moves r t)
    | inr x ↦ reconsider-Moves r t u v (rw (x, after_answer) at e)
  ]

  pub check_order-Moves :
      (r : ℕ) (t u : OrderTracker) (v : Verdict)
      → check_order get now shuffle r t ≡ ok (u, v)
      → Moves r t u v
  unfolding check_order
  check_order-Moves r t u v e =
      let o = t.heap r in
      let x =
        block_validated get o.rollapp_id o.proof_height (expected_level o) t.full_node_client in
      let m = after_answer-Moves x.0 r (record t { full_node_client = x.1 }) u v e in
      record {
        checks = m.checks;
        outputs = m.outputs;
        sizes = m.sizes;
        same = m.same;
        stores = m.stores;
        idle = m.idle;
      }
