-- ===== src/Tracker/Validation/Exclusive.antt =====
-- What the check of a batch does to the batches that wait: what it sends on was in the batch, and it
-- sets no other order idle than those that it takes back.
use eibc_client.Base.{
  ℕ, ◌+◌, ◌≤◌, ◌<◌, ◌≡◌, refl, sym, ap, ◌∙◌, subst, List, [], ◌∷◌, ◌++◌, String, Result, ok, arith,
  Result-cases, Bool-cases, inl, inr, ok-injective, >>=-eq-ok, All, ◌==◌, max, length, ◌/◌,
}
use mathlib.Core.List.{append-nil}
use eibc_client.Base.Chunk.{join, join-chunk}
use eibc_client.Base.Counts.{flag, count, count-join, count-All}
use eibc_client.Lp.{Lp}
use eibc_client.Node.{BlockValidatedResponse}
use eibc_client.Pool.{busy, add_order}
use eibc_client.Pool.Places.{IsBelow, add_order-IsBelow}
use eibc_client.Sdk.{Sdk}
use eibc_client.Tracker.State.{OrderTracker}
use eibc_client.Tracker.State.Exclusive.{waiting, IsExclusive}
use eibc_client.Tracker.Validation.{
  Verdict, validated, retried, evicted, unchecked, check_order, if_validated, if_retried,
  get_valid_and_retry_orders, enqueue_valid_orders, send_valid, batches,
}
use eibc_client.Tracker.Validation.Moves.{check_order-Moves, Moves}

module _ ⦃S : Sdk⦄ (get : String → Result BlockValidatedResponse) (now : String → ℕ)
    (shuffle : String → List Lp → List Lp) where
  -- The waiting batches and the number of stored orders stay, the pool holds stored orders only, and
  -- an order that stands among the valid ones stood in the batch and is busy; `w` is how often it
  -- waits elsewhere.
  pub record Checks (rs : List ℕ) (t u : OrderTracker) (valid retry : List ℕ) : Type 0 where
    pub checks : u.to_check_orders ≡ t.to_check_orders
    pub outputs : u.output_orders ≡ t.output_orders
    pub sizes : (u.num_fulfillers ≡ t.num_fulfillers) × (u.max_orders_per_tx ≡ t.max_orders_per_tx)
    pub same : u.next ≡ t.next
    pub stores : IsBelow t.next t.pool → IsBelow t.next u.pool
    pub busy_still :
        (w q : ℕ)
        → w + count q rs ≤ flag (busy (t.heap q))
        → w + count q valid ≤ flag (busy (u.heap q))
    pub fewer : (q : ℕ) → count q valid ≤ count q rs
    pub back : All (λ r. r < t.next) rs → All (λ r. r < t.next) retry

  Checks-cons :
      (r : ℕ) (rs : List ℕ) (t u x : OrderTracker) (v : Verdict) (valid retry : List ℕ)
      → Moves r t u v
      → Checks rs u x valid retry
      → Checks (r ∷ rs) t x (if_validated r v valid) (if_retried r v retry)
  Checks-cons r rs t u x v valid retry m c = record {
    checks = c.checks ∙ m.checks;
    outputs = c.outputs ∙ m.outputs;
    sizes = (c.sizes.0 ∙ m.sizes.0, c.sizes.1 ∙ m.sizes.1);
    same = c.same ∙ m.same;
    stores = λ s.
        subst (λ n. IsBelow n x.pool) m.same
          (c.stores (subst (λ n. IsBelow n u.pool) (sym m.same) (m.stores s)));
    busy_still = λ w q h. still v m w q h;
    fewer = λ q. less v q;
    back = λ b. takes_back v b.0 (
        subst (λ n. All (λ a. a < n) retry) m.same
          (c.back (subst (λ n. All (λ a. a < n) rs) (sym m.same) b.1)));
  }
    where
      still :
          (v' : Verdict)
          → Moves r t u v'
          → (w q : ℕ) → w + (flag (r == q) + count q rs) ≤ flag (busy (t.heap q))
          → w + count q (if_validated r v' valid) ≤ flag (busy (x.heap q))
      still validated m' w q h =
          omega (arith, c.busy_still (w + flag (r == q)) q (omega (arith, m'.idle q)))
      still retried m' w q h = c.busy_still w q (omega (arith, m'.idle q))
      still evicted m' w q h = c.busy_still w q (omega (arith, m'.idle q))
      still unchecked m' w q h = c.busy_still w q (omega (arith, m'.idle q))

      less : (v' : Verdict) (q : ℕ) → count q (if_validated r v' valid) ≤ flag (r == q) + count q rs
      less validated q = omega (arith, c.fewer q)
      less retried q = omega (arith, c.fewer q)
      less evicted q = omega (arith, c.fewer q)
      less unchecked q = omega (arith, c.fewer q)

      takes_back :
          (v' : Verdict)
          → r < t.next
          → All (λ a. a < t.next) retry
          → All (λ a. a < t.next) (if_retried r v' retry)
      takes_back validated b k = k
      takes_back retried b k = (b, k)
      takes_back evicted b k = k
      takes_back unchecked b k = k

  pub loop-Checks :
      (rs : List ℕ) (t u : OrderTracker) (valid retry : List ℕ)
      → get_valid_and_retry_orders get now shuffle rs t ≡ ok (u, valid, retry)
      → Checks rs t u valid retry
  unfolding get_valid_and_retry_orders
  loop-Checks [] t u valid retry e =
      subst (λ p. Checks [] t p.0 p.1 p.2) (ok-injective e)
        (record {
          checks = refl;
          outputs = refl;
          sizes = (refl, refl);
          same = refl;
          stores = λ s. s;
          busy_still = λ w q h. h;
          fewer = λ q. omega arith;
          back = λ b. b;
        })
  loop-Checks (r ∷ rs) t u valid retry e = elim (Result-cases (check_order get now shuffle r t)) [
    | inr c ↦ absurd (ground arith)
    | inl ((t1, v), c) ↦ elim (Result-cases (get_valid_and_retry_orders get now shuffle rs t1)) [
      | inr d ↦ absurd (ground arith)
      | inl ((t2, vs, ts), d) ↦
          subst (λ p. Checks (r ∷ rs) t p.0 p.1 p.2)
            (ok-injective (rw (c, get_valid_and_retry_orders, d) at e))
            (Checks-cons r rs t t1 t2 v vs ts (check_order-Moves get now shuffle r t t1 v c)
              (loop-Checks rs t1 t2 vs ts d))
    ]
  ]

  count-batches :
      (size fulfillers : ℕ) (valid : List ℕ) (bs : List (List ℕ))
      → batches size fulfillers valid ≡ ok bs
      → join bs ≡ valid
  unfolding batches
  count-batches size fulfillers valid bs e =
      let n = max size (length valid / fulfillers) in
      elim (Bool-cases (fulfillers == 0)) [
        | inl z ↦ absurd (cc (rw (z, batches) at e))
        | inr z ↦ elim (Bool-cases (n == 0)) [
          | inl y ↦ absurd (cc (rw (z, batches, y) at e))
          | inr y ↦ ap join (sym (ok-injective (rw (z, batches, y) at e))) ∙ join-chunk n valid
        ]
      ]

  -- the tracker with the batches that it has sent
  pub send_valid-ok :
      (valid : List ℕ) (t u : OrderTracker)
      → send_valid valid t ≡ ok u
      → (bs : List (List ℕ)) × (join bs ≡ valid)
        × (record t { output_orders = t.output_orders ++ bs } ≡ u)
  unfolding send_valid
  send_valid-ok [] t u e = ([], refl, nothing_sent (append-nil t.output_orders) ∙ ok-injective e)
    where
      nothing_sent :
          {os : List (List ℕ)} → os ≡ t.output_orders → record t { output_orders = os } ≡ t
      nothing_sent p = ap (λ os. record t { output_orders = os }) p
  send_valid-ok (r ∷ rs) t u e =
      let (bs, a, b) = >>=-eq-ok (batches t.max_orders_per_tx t.num_fulfillers (r ∷ rs)) _ e in
      (bs, count-batches t.max_orders_per_tx t.num_fulfillers (r ∷ rs) bs a, ok-injective b)

  -- If no order of the batch waits elsewhere or stands in it twice, and all are busy, then so it is
  -- of what waits afterwards.
  pub enqueue_valid_orders-IsExclusive :
      (batch : List ℕ) (t t' : OrderTracker)
      → ((q : ℕ) → waiting q t + count q batch ≤ flag (busy (t.heap q)))
      → ((q : ℕ) → t.next ≤ q → waiting q t + count q batch ≡ 0)
      → IsBelow t.next t.pool
      → enqueue_valid_orders get now shuffle batch t ≡ ok t'
      → IsExclusive t'
  unfolding enqueue_valid_orders
  enqueue_valid_orders-IsExclusive batch t t' once known stored e =
      let ((u, valid, retry), a, e1) =
        >>=-eq-ok (get_valid_and_retry_orders get now shuffle batch t) _ e in
      let (x, b, e2) = >>=-eq-ok (send_valid valid u) _ e1 in
      let c = loop-Checks batch t u valid retry a in
      let (bs, sends, same) = send_valid-ok valid u x b in
      let total : (q : ℕ)
          → count q (join u.to_check_orders) + count q (join (u.output_orders ++ bs))
            ≡ waiting q t + count q valid =
        λ q. rw (c.checks, c.outputs, count-join q t.output_orders bs, sends) (omega arith) in
      let below = count-All t.next batch (λ q b. omega (arith, known q b)) in
      subst IsExclusive (ok-injective e2) (
        subst (λ y. IsExclusive (record y { pool = add_order y.heap retry y.pool })) same
          (record {
            once = λ q. omega (arith, total q, c.busy_still (waiting q t) q (once q));
            known = λ q b. omega (arith, total q, c.fewer q, known q (subst (λ n. n ≤ q) c.same b));
            stored =
                add_order-IsBelow u.next u.heap retry u.pool
                  (subst (λ n. All (λ r. r < n) retry) (sym c.same) (c.back below))
                  (subst (λ n. IsBelow n u.pool) (sym c.same) (c.stores stored));
          }))
