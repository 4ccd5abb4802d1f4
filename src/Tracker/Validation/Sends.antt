-- ===== src/Tracker/Validation/Sends.antt =====
-- Which orders a check of a batch sends to the fulfillers.
use eibc_client.Base.{
  ℕ, ◌+◌, ◌≤◌, ◌<◌, ◌≡◌, ◌⊎◌, refl, sym, ap, ◌∙◌, subst, true, List, [], ◌∷◌, ◌++◌, String, Result,
  ok, arith, Result-cases, Bool-cases, inl, inr, ok-injective, >>=-eq-ok, ◌==◌,
}
use eibc_client.Base.Chunk.{join}
use eibc_client.Base.Counts.{count, count-join}
use eibc_client.Lp.{Lp}
use eibc_client.Node.{BlockValidatedResponse}
use eibc_client.Sdk.{Sdk}
use eibc_client.Tracker.State.{OrderTracker}
use eibc_client.Tracker.Validation.{
  Verdict, validated, retried, evicted, unchecked, check_order, if_validated,
  get_valid_and_retry_orders, enqueue_valid_orders, send_valid,
}
use eibc_client.Tracker.Validation.Exclusive.{loop-Checks, send_valid-ok}
use eibc_client.Tracker.Validation.Verdicts.{answer, check_order-Explains}

module _ ⦃S : Sdk⦄ (get : String → Result BlockValidatedResponse) (now : String → ℕ)
    (shuffle : String → List Lp → List Lp) where
  -- While the batch is checked, it is the turn of `q`, and the full nodes confirm the block of the
  -- order at the level that its LP asks for.
  abbrev pub IsConfirmed : ℕ → List ℕ → OrderTracker → Type 0
  IsConfirmed q [] t = ⊥
  IsConfirmed q (r ∷ rs) t =
      ((r ≡ q) × ((answer get now shuffle r t).0 ≡ ok true))
      ⊎ ((u : OrderTracker) × (v : Verdict) × (check_order get now shuffle r t ≡ ok (u, v))
          × IsConfirmed q rs u)

  loop-IsConfirmed :
      (rs : List ℕ) (t u : OrderTracker) (valid retry : List ℕ) (q : ℕ)
      → get_valid_and_retry_orders get now shuffle rs t ≡ ok (u, valid, retry)
      → 0 < count q valid
      → IsConfirmed q rs t
  unfolding get_valid_and_retry_orders
  loop-IsConfirmed [] t u valid retry q e h =
      let none : [] ≡ valid = ap (λ p. p.1) (ok-injective e) in
      absurd (omega (arith, subst (λ v. 0 < count q v) (sym none) h))
  loop-IsConfirmed (r ∷ rs) t u valid retry q e h =
      elim (Result-cases (check_order get now shuffle r t)) [
        | inr c ↦ absurd (ground arith)
        | inl ((t1, v), c) ↦
            elim (Result-cases (get_valid_and_retry_orders get now shuffle rs t1)) [
              | inr d ↦ absurd (ground arith)
              | inl ((t2, vs, ts), d) ↦
                  let same : if_validated r v vs ≡ valid =
                    ap (λ p. p.1) (ok-injective (rw (c, get_valid_and_retry_orders, d) at e)) in
                  by_verdict vs v t1 c (λ k. loop-IsConfirmed rs t1 t2 vs ts q d k)
                    (subst (λ xs. 0 < count q xs) (sym same) h)
            ]
      ]
    where
      by_verdict :
          (vs : List ℕ) (v : Verdict) (t1 : OrderTracker)
          → check_order get now shuffle r t ≡ ok (t1, v)
          → (0 < count q vs → IsConfirmed q rs t1)
          → 0 < count q (if_validated r v vs)
          → IsConfirmed q (r ∷ rs) t
      by_verdict vs validated t1 c later k = elim (Bool-cases (r == q)) [
        | inl z ↦ inl (ground arith, (check_order-Explains get now shuffle r t t1 validated c).0)
        | inr z ↦ inr (t1, validated, c, later (ground arith))
      ]
      by_verdict vs retried t1 c later k = inr (t1, retried, c, later k)
      by_verdict vs evicted t1 c later k = inr (t1, evicted, c, later k)
      by_verdict vs unchecked t1 c later k = inr (t1, unchecked, c, later k)

  -- What is sent is in the batch, as often at most, and is confirmed; nothing else waits that did
  -- not wait before.
  pub record Sends (batch : List ℕ) (t t' : OrderTracker) : Type 0 where
    pub sent : List ℕ
    pub checks : t'.to_check_orders ≡ t.to_check_orders
    pub sizes :
        (t'.num_fulfillers ≡ t.num_fulfillers) × (t'.max_orders_per_tx ≡ t.max_orders_per_tx)
    pub outputs :
        (q : ℕ) → count q (join t'.output_orders) ≡ count q (join t.output_orders) + count q sent
    pub fewer : (q : ℕ) → count q sent ≤ count q batch
    pub sound : (q : ℕ) → 0 < count q sent → IsConfirmed q batch t

  pub enqueue_valid_orders-Sends :
      (batch : List ℕ) (t t' : OrderTracker)
      → enqueue_valid_orders get now shuffle batch t ≡ ok t'
      → Sends batch t t'
  unfolding enqueue_valid_orders
  enqueue_valid_orders-Sends batch t t' e =
      let ((u, valid, retry), a, e1) =
        >>=-eq-ok (get_valid_and_retry_orders get now shuffle batch t) _ e in
      let (x, b, e2) = >>=-eq-ok (send_valid valid u) _ e1 in
      let c = loop-Checks get now shuffle batch t u valid retry a in
      let (bs, sends, same) = send_valid-ok get now shuffle valid u x b in
      let outputs : u.output_orders ++ bs ≡ t'.output_orders =
        ap (λ z. z.output_orders) same ∙ ap (λ z. z.output_orders) (ok-injective e2) in
      let checks : u.to_check_orders ≡ t'.to_check_orders =
        ap (λ z. z.to_check_orders) same ∙ ap (λ z. z.to_check_orders) (ok-injective e2) in
      let fulfillers : u.num_fulfillers ≡ t'.num_fulfillers =
        ap (λ z. z.num_fulfillers) same ∙ ap (λ z. z.num_fulfillers) (ok-injective e2) in
      let max_orders : u.max_orders_per_tx ≡ t'.max_orders_per_tx =
        ap (λ z. z.max_orders_per_tx) same ∙ ap (λ z. z.max_orders_per_tx) (ok-injective e2) in
      record {
        sent = valid;
        checks = sym checks ∙ c.checks;
        sizes = (sym fulfillers ∙ c.sizes.0, sym max_orders ∙ c.sizes.1);
        outputs = λ q. rw (sym outputs, c.outputs, count-join q t.output_orders bs, sends) refl;
        fewer = c.fewer;
        sound = λ q k. loop-IsConfirmed batch t u valid retry q a k;
      }
