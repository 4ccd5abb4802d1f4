-- ===== src/Tracker/Validation/Solvency.antt =====
-- The books of the LPs while orders are checked.
use eibc_client.Base.{
  ℕ, ◌≡◌, ◌∙◌, List, [], ◌∷◌, String, Result, ok, arith, Result-cases, inl, inr, sym, subst,
  ok-injective, ap, >>=-eq-ok,
}
use eibc_client.Lp.{Lp}
use eibc_client.Node.{BlockValidatedResponse}
use eibc_client.Sdk.{Sdk}
use eibc_client.Sdk.Laws.{CoinLaws, DecLaws}
use eibc_client.Tracker.State.{OrderTracker}
use eibc_client.Tracker.Selection.Choice.{IsShuffle}
use eibc_client.Tracker.Selection.Solvency.{
  AreSolvent, find_lp_for_order-AreSolvent, release_all-AreSolvent,
}
use eibc_client.Tracker.Validation.{
  Verdict, validated, retried, evicted, unchecked, check_order, get_valid_and_retry_orders,
  enqueue_valid_orders, send_valid, batches,
}
use eibc_client.Tracker.Validation.Verdicts.{check_order-Explains}

module _ ⦃S : Sdk⦄ (L : CoinLaws) (D : DecLaws) (get : String → Result BlockValidatedResponse)
    (now : String → ℕ) (shuffle : String → List Lp → List Lp)
    (mixes : (id : String) → IsShuffle (shuffle id)) where
  pub check_order-AreSolvent :
      (r : ℕ) (t t' : OrderTracker) (v : Verdict)
      → AreSolvent L t.lps
      → check_order get now shuffle r t ≡ ok (t', v)
      → AreSolvent L t'.lps
  check_order-AreSolvent r t t' validated h e =
      rw ((check_order-Explains get now shuffle r t t' validated e).3) h
  check_order-AreSolvent r t t' retried h e =
      let (_, _, (o, f, _), _) = check_order-Explains get now shuffle r t t' retried e in
      (find_lp_for_order-AreSolvent L (shuffle (t.heap r).id) (mixes (t.heap r).id) D (t.heap r)
          t.lps h).1
        o t'.lps f
  check_order-AreSolvent r t t' evicted h e =
      rw ((check_order-Explains get now shuffle r t t' evicted e).3)
        (release_all-AreSolvent L (t.heap r ∷ []) t.lps h)
  check_order-AreSolvent r t t' unchecked h e =
      rw ((check_order-Explains get now shuffle r t t' unchecked e).3) h

  pub loop-AreSolvent :
      (rs : List ℕ) (t t' : OrderTracker) (valid retry : List ℕ)
      → AreSolvent L t.lps
      → get_valid_and_retry_orders get now shuffle rs t ≡ ok (t', valid, retry)
      → AreSolvent L t'.lps
  unfolding get_valid_and_retry_orders
  loop-AreSolvent [] t t' valid retry h e =
      subst (λ u. AreSolvent L u.lps) (ap (λ p. p.0) (ok-injective e)) h
  loop-AreSolvent (r ∷ rs) t t' valid retry h e =
      elim (Result-cases (check_order get now shuffle r t)) [
        | inr c ↦ absurd (ground arith)
        | inl ((u, v), c) ↦ elim (Result-cases (get_valid_and_retry_orders get now shuffle rs u)) [
          | inr d ↦ absurd (ground arith)
          | inl ((w, vs, ts), d) ↦
              let same : w ≡ t' = ground arith in
              subst (λ x. AreSolvent L x.lps) same
                (loop-AreSolvent rs u w vs ts (check_order-AreSolvent r t u v h c) d)
        ]
      ]

  send_valid-lps :
      (valid : List ℕ) (t t' : OrderTracker) → send_valid valid t ≡ ok t' → t'.lps ≡ t.lps
  unfolding send_valid
  send_valid-lps [] t t' e = ap (λ x. x.lps) (sym (ok-injective e))
  send_valid-lps (r ∷ rs) t t' e =
      let (bs, a, f) = >>=-eq-ok (batches t.max_orders_per_tx t.num_fulfillers (r ∷ rs)) _ e in
      ap (λ x. x.lps) (sym (ok-injective f))

  -- If every LP has at least what it has reserved, then so it is after a round of validation that
  -- returns, whatever the full nodes answer and however long it takes.
  pub enqueue_valid_orders-AreSolvent :
      (rs : List ℕ) (t t' : OrderTracker)
      → AreSolvent L t.lps
      → enqueue_valid_orders get now shuffle rs t ≡ ok t'
      → AreSolvent L t'.lps
  unfolding enqueue_valid_orders
  enqueue_valid_orders-AreSolvent rs t t' h e =
      let ((u, valid, retry), a, f) =
        >>=-eq-ok (get_valid_and_retry_orders get now shuffle rs t) _ e in
      let (w, b, g) = >>=-eq-ok (send_valid valid u) _ f in
      let same : w.lps ≡ t'.lps = ap (λ x. x.lps) (ok-injective g) in
      subst (AreSolvent L) (sym (send_valid-lps valid u w b) ∙ same)
        (loop-AreSolvent rs t u valid retry h a)
