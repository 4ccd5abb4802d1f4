-- ===== src/Fulfiller/Batch.antt =====
-- What `processBatch` makes of the results of its transactions.
use mathlib.Core.Option.{some-injective}
use eibc_client.Base.{
  ℕ, ◌≡◌, ◌≢◌, refl, sym, subst, ap, ◌∙◌, false, List, [], ◌∷◌, ◌++◌, some, String, if◌then◌else◌,
  ◌==◌, Result, ok, err, >>=-eq-ok, ok-injective, All, Result-cases, Bool-cases, inl, inr, arith,
  ◌⊎◌, ◌↔◌,
}
use eibc_client.Base.Chunk.{chunk, join}
use eibc_client.Base.Map.{Map}
use eibc_client.Fulfiller.{
  Processed, succeeded, failed, is_gas_error, is_rpc_error, process_chunks, process_batch,
}
use eibc_client.Lp.{Lp}
use eibc_client.Sdk.{Sdk}
use eibc_client.Sdk.Laws.{CoinLaws}
use eibc_client.Tracker.Selection.{release_all, debit_all}
use eibc_client.Tracker.Selection.Solvency.{
  AreSolvent, release_all-AreSolvent, debit_all-AreSolvent,
}
use eibc_client.Types.{DemandOrder, OrderFulfillResult}

module _ ⦃S : Sdk⦄ (fulfill : List DemandOrder → Result (Unit {0})) where
  -- How the batches after the successful ones end: there are none, or the first of them failed.
  abbrev pub Ends : List (List DemandOrder) → Map Lp → List OrderFulfillResult → Map Lp → Type 0
  Ends [] lps fails lps' = (fails ≡ []) × (lps' ≡ lps)
  Ends (batch ∷ later) lps fails lps' =
      (e : String) × (fulfill batch ≡ err e)
      × (is_gas_error e ≡ false)
      × (fails ≡ (if is_rpc_error e then [] else failed batch))
      × (lps' ≡ release_all batch lps)

  -- What the results say: the batches before some point were fulfilled, in order, and each of their
  -- orders is reported as done and debited; then the rest ends.
  pub record Accounts (batches : List (List DemandOrder)) (lps : Map Lp) (p : Processed)
      : Type 0 where
    pub done : List (List DemandOrder)
    pub rest : List (List DemandOrder)
    pub split : done ++ rest ≡ batches
    pub fulfilled : All (λ batch. fulfill batch ≡ ok tt) done
    pub reported : p.success_results ≡ succeeded (join done)
    pub ended : Ends rest (debit_all (join done) lps) p.fail_results p.lps

  succeeded-append :
      (os more : List DemandOrder) → succeeded (os ++ more) ≡ succeeded os ++ succeeded more
  succeeded-append [] more = refl
  succeeded-append (o ∷ os) more =
      λ i. record { order_id = o.id; failed_order_hash = "" } ∷ succeeded-append os more i

  debit_all-append :
      (os more : List DemandOrder) (lps : Map Lp)
      → debit_all (os ++ more) lps ≡ debit_all more (debit_all os lps)
  unfolding debit_all
  debit_all-append [] more lps = refl
  debit_all-append (o ∷ os) more lps = debit_all-append os more _

  process_chunks-Accounts :
      (batches : List (List DemandOrder)) (lps : Map Lp) (p : Processed)
      → process_chunks fulfill batches lps ≡ ok p
      → Accounts batches lps p
  unfolding process_chunks debit_all
  process_chunks-Accounts [] lps p e = record {
    done = [];
    rest = [];
    split = refl;
    fulfilled = tt;
    reported = ap (λ q. q.success_results) (sym (ok-injective e));
    ended =
        (ap (λ q. q.fail_results) (sym (ok-injective e)), ap (λ q. q.lps) (sym (ok-injective e)));
  }
  process_chunks-Accounts (batch ∷ batches) lps p e = elim (Result-cases (fulfill batch)) [
    | inl (u, f) ↦
        let (q, a, b) =
          >>=-eq-ok (process_chunks fulfill batches (debit_all batch lps)) _
            (rw (f, process_chunks) at e) in
        let x = process_chunks-Accounts batches (debit_all batch lps) q a in
        subst (Accounts (batch ∷ batches) lps) (ok-injective b) (record {
          done = batch ∷ x.done;
          rest = x.rest;
          split = ap (λ bs. batch ∷ bs) x.split;
          fulfilled = (f, x.fulfilled);
          reported =
              ap (λ rs. succeeded batch ++ rs) x.reported
              ∙ sym (succeeded-append batch (join x.done));
          ended = rw (debit_all-append batch (join x.done) lps) x.ended;
        })
    | inr (inl (m, f)) ↦ elim (Bool-cases (is_gas_error m)) [
      | inl g ↦ absurd (cc (rw (f, process_chunks, g) at e))
      | inr g ↦
          subst (Accounts (batch ∷ batches) lps) (ok-injective (rw (f, process_chunks, g) at e))
            (record {
              done = [];
              rest = batch ∷ batches;
              split = refl;
              fulfilled = tt;
              reported = refl;
              ended = (m, f, g, refl, refl);
            })
    ]
    | inr (inr f) ↦ absurd (ground arith)
  ]

  -- A run of `processBatch` that returns accounts for its transactions: those before some point
  -- succeeded, their orders are reported as done and debited; then either none is left, or one
  -- failed with an error that is no gas error, its reservations are released and its orders are
  -- reported as failed with their hashes, unless it was an RPC error; what comes after is dropped.
  pub process_batch-Accounts :
      (size : ℕ) (o : DemandOrder) (os : List DemandOrder) (lps : Map Lp) (p : Processed)
      → process_batch fulfill size (o ∷ os) lps ≡ ok (some p)
      → Accounts (chunk size (o ∷ os)) lps p
  unfolding process_batch
  process_batch-Accounts size o os lps p e = elim (Bool-cases (size == 0)) [
    | inl z ↦ absurd (cc (rw (z, process_batch) at e))
    | inr z ↦
        let (q, a, b) =
          >>=-eq-ok (process_chunks fulfill (chunk size (o ∷ os)) lps) _
            (rw (z, process_batch) at e) in
        subst (Accounts (chunk size (o ∷ os)) lps) (some-injective q p (ok-injective b))
          (process_chunks-Accounts (chunk size (o ∷ os)) lps q a)
  ]

  Ends-AreSolvent :
      (L : CoinLaws) (rest : List (List DemandOrder)) (lps lps' : Map Lp)
      (fails : List OrderFulfillResult)
      → AreSolvent L lps
      → Ends rest lps fails lps'
      → AreSolvent L lps'
  Ends-AreSolvent L [] lps lps' fails h e = subst (AreSolvent L) (sym (e.1)) h
  Ends-AreSolvent L (batch ∷ later) lps lps' fails h (_, _, _, _, e) =
      subst (AreSolvent L) (sym e) (release_all-AreSolvent L batch lps h)

  -- If every LP has at least what it has reserved, then so it is after a batch whose results are
  -- sent, whatever the chain answers.
  pub process_batch-AreSolvent :
      (L : CoinLaws) (size : ℕ) (o : DemandOrder) (os : List DemandOrder) (lps : Map Lp)
      (p : Processed)
      → AreSolvent L lps
      → process_batch fulfill size (o ∷ os) lps ≡ ok (some p)
      → AreSolvent L p.lps
  process_batch-AreSolvent L size o os lps p h e =
      let x = process_batch-Accounts size o os lps p e in
      Ends-AreSolvent L x.rest (debit_all (join x.done) lps) p.lps p.fail_results
        (debit_all-AreSolvent L (join x.done) lps h) x.ended

  -- The program goes on after the chunks: each of them is fulfilled, up to the first one that fails,
  -- if there is one, and that one fails with an error that is no gas error.
  abbrev pub GoesOn : List (List DemandOrder) → Type 0
  GoesOn [] = Unit {0}
  GoesOn (b ∷ bs) =
      ((fulfill b ≡ ok tt) × GoesOn bs)
      ⊎ ((m : String) × (fulfill b ≡ err m) × (is_gas_error m ≡ false))

  process_chunks_returns :
      (batches : List (List DemandOrder)) (lps : Map Lp)
      → GoesOn batches
      → (p : Processed) × (process_chunks fulfill batches lps ≡ ok p)
  unfolding process_chunks
  process_chunks_returns [] lps h = (_, refl)
  process_chunks_returns (batch ∷ batches) lps (inl (f, h)) =
      let (p, e) = process_chunks_returns batches (debit_all batch lps) h in
      (
        record p { success_results = succeeded batch ++ p.success_results },
        rw (f, process_chunks, e) refl,
      )
  process_chunks_returns (batch ∷ batches) lps (inr (m, f, g)) = (
    record {
      success_results = [];
      fail_results = if is_rpc_error m then [] else failed batch;
      lps = release_all batch lps;
    },
    rw (f, process_chunks, g) refl,
  )

  process_chunks-GoesOn :
      (batches : List (List DemandOrder)) (lps : Map Lp) (p : Processed)
      → process_chunks fulfill batches lps ≡ ok p
      → GoesOn batches
  unfolding process_chunks
  process_chunks-GoesOn [] lps p e = tt
  process_chunks-GoesOn (batch ∷ batches) lps p e = elim (Result-cases (fulfill batch)) [
    | inl (tt, f) ↦
        let (q, a, _) =
          >>=-eq-ok (process_chunks fulfill batches (debit_all batch lps)) _
            (rw (f, process_chunks) at e) in
        inl (f, process_chunks-GoesOn batches (debit_all batch lps) q a)
    | inr (inl (m, f)) ↦ elim (Bool-cases (is_gas_error m)) [
      | inl g ↦ absurd (cc (rw (f, process_chunks, g) at e))
      | inr g ↦ inr (m, f, g)
    ]
    | inr (inr f) ↦ absurd (cc (rw (f, process_chunks) at e))
  ]

  -- `processBatch` returns its two messages of results for a batch exactly if the limit of orders for
  -- a transaction is not 0, and each chunk is fulfilled up to the first one that fails, and that
  -- one neither panics nor has a gas error.
  pub process_batch_returns_iff :
      (size : ℕ) (o : DemandOrder) (os : List DemandOrder) (lps : Map Lp)
      → ((p : Processed) × (process_batch fulfill size (o ∷ os) lps ≡ ok (some p)))
        ↔ ((size ≢ 0) × GoesOn (chunk size (o ∷ os)))
  unfolding process_batch
  process_batch_returns_iff size o os lps = (
    λ (p, e). elim (Bool-cases (size == 0)) [
      | inl z ↦ absurd (cc (rw (z, process_batch) at e))
      | inr z ↦
          let (q, a, _) =
            >>=-eq-ok (process_chunks fulfill (chunk size (o ∷ os)) lps) _
              (rw (z, process_batch) at e) in
          (ground arith, process_chunks-GoesOn (chunk size (o ∷ os)) lps q a)
    ],
    λ (z, h).
        let (p, e) = process_chunks_returns (chunk size (o ∷ os)) lps h in
        let positive : (size == 0) ≡ false = ground arith in
        (p, rw (positive, process_batch, e) refl),
  )
