-- ===== src/System/Exclusive.antt =====
-- In no state that the client reaches does an order wait twice.
use eibc_client.Base.{
  ℕ, ◌+◌, ◌≡◌, List, ◌∷◌, String, Bool, true, false, Option, some, none, arith, refl,
}
use eibc_client.Base.Chunk.{join}
use eibc_client.Base.Counts.{count, count-append}
use eibc_client.Base.Map.{Map}
use eibc_client.Eventer.Exclusive.{enqueue_event_orders-Grows}
use eibc_client.Lp.{Lp, RollappCriteria}
use eibc_client.Poller.{reset_order_polling}
use eibc_client.Poller.Convert.Exclusive.{poll_pending_demand_orders-Grows}
use eibc_client.Sdk.{Sdk, Coins}
use eibc_client.System.{
  OrderClient, tracker_of, after_load, Step, polled, notified, popped, checked, fulfilled, reported,
  loaded, refreshed, Run, stay, step,
}
use eibc_client.Tracker.Grants.{Grant, GrantedCriteria, load_lps}
use eibc_client.Tracker.State.{OrderTracker, process_results}
use eibc_client.Tracker.State.Exclusive.{
  Grows, Grows-refl, IsExclusive, Grows-IsExclusive, process_results-Grows,
  check_orders-IsExclusive,
}
use eibc_client.Tracker.Validation.Exclusive.{enqueue_valid_orders-IsExclusive}

pub front_count :
    (q : ℕ) (batch : List ℕ) (later : List (List ℕ)) {bs : List (List ℕ)}
    → bs ≡ batch ∷ later
    → count q (join bs) ≡ count q batch + count q (join later)
front_count q batch later e = rw e (count-append q batch (join later))

module _ ⦃S : Sdk⦄ where
  pub load_lps-Grows :
      (unmarshal : Option String → Option (List GrantedCriteria))
      (get_balances : String → Option Coins) (rollapps_hash : Map RollappCriteria → String)
      (grants : Option (List Grant)) (t : OrderTracker)
      → Grows t (load_lps unmarshal get_balances rollapps_hash grants t).0
  unfolding load_lps
  load_lps-Grows unmarshal get_balances rollapps_hash none t = Grows-refl t
  load_lps-Grows unmarshal get_balances rollapps_hash (some gs) t = record {
    checks = refl;
    outputs = refl;
    sizes = (refl, refl);
    more = omega arith;
    same = λ q b. refl;
    stores = λ s. s;
  }

  pub tracker_of-after_load :
      (c : OrderClient) (t : OrderTracker) (reset : Bool) (failure : Option String)
      → tracker_of (after_load c (t, reset, failure)) ≡ t
  unfolding reset_order_polling
  tracker_of-after_load c t true failure = refl
  tracker_of-after_load c t false failure = refl

module _ ⦃S : Sdk⦄ (shuffle : ℕ → String → List Lp → List Lp) where
  Step-IsExclusive :
      (c d : OrderClient)
      → Step shuffle c d
      → IsExclusive (tracker_of c)
      → IsExclusive (tracker_of d)
  Step-IsExclusive c _ (polled draw now orders _ p e) x =
      Grows-IsExclusive (tracker_of c) p.order_tracker
        (poll_pending_demand_orders-Grows now (shuffle draw) orders c.poller p e) x
  Step-IsExclusive c _ (notified draw now name events _ t e) x =
      Grows-IsExclusive (tracker_of c) t
        (enqueue_event_orders-Grows now (shuffle draw) events name (tracker_of c) t e) x
  Step-IsExclusive c _ (popped keys _) x = check_orders-IsExclusive keys (tracker_of c) x
  Step-IsExclusive c _ (checked get draw now batch later _ t front e) x =
      enqueue_valid_orders-IsExclusive get now (shuffle draw) batch
        (record (tracker_of c) { to_check_orders = later }) t
        (λ q. omega (arith, x.once q, front_count q batch later front))
        (λ q b. omega (arith, x.known q b, front_count q batch later front)) x.stored e
  Step-IsExclusive c _ (fulfilled fulfill size r batch later _ p front e) x = record {
    once = λ q. omega (arith, x.once q, front_count q (r ∷ batch) later front);
    known = λ q b. omega (arith, x.known q b, front_count q (r ∷ batch) later front);
    stored = x.stored;
  }
  Step-IsExclusive c _ (reported results later _ _) x =
      Grows-IsExclusive (tracker_of c) (process_results results (tracker_of c))
        (process_results-Grows results (tracker_of c)) x
  Step-IsExclusive c _ (refreshed get_balances _) x = record {
    once = x.once;
    known = x.known;
    stored = x.stored;
  }
  Step-IsExclusive c _ (loaded unmarshal get_balances rollapps_hash grants _) x =
      let y = load_lps unmarshal get_balances rollapps_hash grants (tracker_of c) in
      rw (tracker_of-after_load c y.0 y.1 y.2) (
        Grows-IsExclusive (tracker_of c) y.0
          (load_lps-Grows unmarshal get_balances rollapps_hash grants (tracker_of c)) x)

  -- In every state that the client reaches, in whatever order its goroutines take their steps, each
  -- order stands at most once in the batches that wait to be checked or to be fulfilled, and one that
  -- stands there is marked as being checked or as valid; nothing waits or is in the pool that was
  -- never stored. This holds if it held at the start, where nothing waits.
  pub Run-IsExclusive :
      (c d : OrderClient)
      → Run shuffle c d
      → IsExclusive (tracker_of c)
      → IsExclusive (tracker_of d)
  Run-IsExclusive c _ (stay _) x = x
  Run-IsExclusive c _ (step _ d e r s) x = Step-IsExclusive d e s (Run-IsExclusive c d r x)
