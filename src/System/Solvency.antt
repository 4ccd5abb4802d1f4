-- ===== src/System/Solvency.antt =====
-- The books of the LPs in every state that the client reaches.
use eibc_client.Base.{arith, ℕ, ◌≡◌, refl, Bool, true, false, List, [], ◌∷◌, String, map, Option}
use eibc_client.Eventer.Books.{enqueue_event_orders-AreSolvent}
use eibc_client.Fulfiller.Batch.{process_batch-AreSolvent}
use eibc_client.Lp.{Lp}
use eibc_client.Poller.{reset_order_polling}
use eibc_client.Poller.Convert.Books.{poll_pending_demand_orders-AreSolvent}
use eibc_client.Sdk.{Sdk}
use eibc_client.Sdk.Laws.{CoinLaws, DecLaws}
use eibc_client.System.{
  OrderClient, tracker_of, after_load, Step, polled, notified, popped, checked, fulfilled, reported,
  loaded, refreshed, Run, stay, step,
}
use eibc_client.Tracker.Grants.{load_lps, refresh_balances}
use eibc_client.Tracker.Grants.Books.{load_lps-AreSolvent}
use eibc_client.Tracker.Selection.Choice.{IsShuffle}
use eibc_client.Tracker.Selection.Solvency.{AreSolvent}
use eibc_client.Tracker.State.{OrderTracker, check_orders, process_results}
use eibc_client.Tracker.Validation.Solvency.{enqueue_valid_orders-AreSolvent}
use eibc_client.Types.{OrderFulfillResult}

module _ ⦃S : Sdk⦄ (L : CoinLaws) (D : DecLaws) where
  abbrev pub IsSolventClient : OrderClient → Type 0
  IsSolventClient c = AreSolvent L (tracker_of c).lps

  module _ (shuffle : ℕ → String → List Lp → List Lp) where
    -- The step is no refresh of balances that leaves an LP with less than it has reserved.
    abbrev pub StepKeeps : (c d : OrderClient) → Step shuffle c d → Type 0
    StepKeeps c _ (refreshed get_balances _) =
        AreSolvent L (refresh_balances get_balances (tracker_of c).lps)
    StepKeeps c _ _ = Unit {0}

    -- No refresh of the run leaves an LP with less than it has reserved.
    abbrev pub RefreshesKeep : (c d : OrderClient) → Run shuffle c d → Type 0
    RefreshesKeep c _ (stay _) = Unit {0}
    RefreshesKeep c _ (step _ d e r s) = RefreshesKeep c d r × StepKeeps d e s

  check_orders-lps : (keys : List String) (t : OrderTracker) → (check_orders keys t).lps ≡ t.lps
  unfolding check_orders
  check_orders-lps keys t = ground arith

  process_results-lps :
      (rs : List OrderFulfillResult) (t : OrderTracker) → (process_results rs t).lps ≡ t.lps
  unfolding process_results
  process_results-lps [] t = refl
  process_results-lps (r ∷ rs) t = process_results-lps rs _

  after_load-AreSolvent :
      (c : OrderClient) (t : OrderTracker) (reset : Bool) (failure : Option String)
      → AreSolvent L t.lps
      → IsSolventClient (after_load c (t, reset, failure))
  unfolding reset_order_polling
  after_load-AreSolvent c t true failure h = h
  after_load-AreSolvent c t false failure h = h

  module _ (shuffle : ℕ → String → List Lp → List Lp)
      (mixes : (draw : ℕ) (id : String) → IsShuffle (shuffle draw id)) where
    Step-AreSolvent :
        (c d : OrderClient) (s : Step shuffle c d)
        → StepKeeps shuffle c d s
        → IsSolventClient c
        → IsSolventClient d
    Step-AreSolvent c _ (refreshed get_balances _) k h = k
    Step-AreSolvent c _ (polled draw now orders _ p e) k h =
        poll_pending_demand_orders-AreSolvent L D now (shuffle draw) (mixes draw) orders c.poller p
          h e
    Step-AreSolvent c _ (notified draw now name events _ t e) k h =
        enqueue_event_orders-AreSolvent L D now (shuffle draw) (mixes draw) name events
          (tracker_of c) t h e
    Step-AreSolvent c _ (popped keys _) k h = rw (check_orders-lps keys (tracker_of c)) h
    Step-AreSolvent c _ (checked get draw now batch later _ t _ e) k h =
        enqueue_valid_orders-AreSolvent L D get now (shuffle draw) (mixes draw) batch
          (record (tracker_of c) { to_check_orders = later }) t h e
    Step-AreSolvent c _ (fulfilled fulfill size r batch later _ p _ e) k h =
        process_batch-AreSolvent fulfill L size ((tracker_of c).heap r)
          (map (tracker_of c).heap batch) (tracker_of c).lps p h e
    Step-AreSolvent c _ (reported results later _ _) k h =
        rw (process_results-lps results (tracker_of c)) h
    Step-AreSolvent c _ (loaded unmarshal get_balances rollapps_hash grants _) k h =
        let x = load_lps unmarshal get_balances rollapps_hash grants (tracker_of c) in
        after_load-AreSolvent c x.0 x.1 x.2
          (load_lps-AreSolvent L unmarshal get_balances rollapps_hash grants (tracker_of c) h)

    -- In every state that the client reaches, in whatever order its goroutines take their steps
    -- and whatever the hub, the full nodes and the chain answer, every LP has at least what it has
    -- reserved, if it had at the start and no refresh of the balances left it with less.
    pub Run-AreSolvent :
        (c d : OrderClient) (r : Run shuffle c d)
        → RefreshesKeep shuffle c d r
        → IsSolventClient c
        → IsSolventClient d
    Run-AreSolvent c _ (stay _) k h = h
    Run-AreSolvent c _ (step _ d e r s) k h = Step-AreSolvent d e s k.1 (Run-AreSolvent c d r k.0 h)
