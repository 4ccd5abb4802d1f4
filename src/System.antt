-- ===== src/System.antt =====
-- eibc/order_client.go, `Start`: the goroutines of the client and the channels between them, as the
-- steps that they take on the shared state. A channel is a list of messages, oldest first.
pub mod Solvency
pub mod Exclusive
pub mod Protocol
pub mod Confirmed
pub mod Returns
pub mod Started
use eibc_client.Base.{
  ℕ, ◌≡◌, Bool, true, false, List, [], ◌∷◌, ◌++◌, Option, none, some, String, map, Result, ok,
  if◌then◌else◌,
}
use eibc_client.Base.Map.{Map}
use eibc_client.Eventer.{Events, enqueue_event_orders}
use eibc_client.Fulfiller.{Processed, process_batch}
use eibc_client.Lp.{Lp, RollappCriteria}
use eibc_client.Node.{BlockValidatedResponse}
use eibc_client.Poller.{Order, OrderPoller, reset_order_polling}
use eibc_client.Poller.Convert.{poll_pending_demand_orders}
use eibc_client.Sdk.{Sdk, Coins}
use eibc_client.Tracker.Grants.{Grant, GrantedCriteria, load_lps, refresh_balances}
use eibc_client.Tracker.State.{OrderTracker, check_orders, process_results}
use eibc_client.Tracker.Validation.{enqueue_valid_orders}
use eibc_client.Types.{DemandOrder, OrderFulfillResult}

module _ ⦃S : Sdk⦄ where
  -- the poller with the tracker, and `processedOrdersCh`
  pub record OrderClient : Type 0 where
    pub poller : OrderPoller
    pub processed_orders : List (List OrderFulfillResult)

  -- the client at its start, with the poller that `NewOrderClient` made
  abbrev pub initial : OrderPoller → OrderClient
  initial p = record { poller = p; processed_orders = [] }

  abbrev pub tracker_of : OrderClient → OrderTracker
  tracker_of c = c.poller.order_tracker

  abbrev pub with_tracker : OrderClient → OrderTracker → OrderClient
  with_tracker c t = record c { poller = record c.poller { order_tracker = t } }

  -- the client after a fulfiller took the batch at the front, which leaves the later ones
  abbrev pub after_batch : OrderClient → List (List ℕ) → Processed → OrderClient
  after_batch c later p =
      record (with_tracker c (record (tracker_of c) { output_orders = later; lps = p.lps })) {
        processed_orders = c.processed_orders ++ p.success_results ∷ p.fail_results ∷ [];
      }

  -- the client after the LPs were loaded, with a reset of the poller if it is called for
  abbrev pub after_load : OrderClient → OrderTracker × Bool × Option String → OrderClient
  after_load c (t, reset, _) = record c {
    poller =
        (let p = record c.poller { order_tracker = t } in
          if reset then reset_order_polling p else p);
  }

module _ ⦃S : Sdk⦄ (shuffle : ℕ → String → List Lp → List Lp) where
  -- One step of one of the goroutines. What the outside gives is the step's own: the orders of the
  -- hub, the events, the answers of the full nodes and of the chain, the clock, and which of the
  -- shuffles is drawn.
  pub data Step : OrderClient → OrderClient → Type 0 where
    polled :
        (draw : ℕ) (now : String → ℕ) (orders : Result (List Order)) (c : OrderClient)
        (p : OrderPoller)
        → poll_pending_demand_orders now (shuffle draw) orders c.poller ≡ ok p
        → Step c (record c { poller = p })
    notified :
        (draw : ℕ) (now : String → ℕ) (name : String) (events : Events) (c : OrderClient)
        (t : OrderTracker)
        → enqueue_event_orders now (shuffle draw) name events (tracker_of c) ≡ ok t
        → Step c (with_tracker c t)
    popped :
        (keys : List String) (c : OrderClient)
        → Step c (with_tracker c (check_orders keys (tracker_of c)))
    checked :
        (get : String → Result BlockValidatedResponse) (draw : ℕ) (now : String → ℕ)
        (batch : List ℕ) (later : List (List ℕ)) (c : OrderClient) (t : OrderTracker)
        → (tracker_of c).to_check_orders ≡ batch ∷ later
        → enqueue_valid_orders get now
            (shuffle draw)
            batch
            (record (tracker_of c) { to_check_orders = later })
          ≡ ok t
        → Step c (with_tracker c t)
    fulfilled :
        (fulfill : List DemandOrder → Result (Unit {0})) (size r : ℕ) (batch : List ℕ)
        (later : List (List ℕ)) (c : OrderClient) (p : Processed)
        → (tracker_of c).output_orders ≡ (r ∷ batch) ∷ later
        → process_batch fulfill size (map (tracker_of c).heap (r ∷ batch)) (tracker_of c).lps
          ≡ ok (some p)
        → Step c (after_batch c later p)
    reported :
        (results : List OrderFulfillResult) (later : List (List OrderFulfillResult))
        (c : OrderClient)
        → c.processed_orders ≡ results ∷ later
        → Step c (
            with_tracker
              (record c { processed_orders = later })
              (process_results results (tracker_of c)))
    loaded :
        (unmarshal : Option String → Option (List GrantedCriteria))
        (get_balances : String → Option Coins) (rollapps_hash : Map RollappCriteria → String)
        (grants : Option (List Grant)) (c : OrderClient)
        → Step c
            (after_load c (load_lps unmarshal get_balances rollapps_hash grants (tracker_of c)))
    refreshed :
        (get_balances : String → Option Coins) (c : OrderClient)
        → Step c (
            with_tracker c
              (record (tracker_of c) { lps = refresh_balances get_balances (tracker_of c).lps }))

  -- a run of the client, step by step
  pub data Run : OrderClient → OrderClient → Type 0 where
    stay : (c : OrderClient) → Run c c
    step : (c d e : OrderClient) → Run c d → Step d e → Run c e
