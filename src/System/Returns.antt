-- ===== src/System/Returns.antt =====
-- The validator of a client that was built never panics.
use eibc_client.Base.{
  ℕ, ◌<◌, ◌≡◌, ◌≢◌, refl, sym, ◌∙◌, ap, subst, List, ◌∷◌, String, Result, ok, panic, some, arith,
}
use eibc_client.Base.Int.{pos, pos_part}
use eibc_client.Client.{World, NewClient, new_order_client}
use eibc_client.Client.Start.{IsSized, new_order_client-IsFresh}
use eibc_client.Config.{Config}
use eibc_client.Eventer.Exclusive.{enqueue_event_orders-Grows}
use eibc_client.Lp.{Lp}
use eibc_client.Node.{BlockValidatedResponse}
use eibc_client.Poller.{OrderPoller}
use eibc_client.Poller.Convert.Exclusive.{poll_pending_demand_orders-Grows}
use eibc_client.Sdk.{Sdk}
use eibc_client.Sdk.Laws.{CoinLaws, DecLaws}
use eibc_client.System.{
  OrderClient, initial, tracker_of, Step, polled, notified, popped, checked, fulfilled, reported,
  loaded, refreshed, Run, stay, step,
}
use eibc_client.System.Exclusive.{load_lps-Grows, tracker_of-after_load}
use eibc_client.System.Solvency.{Run-AreSolvent, RefreshesKeep}
use eibc_client.Tracker.Grants.{load_lps}
use eibc_client.Tracker.Selection.Choice.{IsShuffle}
use eibc_client.Tracker.Selection.Solvency.{AreSolvent}
use eibc_client.Tracker.State.{OrderTracker}
use eibc_client.Tracker.State.Exclusive.{process_results-Grows, check_orders_rest}
use eibc_client.Tracker.Validation.{enqueue_valid_orders}
use eibc_client.Tracker.Validation.Answers.{enqueue_valid_orders_ends}
use eibc_client.Tracker.Validation.Sends.{enqueue_valid_orders-Sends}

module _ ⦃S : Sdk⦄ (cfg : Config) where
  abbrev Keeps : OrderTracker → OrderTracker → Type 0
  Keeps t u = (u.num_fulfillers ≡ t.num_fulfillers) × (u.max_orders_per_tx ≡ t.max_orders_per_tx)

  kept_sizes : (t u : OrderTracker) → Keeps t u → IsSized cfg t → IsSized cfg u
  kept_sizes t u (a, b) (x, y) = (ap pos a ∙ x, b ∙ y)

  module _ (shuffle : ℕ → String → List Lp → List Lp) where
    Step-Keeps : (c d : OrderClient) → Step shuffle c d → Keeps (tracker_of c) (tracker_of d)
    Step-Keeps c _ (polled draw now orders _ p e) =
        (poll_pending_demand_orders-Grows now (shuffle draw) orders c.poller p e).sizes
    Step-Keeps c _ (notified draw now name events _ t e) =
        (enqueue_event_orders-Grows now (shuffle draw) events name (tracker_of c) t e).sizes
    Step-Keeps c _ (popped keys _) =
        let rest = check_orders_rest keys (tracker_of c) in (rest.1, rest.2)
    Step-Keeps c _ (checked get draw now batch later _ t front e) =
        (enqueue_valid_orders-Sends get now (shuffle draw) batch
          (record (tracker_of c) { to_check_orders = later }) t e).sizes
    Step-Keeps c _ (fulfilled fulfill size r batch later _ p front e) = (refl, refl)
    Step-Keeps c _ (reported results later _ _) =
        (process_results-Grows results (tracker_of c)).sizes
    Step-Keeps c _ (refreshed get_balances _) = (refl, refl)
    Step-Keeps c _ (loaded unmarshal get_balances rollapps_hash grants _) =
        let y = load_lps unmarshal get_balances rollapps_hash grants (tracker_of c) in
        subst (Keeps (tracker_of c)) (sym (tracker_of-after_load c y.0 y.1 y.2))
          (load_lps-Grows unmarshal get_balances rollapps_hash grants (tracker_of c)).sizes

    Run-IsSized :
        (c d : OrderClient)
        → Run shuffle c d
        → IsSized cfg (tracker_of c)
        → IsSized cfg (tracker_of d)
    Run-IsSized c _ (stay _) h = h
    Run-IsSized c _ (step _ d e r s) h =
        kept_sizes (tracker_of d) (tracker_of e) (Step-Keeps d e s) (Run-IsSized c d r h)

-- A client that `NewOrderClient` returned for at least one fulfiller and at least one order for a
-- transaction can always check the batch that waits at the front: in every state that its
-- goroutines reach, unless a refresh of the balances left an LP with less than it has reserved, the
-- check comes to its end, without an error and without a panic, if no request to a full node panics.
pub new_order_client_checks :
    ⦃S : Sdk⦄ (L : CoinLaws) (D : DecLaws) (w : World) (cfg : Config) (k k' : w.keyring.State)
    (c : NewClient) (p : OrderPoller) (shuffle : ℕ → String → List Lp → List Lp)
    (get : String → Result BlockValidatedResponse) (now : String → ℕ) (draw : ℕ) (d : OrderClient)
    (batch : List ℕ) (later : List (List ℕ))
    → ((n : ℕ) (id : String) → IsShuffle (shuffle n id))
    → ((url : String) → get url ≢ panic)
    → new_order_client w cfg k ≡ ok (k', c)
    → 0 < pos_part cfg.fulfillers.scale
    → 0 < pos_part cfg.fulfillers.max_orders_per_tx
    → c.order_poller ≡ some p
    → (run : Run shuffle (initial p) d) → RefreshesKeep L D shuffle (initial p) d run
    → (tracker_of d).to_check_orders ≡ batch ∷ later
    → (t : OrderTracker) × (enqueue_valid_orders get now
          (shuffle draw)
          batch
          (record (tracker_of d) { to_check_orders = later })
        ≡ ok t)
new_order_client_checks L D w cfg k k' c p shuffle get now draw d batch later mixes answers made
      some_fulfiller some_order has run keeps front =
    let (fresh, sized) = new_order_client-IsFresh w cfg k k' c p made has in
    let sizes = Run-IsSized cfg shuffle (initial p) d run sized in
    enqueue_valid_orders_ends get now (shuffle draw) L D (mixes draw) answers batch
      (record (tracker_of d) { to_check_orders = later })
      (Run-AreSolvent L D shuffle mixes (initial p) d run keeps
        (subst (AreSolvent L) (sym fresh.0) tt))
      (omega (arith, sizes.1)) (omega (arith, ap pos_part sizes.0))
