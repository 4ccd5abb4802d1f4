-- ===== src/Launch.antt =====
-- How the client is launched: `Start` of eibc/order_client.go with the `start` of its parts, up to
-- where it waits for ever, and the `start` command of cmd/cmd.go. A program that ends by
-- `log.Fatalf` is an error.
pub mod Reached
use eibc_client.Base.{
  ℕ, Bool, true, false, not, List, [], ◌∷◌, Option, none, some, String, Result, ok, err, panic,
  ◌>>=◌, if◌then◌else◌, ◌==◌,
}
use eibc_client.Base.Int.{ℤ, pos, negsuc}
use eibc_client.Base.Map.{Map}
use eibc_client.Base.Text.{concat}
use eibc_client.Client.{World, NewClient, new_order_client}
use eibc_client.Config.{Config, validate_level}
use eibc_client.Eventer.{created_event, updated_fee_event}
use eibc_client.Finalizer.{FinalizerChain, OrderFinalizer, finalize_claimable_orders}
use eibc_client.Fulfiller.{wrapped}
use eibc_client.Lp.{Lp, RollappCriteria}
use eibc_client.Poller.{Order, Hub}
use eibc_client.Poller.Convert.{poll_pending_demand_orders}
use eibc_client.Sdk.{Sdk, Coins}
use eibc_client.System.{OrderClient, tracker_of, after_load}
use eibc_client.Tracker.Grants.{Grant, GrantedCriteria, load_lps}

-- `subscribeToEvent`: the query of an event, or the error of the subscription; `subscribe` is the
-- error for a query
subscribe_to_event : (String → Option String) → String → Result String
subscribe_to_event subscribe event = elim (subscribe (concat event ".packet_status='PENDING'")) [
  | some e ↦ err (concat (concat (concat "failed to subscribe to " event) " events: ") e)
  | none ↦ ok (concat event ".packet_status='PENDING'")
]

-- `orderEventer.start`: the queries that are subscribed to, after `rpc.Start`
unfoldable pub start_eventer : Option String → (String → Option String) → Result (List String)
unfolding subscribe_to_event
start_eventer (some e) subscribe = err (concat "start rpc client: " e)
start_eventer none subscribe = do
  created ←
      wrapped "failed to subscribe to pending demand orders: "
        (subscribe_to_event subscribe created_event)
  updated ←
      wrapped "failed to subscribe to updated demand orders: "
        (subscribe_to_event subscribe updated_fee_event)
  ok (created ∷ updated ∷ [])

-- `cfg.Fulfillers.Scale == 0`
abbrev pub no_fulfillers : ℤ → Bool
no_fulfillers (pos n) = n == 0
no_fulfillers (negsuc n) = false

module _ ⦃S : Sdk⦄ where
  -- What is asked at the start: the grants of the LPs with what decodes them, the RPC client and its
  -- subscriptions, the clock, and the orders of the hub; and what the finalizer asks.
  pub record Surroundings : Type 0 where
    pub unmarshal : Option String → Option (List GrantedCriteria)
    pub get_balances : String → Option Coins
    pub rollapps_hash : Map RollappCriteria → String
    pub grants : Option (List Grant)
    pub rpc_start : Option String
    pub subscribe : String → Option String
    pub now : String → ℕ
    pub orders : Result (List Order)
    pub hub : Hub
    pub finalizer_chain : FinalizerChain

  -- `orderTracker.start`
  unfoldable pub start_tracker : Surroundings → OrderClient → Result OrderClient
  unfolding load_lps
  start_tracker s c =
      let (t, reset, failure) =
        load_lps s.unmarshal s.get_balances s.rollapps_hash s.grants (tracker_of c) in
      elim failure [
        | some e ↦ err (concat "failed to load LPs: " e)
        | none ↦ ok (after_load c (t, reset, none))
      ]

  -- `orderPoller.start`, with the shuffle of the LPs by the identifier of the order
  unfoldable pub start_poller :
      (String → List Lp → List Lp) → Surroundings → OrderClient → Result OrderClient
  unfolding poll_pending_demand_orders
  start_poller shuffle s c = do
    p ←
        wrapped "failed to refresh demand orders: "
          (poll_pending_demand_orders s.now shuffle s.orders c.poller)
    ok (record c { poller = p })

  -- `orderFinalizer.start`
  unfoldable pub start_finalizer : Surroundings → OrderFinalizer → OrderClient → Result (Unit {0})
  unfolding finalize_claimable_orders
  start_finalizer s f c =
      wrapped "could not finalize demand orders: "
        (finalize_claimable_orders s.hub s.finalizer_chain c.poller f)

  -- an error that only goes to the log; a panic still ends the program
  abbrev pub logged : Result (Unit {0}) → Result (Unit {0})
  logged (err e) = ok tt
  logged (ok u) = ok u
  logged panic = panic

  -- `Start`, until it waits for ever; that the fulfillers start changes nothing by itself
  unfoldable pub start :
      (String → List Lp → List Lp)
      → Surroundings
      → OrderFinalizer
      → OrderClient
      → Result OrderClient
  unfolding start_tracker start_eventer start_poller start_finalizer
  start shuffle s f c = do
    c' ← wrapped "failed to start order tracker: " (start_tracker s c)
    _ ← wrapped "failed to subscribe to demand orders: " (start_eventer s.rpc_start s.subscribe)
    d ← wrapped "failed to start order polling: " (start_poller shuffle s c')
    _ ← logged (start_finalizer s f d)
    ok d

  -- The `start` command, for the configuration that is read, up to the call of `Start`: the client,
  -- or `none` if there are no fulfillers to start. `bad_log_level` is the error of `level.Set`.
  unfoldable pub start_command :
      (w : World)
      → (String → Option String)
      → Option Config
      → w.keyring.State
      → Result (w.keyring.State × Option NewClient)
  unfolding validate_level new_order_client
  start_command w bad_log_level none k = err "failed to unmarshal config"
  start_command w bad_log_level (some cfg) k =
      if not (validate_level cfg.validation.fallback_level)
      then err (concat "invalid fallback validation level: " cfg.validation.fallback_level)
      else elim (bad_log_level cfg.log_level) [
        | some e ↦ err (concat "failed to build logger: failed to set log level: " e)
        | none ↦ do
          (k', c) ← wrapped "failed to create eibc client: " (new_order_client w cfg k)
          ok (k', (if no_fulfillers cfg.fulfillers.scale then none else some c))
      ]
