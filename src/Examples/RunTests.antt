-- ===== src/Examples/RunTests.antt =====
-- A run of the client of ClientTests: the LPs are loaded, an order is polled, and it is handed out to be
-- checked.
use eibc_client.Base.{◌≡◌, refl, true, [], ◌∷◌, some, arith, Result, ok, err, panic}
use eibc_client.Base.Sort.{sort_slice}
use eibc_client.Base.Text.{parse_uint, parse_int}
use eibc_client.Examples.Bank.{one_coin, one_coin_laws, one_coin_order}
use eibc_client.Examples.ClientTests.{
  world, polling, two_keys, three_keys, client, client_made, draws, poller,
}
use eibc_client.Examples.GrantsTests.{unmarshal, get_balances, rollapps_hash, grant}
use eibc_client.Examples.Samples.{all_p2p}
use eibc_client.Examples.SelectionTests.{unshuffled-IsShuffle}
use eibc_client.Examples.SourcesTests.{listed}
use eibc_client.Examples.TrackerTests.{clock}
use eibc_client.Lp.{has_balance, spendable_balance, reserve_funds}
use eibc_client.Poller.{OrderPoller, reset_order_polling}
use eibc_client.Poller.Convert.{poll_pending_demand_orders}
use eibc_client.Pool.{pop_orders, get_order, upsert_order}
use eibc_client.System.{
  OrderClient, initial, after_load, with_tracker, tracker_of, Run, stay, step, loaded, polled,
  popped,
}
use eibc_client.System.Returns.{new_order_client_checks}
use eibc_client.Tracker.Grants.{load_lps, load_grant, read_rollapps}
use eibc_client.Tracker.State.{OrderTracker, check_orders, track_orders}
use eibc_client.Tracker.Validation.{enqueue_valid_orders}

abbrev has_loaded : OrderClient
has_loaded = after_load (initial poller) (
    load_lps unmarshal get_balances rollapps_hash (some (grant ∷ [])) (tracker_of (initial poller)))

abbrev polls : Result OrderPoller
polls = poll_pending_demand_orders clock (draws 0) (ok (listed ∷ [])) has_loaded.poller

abbrev polled_poller : OrderPoller
polled_poller = elim polls [ ok p ↦ p | err text ↦ poller | panic ↦ poller ]

has_polled : polls ≡ ok polled_poller
unfolding poll_pending_demand_orders load_lps parse_uint parse_int get_order track_orders
    upsert_order has_balance spendable_balance sort_slice reserve_funds load_grant read_rollapps
    reset_order_polling
has_polled = refl

abbrev polled_client : OrderClient
polled_client = record has_loaded { poller = polled_poller }

abbrev popped_client : OrderClient
popped_client = with_tracker polled_client (check_orders ("new" ∷ []) (tracker_of polled_client))

abbrev first_run : Run draws (initial poller) popped_client
first_run =
    step (initial poller) polled_client popped_client
      (step (initial poller) has_loaded polled_client
        (step (initial poller) (initial poller) has_loaded (stay (initial poller))
          (loaded unmarshal get_balances rollapps_hash (some (grant ∷ [])) (initial poller)))
        (polled 0 clock (ok (listed ∷ [])) has_loaded polled_poller has_polled))
      (popped ("new" ∷ []) polled_client)

waits : (tracker_of popped_client).to_check_orders ≡ (0 ∷ []) ∷ []
unfolding poll_pending_demand_orders load_lps parse_uint parse_int get_order track_orders
    upsert_order has_balance spendable_balance sort_slice reserve_funds check_orders load_grant
    read_rollapps reset_order_polling pop_orders
waits = refl

new_order_client_checks_example :
    (t : OrderTracker) × (enqueue_valid_orders all_p2p clock
        (draws 0)
        (0 ∷ [])
        (record (tracker_of popped_client) { to_check_orders = [] })
      ≡ ok t)
new_order_client_checks_example =
    new_order_client_checks one_coin_laws one_coin_order world (polling true) two_keys three_keys
      client poller draws all_p2p clock 0 popped_client (0 ∷ []) [] (λ n id. unshuffled-IsShuffle)
      (λ url e. cc) client_made (omega arith) (omega arith) refl first_run (((tt, tt), tt), tt)
      waits
