-- ===== src/Examples/SourcesTests.antt =====
-- eibc/order_poller.go and eibc/order_eventer.go
use mathlib.Core.List.{Perm}
use eibc_client.Poller.Convert.Stored.{pointers}
use eibc_client.Base.{
  ◌<◌, ◌≤◌, ◌^◌, ℕ, some, All, ◌+◌, ◌≡◌, ◌≢◌, refl, false, [], ◌∷◌, arith, String, ok, panic, List,
  if◌then◌else◌, length,
}
use eibc_client.Base.Sort.{sort_slice, IsSorted}
use eibc_client.Base.Text.{parse_uint, concat, format_ℕ, parse_int}
use eibc_client.Eventer.{Events, created_event, enqueue_event_orders, values}
use eibc_client.Eventer.Panics.{AreLong, enqueue_event_orders_returns}
use eibc_client.Examples.Bank.{one_coin, one_coin_laws, one_coin_order, of_total, adym}
use eibc_client.Examples.Samples.{sample_lp, order, tracker}
use eibc_client.Examples.SelectionTests.{unshuffled, unshuffled-IsShuffle, sample_lps-AreSolvent}
use eibc_client.Lp.{Lp, has_balance, spendable_balance, reserve_funds}
use eibc_client.Poller.{
  pending, Order, OrderPoller, Hub, HubOrder, on_recv, get_rollapp_demand_orders_from_rpc,
  get_claimable_rollapp_demand_orders_from_rpc,
}
use eibc_client.Poller.Convert.{
  note_heights, convert_orders, poll_pending_demand_orders, lower_first,
}
use eibc_client.Poller.Convert.Books.{convert_orders-IsSorted}
use eibc_client.Poller.Convert.Exclusive.{poll_pending_demand_orders_height}
use eibc_client.Poller.Query.{IsPending, get_rollapp_demand_orders_from_rpc-All}
use eibc_client.Pool.{update, get_order, upsert_order}
use eibc_client.Tracker.Intake.{taken, offer}
use eibc_client.Tracker.Intake.Books.{Becomes, offer-Becomes}
use eibc_client.Tracker.Selection.Solvency.{AreSolvent}
use eibc_client.Tracker.State.{OrderTracker, track_orders}
use eibc_client.Types.{DemandOrder}

abbrev clock : String → ℕ
clock id = 10

abbrev shuffle : String → List Lp → List Lp
shuffle id = unshuffled

abbrev hub_order : String → String → HubOrder
hub_order id fulfiller = record {
  id = id;
  tracking_packet_key = 48 ∷ 47 ∷ 49 ∷ 47 ∷ 7 ∷ [];
  price = adym 60 ∷ [];
  fee = adym 20 ∷ [];
  recipient = "";
  deprecated_is_fulfilled = false;
  tracking_packet_status = pending;
  rollapp_id = "ra1";
  kind = on_recv;
  fulfiller_address = fulfiller;
  creation_height = 1;
}

-- Height 5 is final, and the orders are at height 7.
abbrev pub hub : Hub
hub = record {
  latest_height = λ id. some 5;
  demand_orders_by_status = λ q. some (
      if q.fulfilled
      then hub_order "done" "operator" ∷ []
      else hub_order "new" "" ∷ hub_order "other" "someone" ∷ []);
  big_endian = λ bytes. some (length bytes + 6);
}

abbrev pub listed : Order
listed = record {
  eibc_order_id = "new";
  amount = "80";
  price = "60";
  fee = "20";
  rollapp_id = "ra1";
  proof_height = "7";
  block_height = "0";
  tracking_packet_key = [];
}

list_pending : get_rollapp_demand_orders_from_rpc hub "ra1" on_recv ≡ ok (listed ∷ [])
unfolding get_rollapp_demand_orders_from_rpc format_ℕ
list_pending = refl

get_rollapp_demand_orders_from_rpc-All_example :
    All (IsPending hub "ra1" (hub_order "new" "" ∷ hub_order "other" "someone" ∷ [])) (listed ∷ [])
get_rollapp_demand_orders_from_rpc-All_example =
    get_rollapp_demand_orders_from_rpc-All hub "ra1" on_recv
      (hub_order "new" "" ∷ hub_order "other" "someone" ∷ []) (listed ∷ []) refl list_pending

abbrev settled_hub : Hub
settled_hub = record hub { latest_height = λ id. some 9 }

abbrev claimed : Order
claimed = record listed { eibc_order_id = "done"; tracking_packet_key = 48 ∷ 47 ∷ 49 ∷ 47 ∷ 7 ∷ [] }

list_claimable :
    get_claimable_rollapp_demand_orders_from_rpc settled_hub "operator" "ra1" on_recv
    ≡ ok (claimed ∷ [])
unfolding get_claimable_rollapp_demand_orders_from_rpc format_ℕ
list_claimable = refl

abbrev pub poller : OrderPoller
poller = record {
  rollapps = "ra1" ∷ [];
  chain_id = "hub";
  indexer_url = "";
  interval = 30;
  operator_addr = "operator";
  last_block_height = 0;
  no_lp_orders = [];
  order_tracker = tracker;
}

-- the new order as it is at first, and with its LP
abbrev learnt : DemandOrder
learnt = record (order "new" 60) { amount = 80; valid_deadline = 70 }

abbrev with_lp : DemandOrder
with_lp = record learnt { lp_address = "fair"; operator_fee_part = 20 }

abbrev with_new : OrderTracker
with_new = record tracker {
  lps =
      ("rich", sample_lp "rich" 10 1000)
      ∷ ("fair", record (sample_lp "fair" 20 100) { reserved_funds = of_total 60 })
      ∷ ("poor", sample_lp "poor" 30 50)
      ∷ [];
  heap = update tracker.heap 2 with_lp;
  next = 3;
}

take_learnt : offer unshuffled learnt tracker ≡ ok (with_new, taken 2)
unfolding offer has_balance spendable_balance sort_slice reserve_funds
take_learnt = refl

offer-Becomes_example :
    Becomes one_coin_laws one_coin_order unshuffled unshuffled-IsShuffle learnt tracker with_new
      (taken 2)
offer-Becomes_example =
    offer-Becomes one_coin_laws one_coin_order unshuffled unshuffled-IsShuffle learnt tracker
      with_new (taken 2) refl take_learnt

abbrev converted : OrderPoller
converted = record poller { order_tracker = with_new }

convert_listed : convert_orders clock shuffle (listed ∷ []) poller ≡ ok (converted, 2 ∷ [])
unfolding convert_orders parse_uint parse_int get_order has_balance spendable_balance sort_slice
    reserve_funds
convert_listed = refl

convert_orders-IsSorted_example :
    IsSorted (lower_first with_new.heap) (2 ∷ [])
    × ((n : ℕ) × (3 ≡ n + 2) × Perm (2 ∷ []) (pointers 2 n))
    × AreSolvent one_coin_laws with_new.lps
convert_orders-IsSorted_example =
    convert_orders-IsSorted one_coin_laws one_coin_order clock shuffle (λ id. unshuffled-IsShuffle)
      (listed ∷ []) poller converted (2 ∷ []) sample_lps-AreSolvent convert_listed

abbrev pub tracking : OrderPoller
tracking = record poller {
  order_tracker = record with_new {
    pool = record { orders = ("a", 0) ∷ ("b", 1) ∷ ("new", 2) ∷ [] };
  };
}

pub poll_listed : poll_pending_demand_orders clock shuffle (ok (listed ∷ [])) poller ≡ ok tracking
unfolding poll_pending_demand_orders parse_uint parse_int get_order track_orders upsert_order
    has_balance spendable_balance sort_slice reserve_funds
poll_listed = refl

abbrev events : Events
events =
    (concat created_event ".order_id", "new" ∷ [])
    ∷ (concat created_event ".price", "60" ∷ [])
    ∷ (concat created_event ".amount", "80" ∷ [])
    ∷ (concat created_event ".fee", "20" ∷ [])
    ∷ (concat created_event ".rollapp_id", "ra1" ∷ [])
    ∷ (concat created_event ".proof_height", "7" ∷ [])
    ∷ []

abbrev notified : OrderTracker
notified = record tracking.order_tracker {
  heap = update tracker.heap 2 (record with_lp { from = "event" });
}

enqueue_created : enqueue_event_orders clock shuffle created_event events tracker ≡ ok notified
unfolding enqueue_event_orders parse_uint parse_int track_orders upsert_order has_balance
    spendable_balance sort_slice reserve_funds
enqueue_created = refl

events-AreLong : AreLong events created_event (length (values events created_event ".order_id"))
events-AreLong = record {
  prices = omega arith;
  fees = omega arith;
  amounts = omega arith;
  proof_heights = omega arith;
  rollapps = omega arith;
}

enqueue_event_orders_returns_example :
    enqueue_event_orders clock shuffle created_event events tracker ≢ panic
enqueue_event_orders_returns_example =
    enqueue_event_orders_returns one_coin_laws one_coin_order clock shuffle
      (λ id. unshuffled-IsShuffle) created_event events tracker events-AreLong sample_lps-AreSolvent

poll_pending_demand_orders_height_example :
    (poller.last_block_height ≤ tracking.last_block_height)
    × (tracking.last_block_height < 2 ^ 64)
    × All
        (λ o. (n : ℕ) × (parse_uint o.block_height ≡ some n) × (n ≤ tracking.last_block_height))
        (note_heights (listed ∷ []) 0).1
poll_pending_demand_orders_height_example =
    poll_pending_demand_orders_height clock shuffle (listed ∷ []) poller tracking (omega arith)
      poll_listed
