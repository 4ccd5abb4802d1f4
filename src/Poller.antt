-- ===== src/Poller.antt =====
-- eibc/order_poller.go. The queries to the hub and the answers of its libraries are an argument. A
-- tracking key is a sequence of bytes, since it holds the proof height as eight raw bytes.
pub mod Convert
pub mod Query
pub mod Indexer
pub mod DemandOrders
use eibc_client.Base.{
  ℕ, zero, suc, Bool, true, false, not, ◌&&◌, ◌||◌, max, List, [], ◌∷◌, ◌++◌, Option, none, some,
  String, str_eq, ltb, leb, ◌==◌, if◌then◌else◌, Result, ok, err, panic, ◌>>=◌, or_panic, or_err,
  contains_key, is_empty, head?, get_elem?, ◌+◌,
}
use eibc_client.Base.Int.{ℤ, ltb_ℤ}
use eibc_client.Base.Map.{Map, lookup, insert}
use eibc_client.Base.Sort.{sort_slice}
use eibc_client.Base.Text.{format_ℕ, parse_uint, parse_int}
use eibc_client.Lp.{Lp}
use eibc_client.Pool.{Heap, get_order}
use eibc_client.Sdk.{Sdk, Coin, Coins, Amount}
use eibc_client.Tracker.Intake.{Offer, taken, refused, no_lp, offer, update_exist}
use eibc_client.Tracker.State.{OrderTracker, track_orders}
use eibc_client.Types.{DemandOrder}
use eibc_client.Config.{OrderPollingConfig}

-- `Order`, the texts that the indexer gives
pub record Order : Type 0 where
  pub eibc_order_id : String
  pub amount : String
  pub price : String
  pub fee : String
  pub rollapp_id : String
  pub proof_height : String
  pub block_height : String
  pub tracking_packet_key : List ℕ

-- `RollappPacket_Type`
pub data PacketType : Type 0 where
  on_recv : PacketType
  on_ack : PacketType
  on_timeout : PacketType

-- `Status` of a packet
pub data Status : Type 0 where
  pending : Status
  finalized : Status

-- `QueryDemandOrdersByStatusRequest`, with the limit of its pagination
pub record OrdersRequest : Type 0 where
  pub status : Status
  pub kind : PacketType
  pub rollapp_id : String
  pub fulfilled : Bool
  pub limit : ℕ

abbrev pub claimable_orders_batch_size_limit : ℕ
claimable_orders_batch_size_limit = 10

-- `strings.Split(trackingKey, "/")`
unfoldable pub split_key : List ℕ → List ℕ → List (List ℕ)
split_key part [] = part ∷ []
split_key part (c ∷ cs) = elim (c == 47) [
  | true ↦ part ∷ split_key [] cs
  | false ↦ split_key (part ++ c ∷ []) cs
]

-- a height that `sdk.BigEndianToUint64` panics on is recovered from, and is 0
abbrev pub or_zero : Option ℕ → ℕ
or_zero none = 0
or_zero (some h) = h

-- `parseProofHeight`: the third part is taken before the panic is recovered from
unfoldable pub parse_proof_height : (List ℕ → Option ℕ) → List ℕ → Result ℕ
unfolding split_key
parse_proof_height big_endian key = do
  part ← or_panic (get_elem? (split_key [] key) 2)
  ok (or_zero (big_endian part))

-- the two tests of the height of a block against the last finalized one
abbrev pub is_final : ℕ → ℕ → Bool
is_final last height = ltb 0 height && leb height last

abbrev pub is_open : ℕ → ℕ → Bool
is_open last height = ltb 0 height && ltb last height

-- the loop over the rollapps, with the three kinds of packets of each
unfoldable pub all_rollapps :
    (String → PacketType → Result (List Order)) → List String → Result (List Order)
all_rollapps fetch [] = ok []
all_rollapps fetch (rollapp ∷ rollapps) =
    let others = all_rollapps fetch rollapps in
    do
      received ← fetch rollapp on_recv
      timed_out ← fetch rollapp on_timeout
      acknowledged ← fetch rollapp on_ack
      rest ← others
      ok (received ++ timed_out ++ acknowledged ++ rest)

-- the orders that no LP was found for are left out
unfoldable pub drop_no_lp : List String → List Order → List Order
drop_no_lp no_lp_orders [] = []
drop_no_lp no_lp_orders (o ∷ os) =
    let rest = drop_no_lp no_lp_orders os in
    if contains_key o.eibc_order_id no_lp_orders then rest else o ∷ rest

module _ ⦃S : Sdk⦄ where
  -- `eibc.DemandOrder`, an order as the hub knows it
  pub record HubOrder : Type 0 where
    pub id : String
    pub tracking_packet_key : List ℕ
    pub price : Coins
    pub fee : Coins
    pub recipient : String
    pub deprecated_is_fulfilled : Bool
    pub tracking_packet_status : Status
    pub rollapp_id : String
    pub kind : PacketType
    pub fulfiller_address : String
    pub creation_height : ℕ

  -- the last finalized height of a rollapp, the orders for a request, and `sdk.BigEndianToUint64`
  pub record Hub : Type 0 where
    pub latest_height : String → Option ℕ
    pub demand_orders_by_status : OrdersRequest → Option (List HubOrder)
    pub big_endian : List ℕ → Option ℕ

  pub record OrderPoller : Type 0 where
    pub chain_id : String
    pub indexer_url : String
    pub interval : ℕ
    pub rollapps : List String
    pub operator_addr : String
    pub last_block_height : ℕ
    pub no_lp_orders : List String
    pub order_tracker : OrderTracker

  -- `newOrderPoller`
  abbrev pub new_order_poller :
      String → OrderTracker → OrderPollingConfig → List String → String → OrderPoller
  new_order_poller chain_id tracker cfg rollapps operator_addr = record {
    chain_id = chain_id;
    indexer_url = cfg.indexer_url;
    interval = cfg.interval;
    rollapps = rollapps;
    operator_addr = operator_addr;
    last_block_height = 0;
    no_lp_orders = [];
    order_tracker = tracker;
  }

  abbrev pub has_fee : HubOrder → Bool
  has_fee o = not (is_empty o.fee || S.is_any_nil o.fee || not (S.is_all_positive o.fee))

  -- the texts of an order; `Price[0]` and `Fee[0]` panic where there is none
  unfoldable pub to_order : List ℕ → ℕ → HubOrder → Result Order
  to_order key height o = do
    price ← or_panic (head? o.price)
    fee ← or_panic (head? o.fee)
    ok (record {
      eibc_order_id = o.id;
      amount = S.int_string (S.int_add price.amount fee.amount);
      price = S.int_string price.amount;
      fee = S.coin_string fee;
      rollapp_id = o.rollapp_id;
      proof_height = format_ℕ height;
      block_height = "0";
      tracking_packet_key = key;
    })

  -- the loop over the answer of the hub; `listed` is the key that is kept of an order
  unfoldable pub select_orders :
      (List ℕ → Option ℕ)
      → (HubOrder → Bool)
      → (ℕ → Bool)
      → (HubOrder → List ℕ)
      → List HubOrder
      → Result (List Order)
  unfolding to_order parse_proof_height
  select_orders big_endian is_wanted passes listed [] = ok []
  select_orders big_endian is_wanted passes listed (o ∷ os) =
      let rest = select_orders big_endian is_wanted passes listed os in
      if not (is_wanted o) then rest else do
        height ← parse_proof_height big_endian o.tracking_packet_key
        if passes height then rest else do x ← to_order (listed o) height o; xs ← rest; ok (x ∷ xs)

  -- `getRollappDemandOrdersFromRPC`
  unfoldable pub get_rollapp_demand_orders_from_rpc :
      Hub → String → PacketType → Result (List Order)
  unfolding select_orders
  get_rollapp_demand_orders_from_rpc hub rollapp kind = do
    orders ←
        or_err
          (hub.demand_orders_by_status (record {
            status = pending;
            kind = kind;
            rollapp_id = rollapp;
            fulfilled = false;
            limit = 100000;
          }))
          "failed to get demand orders"
    select_orders hub.big_endian (λ o. str_eq o.fulfiller_address "" && has_fee o)
        (is_final (or_zero (hub.latest_height rollapp))) (λ _. []) orders

  -- `getClaimableRollappDemandOrdersFromRPC`
  unfoldable pub get_claimable_rollapp_demand_orders_from_rpc :
      Hub → String → String → PacketType → Result (List Order)
  unfolding select_orders
  get_claimable_rollapp_demand_orders_from_rpc hub operator rollapp kind = do
    orders ←
        or_err
          (hub.demand_orders_by_status (record {
            status = pending;
            kind = kind;
            rollapp_id = rollapp;
            fulfilled = true;
            limit = claimable_orders_batch_size_limit;
          }))
          "failed to get fulfilled demand orders"
    select_orders hub.big_endian (λ o. str_eq operator o.fulfiller_address && has_fee o)
        (is_open (or_zero (hub.latest_height rollapp))) (λ o. o.tracking_packet_key) orders

  unfoldable pub get_demand_orders_from_rpc : Hub → OrderPoller → Result (List Order)
  unfolding all_rollapps get_rollapp_demand_orders_from_rpc drop_no_lp
  get_demand_orders_from_rpc hub p = do
    orders ← all_rollapps (get_rollapp_demand_orders_from_rpc hub) p.rollapps
    ok (drop_no_lp p.no_lp_orders orders)

  unfoldable pub get_claimable_demand_orders_from_rpc : Hub → OrderPoller → Result (List Order)
  unfolding all_rollapps get_claimable_rollapp_demand_orders_from_rpc drop_no_lp
  get_claimable_demand_orders_from_rpc hub p = do
    orders ←
        all_rollapps (get_claimable_rollapp_demand_orders_from_rpc hub p.operator_addr) p.rollapps
    ok (drop_no_lp p.no_lp_orders orders)

  -- `resetOrderPolling`
  unfoldable pub reset_order_polling : OrderPoller → OrderPoller
  reset_order_polling p = record p { last_block_height = 0; no_lp_orders = [] }
