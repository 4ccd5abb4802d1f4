-- ===== src/Poller/Convert.antt =====
-- `convertOrders` and `pollPendingDemandOrders` of eibc/order_poller.go. The clock and the shuffle of
-- LPs are arguments, by the identifier of the order.
pub mod Books
pub mod Exclusive
pub mod Stored
use eibc_client.Base.{
  ℕ, Bool, true, false, not, ◌&&◌, ◌||◌, max, List, [], ◌∷◌, ◌++◌, Option, none, some, String,
  str_eq, ltb, if◌then◌else◌, Result, ok, err, panic, ◌>>=◌, or_panic, ◌+◌,
}
use eibc_client.Base.Int.{ℤ, ltb_ℤ}
use eibc_client.Base.Sort.{sort_slice}
use eibc_client.Base.Text.{parse_uint, parse_int}
use eibc_client.Lp.{Lp}
use eibc_client.Poller.{Order, OrderPoller, Hub, get_demand_orders_from_rpc}
use eibc_client.Pool.{Heap, get_order}
use eibc_client.Sdk.{Sdk, Coin, Coins, Amount}
use eibc_client.Tracker.Intake.{Offer, taken, refused, no_lp, offer, update_exist}
use eibc_client.Tracker.State.{OrderTracker, track_orders}
use eibc_client.Types.{DemandOrder}

-- the loop of `pollPendingDemandOrders`: orders with a block height, and the highest one
unfoldable pub note_heights : List Order → ℕ → ℕ × List Order
note_heights [] last = (last, [])
note_heights (o ∷ os) last = elim (parse_uint o.block_height) [
  | none ↦ note_heights os last
  | some height ↦
      let (last', kept) = note_heights os (if ltb last height then height else last) in
      (last', o ∷ kept)
]

module _ ⦃S : Sdk⦄ where
  pub record Parsed : Type 0 where
    pub fee : Coin Amount
    pub amount : Amount
    pub price : Coins
    pub proof_height : ℤ

  -- the proof height, after the other texts
  abbrev pub with_height : Coin Amount → Amount → Coin Amount → Option ℤ → Option Parsed
  with_height fee amount price none = none
  with_height fee amount price (some height) = some (record {
    fee = fee;
    amount = amount;
    price = S.new_coins (price ∷ []);
    proof_height = height;
  })

  -- `none` is an order that is passed over; `sdk.NewCoin` panics on what is no amount
  unfoldable pub parse_order : Order → Result (Option Parsed)
  parse_order o =
      if str_eq o.fee "" || (str_eq o.price "" || str_eq o.proof_height "")
      then ok none
      else elim (S.parse_coin o.fee) [
        | none ↦ ok none
        | some fee ↦ elim (S.new_int_from_string o.amount) [
          | none ↦ ok none
          | some amount ↦ elim (S.new_int_from_string o.price) [
            | none ↦ ok none
            | some price ↦ do
              coin ← or_panic (S.new_coin fee.denom price)
              ok (with_height fee amount coin (parse_int o.proof_height))
          ]
        ]
      ]

  abbrev pub new_order : Order → Parsed → ℕ → DemandOrder
  new_order o x deadline = record {
    id = o.eibc_order_id;
    denom = x.fee.denom;
    price = x.price;
    amount = x.amount;
    fee = x.fee;
    rollapp_id = o.rollapp_id;
    proof_height = x.proof_height;
    valid_deadline = deadline;
    settlement_validated = false;
    operator_fee_part = S.dec_nil;
    lp_address = "";
    from = "indexer";
    checking = false;
    valid = false;
  }

  -- the poller after an offer, and the pointer that is kept
  abbrev pub noted : String → OrderPoller → OrderTracker → Offer → OrderPoller × List ℕ
  noted id p t (taken r) = (record p { order_tracker = t }, r ∷ [])
  noted id p t refused = (record p { order_tracker = t }, [])
  noted id p t no_lp = (record p { order_tracker = t; no_lp_orders = id ∷ p.no_lp_orders }, [])

  -- the sort of the new orders, by their proof heights
  abbrev pub lower_first : Heap → ℕ → ℕ → Bool
  lower_first h r q = ltb_ℤ (h r).proof_height (h q).proof_height

module _ ⦃S : Sdk⦄ (now : String → ℕ) (shuffle : String → List Lp → List Lp) where
  -- the rest of the body of the loop of `convertOrders`
  unfoldable pub convert_parsed : Order → Parsed → OrderPoller → Result (OrderPoller × List ℕ)
  unfolding update_exist offer
  convert_parsed o x p = elim (get_order o.eibc_order_id p.order_tracker.pool) [
    | some r ↦ ok (record p { order_tracker = update_exist r x.fee x.price p.order_tracker }, [])
    | none ↦ do
      (t, what) ←
          offer (shuffle o.eibc_order_id)
            (new_order o x (now o.eibc_order_id + p.order_tracker.wait_time)) p.order_tracker
      ok (noted o.eibc_order_id p t what)
  ]

  unfoldable pub convert_order : Order → OrderPoller → Result (OrderPoller × List ℕ)
  unfolding parse_order convert_parsed
  convert_order o p = do
    parsed ← parse_order o
    elim parsed [ none ↦ ok (p, []) | some x ↦ convert_parsed o x p ]

  -- the loop of `convertOrders`
  unfoldable pub convert_each : List Order → OrderPoller → Result (OrderPoller × List ℕ)
  unfolding convert_order
  convert_each [] p = ok (p, [])
  convert_each (o ∷ os) p = do
    (p', new) ← convert_order o p
    (p'', later) ← convert_each os p'
    ok (p'', new ++ later)

  unfoldable pub convert_orders : List Order → OrderPoller → Result (OrderPoller × List ℕ)
  unfolding convert_each
  convert_orders os p = do
    (p', new) ← convert_each os p
    ok (p', sort_slice (lower_first p'.order_tracker.heap) new)

  -- `pollPendingDemandOrders`, for what `getOrders` gives
  unfoldable pub poll_pending_demand_orders : Result (List Order) → OrderPoller → Result OrderPoller
  unfolding note_heights convert_orders
  poll_pending_demand_orders get_orders p = do
    orders ← get_orders
    let (last, kept) = note_heights orders p.last_block_height
    (p', new) ← convert_orders kept (record p { last_block_height = last })
    elim new [
      | [] ↦ ok p'
      | r ∷ rs ↦ ok (record p' { order_tracker = track_orders (r ∷ rs) p'.order_tracker })
    ]
