-- ===== src/Eventer.antt =====
-- eibc/order_eventer.go: orders are learnt of from events, whose values come as parallel lists of
-- texts. The clock and the shuffle of LPs are arguments, by the identifier of the order.
pub mod Books
pub mod Exclusive
pub mod Panics
use eibc_client.Base.{
  ℕ, suc, Bool, true, false, ◌&&◌, List, [], ◌∷◌, ◌++◌, Option, none, some, String, str_eq,
  if◌then◌else◌, Result, ok, err, panic, ◌>>=◌, or_panic, get_elem?, ◌+◌,
}
use eibc_client.Base.Int.{ℤ}
use eibc_client.Base.Map.{Map, lookup}
use eibc_client.Base.Text.{concat, parse_int}
use eibc_client.Lp.{Lp}
use eibc_client.Pool.{get_order}
use eibc_client.Sdk.{Sdk, Coin, Coins, Amount}
use eibc_client.Tracker.Intake.{Offer, taken, refused, no_lp, offer, update_exist}
use eibc_client.Tracker.State.{OrderTracker, track_orders}
use eibc_client.Types.{DemandOrder}

abbrev pub created_event : String
created_event = "dymensionxyz.dymension.eibc.EventDemandOrderCreated"

abbrev pub updated_fee_event : String
updated_fee_event = "dymensionxyz.dymension.eibc.EventDemandOrderFeeUpdated"

abbrev pub Events : Type 0
Events = Map (List String)

-- `res.Events[key]`, which is empty for a missing key
abbrev pub all_values : Option (List String) → List String
all_values none = []
all_values (some vs) = vs

abbrev pub values : Events → String → String → List String
values events name field = all_values (lookup (concat name field) events)

-- `values[i]`, which panics out of range
abbrev pub value_at : Events → String → String → ℕ → Result String
value_at events name field i = or_panic (get_elem? (values events name field) i)

-- the key of the fees of an event
abbrev pub fee_field : String → String
fee_field name = if str_eq name created_event then ".fee" else ".new_fee"

-- the pointer that is kept of an offer
abbrev pub kept : Offer → List ℕ
kept (taken r) = r ∷ []
kept refused = []
kept no_lp = []

module _ ⦃S : Sdk⦄ where
  -- what the texts at one index say
  pub record EventOrder : Type 0 where
    pub price : Coins
    pub amount : Amount
    pub fee : Coin Amount
    pub proof_height : ℤ

  abbrev pub event_order : Coins → Amount → Coin Amount → Option ℤ → Option EventOrder
  event_order price amount fee none = none
  event_order price amount fee (some height) =
      some (record { price = price; amount = amount; fee = fee; proof_height = height })

  -- `none` is an order that is passed over
  unfoldable pub parse_event : Events → String → ℕ → Result (Option EventOrder)
  parse_event events name i = do
    price_text ← value_at events name ".price" i
    elim (S.parse_coins price_text) [
      | none ↦ ok none
      | some price ↦ do
        fee_text ← value_at events name (fee_field name) i
        if str_eq fee_text "" then ok none else do
          amount_text ← value_at events name ".amount" i
          elim (S.new_int_from_string amount_text) [
            | none ↦ ok none
            | some amount ↦ elim (S.parse_coin fee_text) [
              | none ↦ ok none
              | some fee ↦ do
                height ← value_at events name ".proof_height" i
                ok (event_order price amount fee (parse_int height))
            ]
          ]
    ]

  abbrev pub order_of : String → String → EventOrder → ℕ → DemandOrder
  order_of id rollapp_id x deadline = record {
    id = id;
    denom = x.fee.denom;
    price = x.price;
    amount = x.amount;
    fee = x.fee;
    rollapp_id = rollapp_id;
    proof_height = x.proof_height;
    valid_deadline = deadline;
    settlement_validated = false;
    operator_fee_part = S.dec_nil;
    lp_address = "";
    from = "event";
    checking = false;
    valid = false;
  }

module _ ⦃S : Sdk⦄ (now : String → ℕ) (shuffle : String → List Lp → List Lp) where
  -- from the new order on
  unfoldable pub take_new :
      Events → String → String → ℕ → EventOrder → OrderTracker → Result (OrderTracker × List ℕ)
  unfolding offer
  take_new events name id i x t = do
    rollapp_id ← value_at events name ".rollapp_id" i
    (t', what) ← offer (shuffle id) (order_of id rollapp_id x (now id + t.wait_time)) t
    ok (t', kept what)

  -- from the parsed texts on: a fee update of a tracked order changes that order
  unfoldable pub take_event :
      Events → String → String → ℕ → EventOrder → OrderTracker → Result (OrderTracker × List ℕ)
  unfolding take_new update_exist
  take_event events name id i x t =
      if str_eq name updated_fee_event
      then elim (get_order id t.pool) [
        | some r ↦ ok (update_exist r x.fee x.price t, [])
        | none ↦ take_new events name id i x t
      ]
      else take_new events name id i x t

  -- the body of the loop of `parseOrdersFromEvents`
  unfoldable pub one_event :
      Events → String → String → ℕ → OrderTracker → Result (OrderTracker × List ℕ)
  unfolding parse_event take_event
  one_event events name id i t = do
    parsed ← parse_event events name i
    elim parsed [ none ↦ ok (t, []) | some x ↦ take_event events name id i x t ]

  unfoldable pub each_event :
      Events → String → List String → ℕ → OrderTracker → Result (OrderTracker × List ℕ)
  unfolding one_event
  each_event events name [] i t = ok (t, [])
  each_event events name (id ∷ ids) i t = do
    (t', new) ← one_event events name id i t
    (t'', later) ← each_event events name ids (suc i) t'
    ok (t'', new ++ later)

  unfoldable pub parse_orders_from_events :
      String → Events → OrderTracker → Result (OrderTracker × List ℕ)
  unfolding each_event
  parse_orders_from_events name events t =
      each_event events name (values events name ".order_id") 0 t

  -- `enqueueEventOrders`
  unfoldable pub enqueue_event_orders : String → Events → OrderTracker → Result OrderTracker
  unfolding parse_orders_from_events
  enqueue_event_orders name events t = do
    (t', new) ← parse_orders_from_events name events t
    elim new [ [] ↦ ok t' | r ∷ rs ↦ ok (track_orders (r ∷ rs) t') ]
