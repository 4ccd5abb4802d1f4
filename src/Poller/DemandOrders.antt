-- ===== src/Poller/DemandOrders.antt =====
-- types/eibc/demand_order.go: what an order of the hub says of its fee and its fulfilment. An address is its text.
use eibc_client.Base.{
  ℕ, ◌≡◌, ◌≢◌, refl, Bool, not, ◌||◌, List, [], String, str_eq, if◌then◌else◌, Result, ok, panic,
  ◌>>=◌, >>=-eq-ok, or_panic, head?, eq_iff,
}
use eibc_client.Poller.{Order, Hub, HubOrder, to_order}
use eibc_client.Poller.Query.{IsPending}
use eibc_client.Sdk.{Sdk, Amount}

module _ ⦃S : Sdk⦄ where
  -- `GetRecipientBech32Address`
  unfoldable pub get_recipient_bech32_address : (String → Bool) → HubOrder → Result String
  get_recipient_bech32_address is_address o =
      if is_address o.recipient then ok o.recipient else panic

  -- `GetFeeAmount`: the fee in the first denomination of the price
  unfoldable pub get_fee_amount : HubOrder → Result Amount
  get_fee_amount o = do price ← or_panic (head? o.price); ok (S.coins_amount_of o.fee price.denom)

  -- `IsFulfilled`
  unfoldable pub is_fulfilled : HubOrder → Bool
  is_fulfilled o = not (str_eq o.fulfiller_address "") || o.deprecated_is_fulfilled

  to_order-get_fee_amount :
      (key : List ℕ) (h : ℕ) (o : HubOrder) (x : Order)
      → to_order key h o ≡ ok x
      → get_fee_amount o ≢ panic
  unfolding to_order get_fee_amount
  to_order-get_fee_amount key h o x e p =
      let (price, a, _) = >>=-eq-ok (or_panic (head? o.price)) _ e in
      cc (rw (a, get_fee_amount) at p)

  -- The order of the hub behind one that is listed to be fulfilled has a price, so that its fee can be
  -- asked for, and only the deprecated mark can say that it is fulfilled.
  pub pending_order :
      (hub : Hub) (rollapp : String) (os : List HubOrder) (x : Order)
      (p : IsPending hub rollapp os x)
      → (get_fee_amount p.source ≢ panic)
        × (is_fulfilled p.source ≡ p.source.deprecated_is_fulfilled)
  unfolding is_fulfilled
  pending_order hub rollapp os x p = (
    to_order-get_fee_amount [] p.height p.source x p.texts,
    rw ((eq_iff p.source.fulfiller_address "").1 p.free, is_fulfilled) refl,
  )
