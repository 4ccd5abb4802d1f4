-- ===== src/Tracker/Intake.antt =====
-- What eibc/order_poller.go and eibc/order_eventer.go do alike with an order that they learn of.
pub mod Books
pub mod Exclusive
use eibc_client.Base.{
  ℕ, Bool, true, false, List, [], ◌∷◌, Option, none, some, String, Result, ok, err, panic,
  if◌then◌else◌,
}
use eibc_client.Lp.{Lp}
use eibc_client.Pool.{update, get_order, upsert_order}
use eibc_client.Sdk.{Sdk, Coin, Coins, Amount}
use eibc_client.Tracker.State.{OrderTracker, alloc, can_fulfill_order}
use eibc_client.Tracker.Selection.{find_lp_for_order}
use eibc_client.Types.{DemandOrder}

-- What became of a new order
pub data Offer : Type 0 where
  -- it is taken, and stands at the pointer
  taken : ℕ → Offer
  -- its rollapp is not supported, or it failed before
  refused : Offer
  -- no LP takes it
  no_lp : Offer

module _ ⦃S : Sdk⦄ where
  -- a tracked order is given its new fee and price
  unfoldable pub update_exist : ℕ → Coin Amount → Coins → OrderTracker → OrderTracker
  update_exist r fee price t =
      let h = update t.heap r (record (t.heap r) { fee = fee; price = price }) in
      record t { heap = h; pool = upsert_order h (r ∷ []) t.pool }

  -- the pointer that is kept of a new order, if it is taken
  unfoldable pub assign :
      (List Lp → List Lp) → DemandOrder → OrderTracker → Result (OrderTracker × Offer)
  unfolding find_lp_for_order alloc
  assign shuffle o t = elim (find_lp_for_order shuffle o t.lps) [
    | panic ↦ panic
    | err _ ↦ ok (t, no_lp)
    | ok (o', lps) ↦ let (t', r) = alloc o' (record t { lps = lps }) in ok (t', taken r)
  ]

  -- from `canFulfillOrder` on
  unfoldable pub offer :
      (List Lp → List Lp) → DemandOrder → OrderTracker → Result (OrderTracker × Offer)
  unfolding can_fulfill_order assign
  offer shuffle o t =
      let (can, t') = can_fulfill_order o t in if can then assign shuffle o t' else ok (t', refused)
