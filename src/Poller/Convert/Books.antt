-- ===== src/Poller/Convert/Books.antt =====
-- What a round of polling does to the books of the LPs, and in which order it hands orders on.
use mathlib.Core.List.{Perm}
use eibc_client.Base.{
  ◌<◌, ◌^◌, ℕ, ◌≡◌, ◌≤◌, subst, List, [], ◌∷◌, Option, none, some, String, Result, ok,
  if◌then◌else◌, Option-cases, inl, inr, ok-injective, arith, >>=-eq-ok, All, ltb, ◌+◌,
}
use eibc_client.Base.Sort.{IsSorted, IsStrict, sort_slice, sort_slice-IsSorted, sort_slice-perm}
use eibc_client.Base.Text.{parse_uint, parse_uint_bound}
use eibc_client.Lp.{Lp}
use eibc_client.Poller.{Order, OrderPoller}
use eibc_client.Poller.Convert.{
  Parsed, parse_order, new_order, noted, lower_first, note_heights, convert_parsed, convert_order,
  convert_each, convert_orders, poll_pending_demand_orders,
}
use eibc_client.Poller.Convert.Stored.{pointers, convert_each-Stores}
use eibc_client.Pool.{Heap, get_order}
use eibc_client.Sdk.{Sdk}
use eibc_client.Sdk.Laws.{CoinLaws, DecLaws}
use eibc_client.Tracker.Intake.{Offer, taken, refused, no_lp, offer, update_exist}
use eibc_client.Tracker.Intake.Books.{offer-AreSolvent}
use eibc_client.Tracker.Selection.Choice.{IsShuffle}
use eibc_client.Tracker.Selection.Solvency.{AreSolvent}
use eibc_client.Tracker.State.{OrderTracker, track_orders}

module _ ⦃S : Sdk⦄ where
  lower_first-IsStrict : (h : Heap) → IsStrict (lower_first h)
  lower_first-IsStrict h = record {
    asym = λ a b e. ground arith;
    negative = λ a b c e k. ground arith;
  }

-- The block height that is remembered does not fall, and is at least that of every order that is
-- kept.
pub note_heights_max :
    (os : List Order) (last : ℕ)
    → (last ≤ (note_heights os last).0)
      × All
          (λ o. (n : ℕ) × (parse_uint o.block_height ≡ some n) × (n ≤ (note_heights os last).0))
          (note_heights os last).1
unfolding note_heights
note_heights_max [] last = (omega arith, tt)
note_heights_max (o ∷ os) last = elim (Option-cases (parse_uint o.block_height)) [
  | inl e ↦ rw (e, note_heights) (note_heights_max os last)
  | inr (n, e) ↦
      let next : ℕ = if ltb last n then n else last in
      let (up, kept) = note_heights_max os next in
      rw (e, note_heights) (ground arith, ((n, e, ground arith), kept))
]

-- It stays within 64 bits.
pub note_heights_bound :
    (os : List Order) (last : ℕ) → last < 2 ^ 64 → (note_heights os last).0 < 2 ^ 64
unfolding note_heights
note_heights_bound [] last b = b
note_heights_bound (o ∷ os) last b = elim (Option-cases (parse_uint o.block_height)) [
  | inl e ↦ rw (e, note_heights) (note_heights_bound os last b)
  | inr (n, e) ↦
      let next : ℕ = if ltb last n then n else last in
      rw (e, note_heights)
        (note_heights_bound os next (ground (arith, parse_uint_bound o.block_height n e)))
]

module _ ⦃S : Sdk⦄ (L : CoinLaws) (D : DecLaws) (now : String → ℕ)
    (shuffle : String → List Lp → List Lp) (mixes : (id : String) → IsShuffle (shuffle id)) where
  abbrev KeepsBooks : OrderPoller → Type 0
  KeepsBooks p = AreSolvent L p.order_tracker.lps

  noted-KeepsBooks :
      (id : String) (p : OrderPoller) (t : OrderTracker) (x : Offer)
      → AreSolvent L t.lps
      → KeepsBooks (noted id p t x).0
  noted-KeepsBooks id p t (taken r) h = h
  noted-KeepsBooks id p t refused h = h
  noted-KeepsBooks id p t no_lp h = h

  convert_parsed-KeepsBooks :
      (o : Order) (x : Parsed) (p p' : OrderPoller) (new : List ℕ)
      → KeepsBooks p
      → convert_parsed now shuffle o x p ≡ ok (p', new)
      → KeepsBooks p'
  unfolding convert_parsed update_exist
  convert_parsed-KeepsBooks o x p p' new h e =
      elim (Option-cases (get_order o.eibc_order_id p.order_tracker.pool)) [
        | inr (r, g) ↦ subst (λ q. KeepsBooks q.0) (ok-injective (rw (g, convert_parsed) at e)) h
        | inl g ↦
            let ((t, what), a, b) =
              >>=-eq-ok
                (offer (shuffle o.eibc_order_id)
                  (new_order o x (now o.eibc_order_id + p.order_tracker.wait_time)) p.order_tracker)
                _ (rw (g, convert_parsed) at e) in
            subst (λ q. KeepsBooks q.0) (ok-injective b)
              (noted-KeepsBooks o.eibc_order_id p t what (
                (offer-AreSolvent L D (shuffle o.eibc_order_id) (mixes o.eibc_order_id)
                    (new_order o x (now o.eibc_order_id + p.order_tracker.wait_time))
                    p.order_tracker h).1
                  t what a))
      ]

  convert_order-KeepsBooks :
      (o : Order) (p p' : OrderPoller) (new : List ℕ)
      → KeepsBooks p
      → convert_order now shuffle o p ≡ ok (p', new)
      → KeepsBooks p'
  unfolding convert_order
  convert_order-KeepsBooks o p p' new h e =
      let (parsed, a, b) = >>=-eq-ok (parse_order o) _ e in step parsed b
    where
      step :
          (parsed : Option Parsed)
          → ◌≡◌ {A = Result (OrderPoller × List ℕ)}
              (elim parsed [ none ↦ ok (p, []) | some x ↦ convert_parsed now shuffle o x p ])
              (ok (p', new))
          → KeepsBooks p'
      step none b = subst (λ q. KeepsBooks q.0) (ok-injective b) h
      step (some x) b = convert_parsed-KeepsBooks o x p p' new h b

  convert_each-KeepsBooks :
      (os : List Order) (p p' : OrderPoller) (new : List ℕ)
      → KeepsBooks p
      → convert_each now shuffle os p ≡ ok (p', new)
      → KeepsBooks p'
  unfolding convert_each
  convert_each-KeepsBooks [] p p' new h e = subst (λ q. KeepsBooks q.0) (ok-injective e) h
  convert_each-KeepsBooks (o ∷ os) p p' new h e =
      let ((p1, new1), a, e1) = >>=-eq-ok (convert_order now shuffle o p) _ e in
      let ((p2, later), b, e2) = >>=-eq-ok (convert_each now shuffle os p1) _ e1 in
      subst (λ q. KeepsBooks q.0) (ok-injective e2)
        (convert_each-KeepsBooks os p1 p2 later (convert_order-KeepsBooks o p p1 new1 h a) b)

  -- If every LP has at least what it has reserved, a conversion that returns hands on every order that
  -- it stored, each exactly once, with the lowest proof heights first, and every LP still has
  -- at least what it has reserved.
  pub convert_orders-IsSorted :
      (os : List Order) (p p' : OrderPoller) (sorted : List ℕ)
      → AreSolvent L p.order_tracker.lps
      → convert_orders now shuffle os p ≡ ok (p', sorted)
      → IsSorted (lower_first p'.order_tracker.heap) sorted
        × ((n : ℕ) × (p'.order_tracker.next ≡ n + p.order_tracker.next)
            × Perm sorted (pointers p.order_tracker.next n))
        × AreSolvent L p'.order_tracker.lps
  unfolding convert_orders
  convert_orders-IsSorted os p p' sorted h e =
      let ((q, new), a, b) = >>=-eq-ok (convert_each now shuffle os p) _ e in
      let (n, more, same) = convert_each-Stores now shuffle os p q new a in
      subst
        (λ z.
          IsSorted (lower_first z.0.order_tracker.heap) z.1
          × ((n : ℕ) × (z.0.order_tracker.next ≡ n + p.order_tracker.next)
              × Perm z.1 (pointers p.order_tracker.next n))
          × KeepsBooks z.0)
        (ok-injective b)
        (
          sort_slice-IsSorted (lower_first q.order_tracker.heap)
              (lower_first-IsStrict q.order_tracker.heap) new,
          (
            n,
            more,
            subst (Perm (sort_slice (lower_first q.order_tracker.heap) new)) same
                (sort_slice-perm (lower_first q.order_tracker.heap) new),
          ),
          convert_each-KeepsBooks os p q new h a,
        )

  -- If every LP has at least what it has reserved, then so it is after a round of polling that
  -- returns, whatever orders the hub lists and however they changed.
  pub poll_pending_demand_orders-AreSolvent :
      (get_orders : Result (List Order)) (p p' : OrderPoller)
      → AreSolvent L p.order_tracker.lps
      → poll_pending_demand_orders now shuffle get_orders p ≡ ok p'
      → AreSolvent L p'.order_tracker.lps
  unfolding poll_pending_demand_orders track_orders
  poll_pending_demand_orders-AreSolvent get_orders p p' h e =
      let (orders, a, e1) = >>=-eq-ok get_orders _ e in
      let (last, kept) = note_heights orders p.last_block_height in
      let ((q, new), b, e2) =
        >>=-eq-ok (convert_orders now shuffle kept (record p { last_block_height = last })) _ e1 in
      step new q ((convert_orders-IsSorted kept _ q new h b).2) e2
    where
      step :
          (new : List ℕ) (q : OrderPoller)
          → KeepsBooks q
          → (elim new [
            | [] ↦ ok q
            | r ∷ rs ↦ ok (record q { order_tracker = track_orders (r ∷ rs) q.order_tracker })
          ])
            ≡ ok p'
          → KeepsBooks p'
      step [] q k b = subst KeepsBooks (ok-injective b) k
      step (r ∷ rs) q k b = subst KeepsBooks (ok-injective b) k
