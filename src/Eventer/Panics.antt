-- ===== src/Eventer/Panics.antt =====
-- A message of events whose lists of values are as long as the list of its orders does not panic.
use eibc_client.Base.{
  ℕ, suc, ◌≢◌, ◌≤◌, ◌<◌, List, [], ◌∷◌, none, some, String, ok, panic, Bool-cases, Option-cases,
  inl, inr, arith, str_eq, ◌>>=◌, >>=-eq-panic, or_panic, get_elem?, ◌+◌, length,
}
use eibc_client.Base.Text.{parse_int}
use eibc_client.Eventer.{
  Events, EventOrder, event_order, values, value_at, fee_field, parse_event, order_of, take_new,
  take_event, one_event, each_event, parse_orders_from_events, enqueue_event_orders,
  updated_fee_event,
}
use eibc_client.Eventer.Books.{one_event-AreSolvent}
use eibc_client.Lp.{Lp}
use eibc_client.Pool.{get_order}
use eibc_client.Sdk.{Sdk, Coins}
use eibc_client.Sdk.Laws.{CoinLaws, DecLaws}
use eibc_client.Tracker.Intake.{offer}
use eibc_client.Tracker.Intake.Books.{offer-AreSolvent}
use eibc_client.Tracker.Selection.Choice.{IsShuffle}
use eibc_client.Tracker.Selection.Solvency.{AreSolvent}
use eibc_client.Tracker.State.{OrderTracker}

-- Each list of values that is read has at least `n` of them.
pub record AreLong (events : Events) (name : String) (n : ℕ) : Type 0 where
  pub prices : n ≤ length (values events name ".price")
  pub fees : n ≤ length (values events name (fee_field name))
  pub amounts : n ≤ length (values events name ".amount")
  pub proof_heights : n ≤ length (values events name ".proof_height")
  pub rollapps : n ≤ length (values events name ".rollapp_id")

get_elem?-some :
    {A : Type 0} (xs : List A) (i : ℕ) → i < length xs → or_panic (get_elem? xs i) ≢ panic
get_elem?-some [] i h e = omega arith
get_elem?-some (x ∷ xs) ℕ.zero h e = cc
get_elem?-some (x ∷ xs) (suc i) h e = get_elem?-some xs i (omega arith) e

module _ ⦃S : Sdk⦄ (events : Events) (name : String) (n i : ℕ) (long : AreLong events name n)
    (inside : i < n) where
  found_at :
      (field : String)
      → n ≤ length (values events name field)
      → value_at events name field i ≢ panic
  found_at field h = get_elem?-some (values events name field) i (omega arith)

  amount_returns :
      (price : Coins) (fee_text amount_text : String)
      → (elim (S.new_int_from_string amount_text) [
        | none ↦ ok none
        | some amount ↦ elim (S.parse_coin fee_text) [
          | none ↦ ok none
          | some fee ↦ do
            height ← value_at events name ".proof_height" i
            ok (event_order price amount fee (parse_int height))
        ]
      ])
        ≢ panic
  amount_returns price fee_text amount_text e =
      elim (Option-cases (S.new_int_from_string amount_text)) [
        | inl a ↦ cc (rw a at e)
        | inr (amount, a) ↦ elim (Option-cases (S.parse_coin fee_text)) [
          | inl f ↦ cc (rw (a, f) at e)
          | inr (fee, f) ↦
              elim (>>=-eq-panic (value_at events name ".proof_height" i) _ (rw (a, f) at e)) [
                | inl x ↦ found_at ".proof_height" long.proof_heights x
                | inr (_, _, e1) ↦ cc e1
              ]
        ]
      ]

  parse_event_returns : parse_event events name i ≢ panic
  unfolding parse_event
  parse_event_returns e = elim (>>=-eq-panic (value_at events name ".price" i) _ e) [
    | inl x ↦ found_at ".price" long.prices x
    | inr (price, _, e1) ↦ elim (Option-cases (S.parse_coins price)) [
      | inl p ↦ cc (rw p at e1)
      | inr (coins, p) ↦
          elim (>>=-eq-panic (value_at events name (fee_field name) i) _ (rw p at e1)) [
            | inl x ↦ found_at (fee_field name) long.fees x
            | inr (fee, _, e2) ↦ elim (Bool-cases (str_eq fee "")) [
              | inl z ↦ cc (rw z at e2)
              | inr z ↦ elim (>>=-eq-panic (value_at events name ".amount" i) _ (rw z at e2)) [
                | inl x ↦ found_at ".amount" long.amounts x
                | inr (amount, _, e3) ↦ amount_returns coins fee amount e3
              ]
            ]
          ]
    ]
  ]

module _ ⦃S : Sdk⦄ (L : CoinLaws) (D : DecLaws) (now : String → ℕ)
    (shuffle : String → List Lp → List Lp) (mixes : (id : String) → IsShuffle (shuffle id))
    (events : Events) (name : String) (n : ℕ) (long : AreLong events name n) where
  take_new_returns :
      (id : String) (i : ℕ) (x : EventOrder) (t : OrderTracker)
      → i < n
      → AreSolvent L t.lps
      → take_new now shuffle events name id i x t ≢ panic
  unfolding take_new
  take_new_returns id i x t inside h e =
      elim (>>=-eq-panic (value_at events name ".rollapp_id" i) _ e) [
        | inl y ↦ found_at events name n i long inside ".rollapp_id" long.rollapps y
        | inr (rollapp_id, _, e1) ↦
            let o = order_of id rollapp_id x (now id + t.wait_time) in
            elim (>>=-eq-panic (offer (shuffle id) o t) _ e1) [
              | inl y ↦ (offer-AreSolvent L D (shuffle id) (mixes id) o t h).0 y
              | inr (_, _, e2) ↦ cc e2
            ]
      ]

  take_event_returns :
      (id : String) (i : ℕ) (x : EventOrder) (t : OrderTracker)
      → i < n
      → AreSolvent L t.lps
      → take_event now shuffle events name id i x t ≢ panic
  unfolding take_event
  take_event_returns id i x t inside h e = elim (Bool-cases (str_eq name updated_fee_event)) [
    | inr y ↦ take_new_returns id i x t inside h (rw (y, take_event) at e)
    | inl y ↦ elim (Option-cases (get_order id t.pool)) [
      | inl g ↦ take_new_returns id i x t inside h (rw (y, take_event, g) at e)
      | inr (r, g) ↦ cc (rw (y, take_event, g) at e)
    ]
  ]

  one_event_returns :
      (id : String) (i : ℕ) (t : OrderTracker)
      → i < n
      → AreSolvent L t.lps
      → one_event now shuffle events name id i t ≢ panic
  unfolding one_event
  one_event_returns id i t inside h e = elim (>>=-eq-panic (parse_event events name i) _ e) [
    | inl y ↦ parse_event_returns events name n i long inside y
    | inr (none, _, e1) ↦ cc e1
    | inr (some x, _, e1) ↦ take_event_returns id i x t inside h e1
  ]

  each_event_returns :
      (ids : List String) (i : ℕ) (t : OrderTracker)
      → i + length ids ≤ n
      → AreSolvent L t.lps
      → each_event now shuffle events name ids i t ≢ panic
  unfolding each_event
  each_event_returns [] i t fits h e = cc e
  each_event_returns (id ∷ ids) i t fits h e =
      elim (>>=-eq-panic (one_event now shuffle events name id i t) _ e) [
        | inl y ↦ one_event_returns id i t (omega arith) h y
        | inr ((t1, new), a, e1) ↦
            elim (>>=-eq-panic (each_event now shuffle events name ids (suc i) t1) _ e1) [
              | inl y ↦
                  each_event_returns ids (suc i) t1 (omega arith)
                    (one_event-AreSolvent L D now shuffle mixes events name id i t t1 new h a) y
              | inr (_, _, e2) ↦ cc e2
            ]
      ]

module _ ⦃S : Sdk⦄ where
  -- A message of events does not panic if each list of its values that is read is as long as the
  -- list of its orders, and every LP has at least what it has reserved.
  pub enqueue_event_orders_returns :
      (L : CoinLaws) (D : DecLaws) (now : String → ℕ) (shuffle : String → List Lp → List Lp)
      (mixes : (id : String) → IsShuffle (shuffle id)) (name : String) (events : Events)
      (t : OrderTracker)
      → AreLong events name (length (values events name ".order_id"))
      → AreSolvent L t.lps
      → enqueue_event_orders now shuffle name events t ≢ panic
  unfolding enqueue_event_orders parse_orders_from_events
  enqueue_event_orders_returns L D now shuffle mixes name events t long h e =
      elim (>>=-eq-panic (parse_orders_from_events now shuffle name events t) _ e) [
        | inl y ↦
            each_event_returns L D now shuffle mixes events name
              (length (values events name ".order_id")) long (values events name ".order_id") 0 t
              (omega arith) h y
        | inr ((u, []), _, e1) ↦ cc e1
        | inr ((u, r ∷ rs), _, e1) ↦ cc e1
      ]
