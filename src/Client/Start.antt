-- ===== src/Client/Start.antt =====
-- What holds when `NewOrderClient` returns, and when it panics.
use mathlib.Core.Option.{some-injective}
use eibc_client.Accounts.{add_fulfiller_accounts, reply, received, received-ok}
use eibc_client.Base.{
  ◌≡◌, refl, ap, sym, ◌∙◌, subst, true, [], some, String, ok, >>=-eq-ok, ok-injective, or_err,
  length, All, Bool-cases, inl, inr, arith,
}
use eibc_client.Base.Int.{pos, pos_part, ℤ-cases}
use eibc_client.Client.{
  World, Setup, NewClient, setup_fulfillers, send_setup, build, new_order_client, connected,
  assemble, no_setup, tracker_for,
}
use eibc_client.Client.Ready.{setup_fulfillers-IsSetUp}
use eibc_client.Config.{Config, get_cosmos_client_options}
use eibc_client.Finalizer.{new_finalizer}
use eibc_client.Fulfiller.{wrapped, wrapped-ok}
use eibc_client.Node.{NodeClient}
use eibc_client.Poller.{OrderPoller}
use eibc_client.Pool.{empty_pool}
use eibc_client.Tracker.State.{OrderTracker, new_order_tracker}
use eibc_client.Sdk.{Sdk, Decimal}
use eibc_client.Startup.{
  get_full_node_clients, operator_client_cfg, fulfiller_client_cfg, get_hub_client,
}
use eibc_client.Client.Sent.{IsReady, send_setup-IsReady}

module _ ⦃S : Sdk⦄ where
  -- There are no LPs and no orders yet.
  abbrev pub IsFresh : OrderTracker → Type 0
  IsFresh t =
      (t.lps ≡ []) × (t.pool ≡ empty_pool) × (t.to_check_orders ≡ []) × (t.output_orders ≡ [])

  -- The tracker counts the fulfillers and limits a transaction as the configuration says.
  abbrev pub IsSized : Config → OrderTracker → Type 0
  IsSized cfg t =
      (pos t.num_fulfillers ≡ cfg.fulfillers.scale)
      × (t.max_orders_per_tx ≡ pos_part cfg.fulfillers.max_orders_per_tx)

module _ ⦃S : Sdk⦄ (w : World) (cfg : Config) (operator : String) where
  tracker_for-IsFresh :
      (node : NodeClient) (share : Decimal) (t : OrderTracker)
      → tracker_for w cfg node share ≡ ok t
      → IsFresh t × IsSized cfg t
  unfolding new_order_tracker
  tracker_for-IsFresh node share t e = elim (ℤ-cases cfg.fulfillers.scale) [
    | inl (n, z) ↦
        subst (λ x. IsFresh x × IsSized cfg x) (ok-injective (rw (z, new_order_tracker) at e))
          ((refl, refl, refl, refl), (sym z, refl))
    | inr (n, z) ↦ absurd (cc (rw (z, new_order_tracker) at e))
  ]

  -- what is assembled has a poller, which has the tracker
  AreAssembled : OrderTracker → Setup → NewClient → Type 0
  AreAssembled t s c =
      (c.setup ≡ s)
      × (cfg.order_polling.enabled ≡ true)
      × ((p : OrderPoller) × (c.order_poller ≡ some p) × (p.order_tracker ≡ t))

  assemble-AreAssembled :
      (t : OrderTracker) (s : Setup) (c : NewClient)
      → assemble w cfg operator t s ≡ ok c
      → AreAssembled t s c
  unfolding assemble AreAssembled new_finalizer
  assemble-AreAssembled t s c e = elim (Bool-cases cfg.order_polling.enabled) [
    | inr z ↦ absurd (cc (rw (z, new_finalizer) at e))
    | inl z ↦
        subst (AreAssembled t s) (ok-injective (rw (z, new_finalizer) at e))
          (refl, z, (_, refl, refl))
  ]

  -- Each of the accounts, as many as the configuration asks for, is ready, order polling is enabled,
  -- and the client has a poller whose tracker knows no LP and no order, and has the sizes
  -- of the configuration.
  abbrev pub IsStarted : NewClient → Type 0
  IsStarted c =
      All (IsReady w cfg operator c.setup) c.setup.active_accs
      × (pos (length c.setup.active_accs) ≡ cfg.fulfillers.scale)
      × (cfg.order_polling.enabled ≡ true)
      × ((p : OrderPoller) × (c.order_poller ≡ some p)
          × IsFresh p.order_tracker
          × IsSized cfg p.order_tracker)

  build-IsStarted :
      (t : OrderTracker) (k k' : w.keyring.State) (c : NewClient)
      → IsFresh t × IsSized cfg t
      → build w cfg operator t k ≡ ok (k', c)
      → IsStarted c
  unfolding build AreAssembled
  build-IsStarted t k k' c (fresh, sized) e =
      let n = pos_part cfg.fulfillers.scale in
      let ((k1, accs), _, r1) =
        >>=-eq-ok
          (add_fulfiller_accounts w.keyring (w.new_client 6) w.uuid n
            (fulfiller_client_cfg cfg operator) k)
          _ e in
      let (s, e2, r2) = >>=-eq-ok (setup_fulfillers w cfg operator accs n 0 no_setup) _ r1 in
      let (u, e3, r3) = >>=-eq-ok (send_setup w cfg operator s) _ r2 in
      let (d, e4, r4) = >>=-eq-ok (assemble w cfg operator t s) _ r3 in
      let (set, count) = setup_fulfillers-IsSetUp w cfg operator accs n 0 no_setup s e2 tt in
      let (same_setup, enabled, (p, there, same_tracker)) = assemble-AreAssembled t s d e4 in
      let ready = send_setup-IsReady w cfg operator s u e3 set in
      let is_n : n ≡ t.num_fulfillers = ap pos_part (sym sized.0) in
      let counted : length s.active_accs ≡ t.num_fulfillers = count ∙ omega (arith, is_n) in
      let (fresh', sized') =
        subst (λ x. IsFresh x × IsSized cfg x) (sym same_tracker) (fresh, sized) in
      subst IsStarted (ap (λ z. z.1) (ok-injective r4))
        (rw same_setup (ready, ap pos counted ∙ sized.0, enabled, (p, there, fresh', sized')))

module _ ⦃S : Sdk⦄ where
  pub new_order_client-IsStarted :
      (w : World) (cfg : Config) (k k' : w.keyring.State) (c : NewClient)
      → new_order_client w cfg k ≡ ok (k', c)
      → (operator : String) × (w.address cfg.operator.account_name ≡ reply operator)
        × IsStarted w cfg operator c
  unfolding new_order_client
  new_order_client-IsStarted w cfg k k' c e =
      let (_, _, r1) =
        >>=-eq-ok (connected (get_hub_client w.new_client cfg) "failed to create hub client: ") _
          e in
      let (node, _, r2) =
        >>=-eq-ok (wrapped "failed to create full node clients: " (get_full_node_clients cfg)) _
          r1 in
      let (share, _, r3) =
        >>=-eq-ok
          (or_err (w.dec_from_str cfg.operator.min_fee_share)
            "failed to parse min operator fee share")
          _ r2 in
      let (t, e6, r6) = >>=-eq-ok (tracker_for w cfg node share) _ r3 in
      let (_, _, r4) =
        >>=-eq-ok
          (connected (w.new_client 5 (get_cosmos_client_options (operator_client_cfg cfg)))
            "failed to create cosmos client for fulfiller: ")
          _ r6 in
      let (operator, e5, r5) =
        >>=-eq-ok
          (wrapped "failed to get operator address: "
            (received (w.address cfg.operator.account_name)))
          _ r4 in
      (
        operator,
        received-ok _ operator (wrapped-ok "failed to get operator address: " _ operator e5),
        build-IsStarted w cfg operator t k k' c (tracker_for-IsFresh w cfg operator node share t e6)
            r5,
      )

  -- The poller of a client that was made has a fresh tracker.
  pub new_order_client-IsFresh :
      (w : World) (cfg : Config) (k k' : w.keyring.State) (c : NewClient) (p : OrderPoller)
      → new_order_client w cfg k ≡ ok (k', c)
      → c.order_poller ≡ some p
      → IsFresh p.order_tracker × IsSized cfg p.order_tracker
  new_order_client-IsFresh w cfg k k' c p made has =
      let (_, _, started) = new_order_client-IsStarted w cfg k k' c made in
      let (q, there, fresh, sized) = started.3 in
      subst (λ x. IsFresh x.order_tracker × IsSized cfg x.order_tracker)
        (some-injective q p (sym there ∙ has)) (fresh, sized)
