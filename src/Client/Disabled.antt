-- ===== src/Client/Disabled.antt =====
-- What `NewOrderClient` does with order polling disabled.
use eibc_client.Accounts.{add_fulfiller_accounts, received}
use eibc_client.Base.{
  ℕ, zero, suc, ◌≡◌, refl, Bool, true, false, List, String, ok, panic, ◌>>=◌, or_err, or_panic,
  get_elem?, >>=-eq-ok, >>=_panics,
}
use eibc_client.Base.Int.{pos_part}
use eibc_client.Client.{
  World, Setup, NewClient, setup_fulfiller, setup_fulfillers, send_setup, build, new_order_client,
  connected, assemble, no_setup, tracker_for,
}
use eibc_client.Config.{Config, get_cosmos_client_options}
use eibc_client.Finalizer.{new_finalizer}
use eibc_client.Fulfiller.{wrapped}
use eibc_client.Sdk.{Sdk}
use eibc_client.Startup.{
  get_full_node_clients, operator_client_cfg, fulfiller_client_cfg, get_hub_client,
}
use eibc_client.Tracker.State.{OrderTracker}
use eibc_client.Types.{Account}

-- the configuration with order polling enabled or disabled
abbrev pub with_polling : Bool → Config → Config
with_polling b cfg = record cfg { order_polling = record cfg.order_polling { enabled = b } }

module _ ⦃S : Sdk⦄ (w : World) (cfg : Config) where
  setup_fulfillers_same :
      (operator : String) (accs : List Account) (n i : ℕ) (s : Setup)
      → setup_fulfillers w (with_polling true cfg) operator accs n i s
        ≡ setup_fulfillers w (with_polling false cfg) operator accs n i s
  unfolding setup_fulfillers setup_fulfiller
  setup_fulfillers_same operator accs zero i s = refl
  setup_fulfillers_same operator accs (suc n) i s = λ j. or_panic (get_elem? accs i) >>= (λ acc.
      setup_fulfiller w (with_polling false cfg) operator i acc s
      >>= (λ s'. setup_fulfillers_same operator accs n (suc i) s' j))

  build_panics :
      (operator : String) (t : OrderTracker) (k : w.keyring.State) (r : w.keyring.State × NewClient)
      → build w (with_polling true cfg) operator t k ≡ ok r
      → build w (with_polling false cfg) operator t k ≡ panic
  unfolding build send_setup assemble new_finalizer
  build_panics operator t k r e =
      let on = with_polling true cfg in
      let n = pos_part cfg.fulfillers.scale in
      let (x, e1, r1) =
        >>=-eq-ok
          (add_fulfiller_accounts w.keyring (w.new_client 6) w.uuid n
            (fulfiller_client_cfg on operator) k)
          _ e in
      let (s, e2, r2) = >>=-eq-ok (setup_fulfillers w on operator x.1 n 0 no_setup) _ r1 in
      let (u, e3, r3) = >>=-eq-ok (send_setup w on operator s) _ r2 in
      >>=_panics _ _ x e1 (
        >>=_panics _ _ s (rw (setup_fulfillers_same operator x.1 n 0 no_setup) at e2)
          (>>=_panics _ _ u e3 refl))

  -- With order polling disabled, which is the default, `NewOrderClient` panics wherever it would
  -- make a client with order polling enabled: it has no poller to take the logger of the finalizer
  -- from.
  pub new_order_client_panics :
      (k : w.keyring.State) (r : w.keyring.State × NewClient)
      → new_order_client w (with_polling true cfg) k ≡ ok r
      → new_order_client w (with_polling false cfg) k ≡ panic
  unfolding new_order_client get_hub_client get_full_node_clients
  new_order_client_panics k r e =
      let on = with_polling true cfg in
      let (u, e1, r1) =
        >>=-eq-ok (connected (get_hub_client w.new_client on) "failed to create hub client: ") _
          e in
      let (node, e2, r2) =
        >>=-eq-ok (wrapped "failed to create full node clients: " (get_full_node_clients on)) _
          r1 in
      let (share, e3, r3) =
        >>=-eq-ok
          (or_err (w.dec_from_str cfg.operator.min_fee_share)
            "failed to parse min operator fee share")
          _ r2 in
      let (t, e4, r4) = >>=-eq-ok (tracker_for w on node share) _ r3 in
      let (v, e5, r5) =
        >>=-eq-ok
          (connected (w.new_client 5 (get_cosmos_client_options (operator_client_cfg on)))
            "failed to create cosmos client for fulfiller: ")
          _ r4 in
      let (operator, e6, r6) =
        >>=-eq-ok
          (wrapped "failed to get operator address: "
            (received (w.address cfg.operator.account_name)))
          _ r5 in
      >>=_panics _ _ u e1 (
        >>=_panics _ _ node e2 (
          >>=_panics _ _ share e3 (
            >>=_panics _ _ t e4
              (>>=_panics _ _ v e5 (>>=_panics _ _ operator e6 (build_panics operator t k r r6))))))
