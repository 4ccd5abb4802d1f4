-- ===== src/Client/Panics.antt =====
-- When `NewOrderClient` panics.
use text.Mathlib.Text.{get?}
use eibc_client.Accounts.{add_fulfiller_accounts, received, received_returns}
use eibc_client.Accounts.Chain.Returns.{
  account_exists_returns, has_fee_granted_returns, prime_accounts_returns,
  add_fee_grant_to_fulfiller_returns, add_fulfillers_to_group_returns,
}
use eibc_client.Accounts.Count.{add_fulfiller_accounts_returns, add_fulfiller_accounts-length}
use eibc_client.Base.{
  ℕ, zero, suc, ◌+◌, ◌≤◌, ◌<◌, ◌≡◌, ◌≢◌, Bool, true, false, ◌||◌, List, [], ◌∷◌, Option, none, some,
  String, str_eq, Result, ok, panic, >>=_returns, or_panic, or_panic-panic, or_err, or_err-panic,
  is_empty, get_elem?, length, Bool-cases, Option-cases, inl, inr, arith, if◌then◌else◌,
}
use eibc_client.Base.Int.{pos, pos_part}
use eibc_client.Base.Map.{Map}
use eibc_client.Client.{
  World, Setup, setup_fulfiller, setup_fulfillers, send_setup, build, new_order_client, decoded,
  connected, assemble, no_setup, tracker_for,
}
use eibc_client.Config.{Config, RollappConfig, get_cosmos_client_options, validation_mode_sequencer}
use eibc_client.Finalizer.{new_finalizer}
use eibc_client.Fulfiller.{wrapped, wrapped_returns}
use eibc_client.Node.{NodeClient, new_node_client, check_rollapps}
use eibc_client.Sdk.{Sdk, Decimal}
use eibc_client.Startup.{
  get_full_node_clients, operator_client_cfg, fulfiller_client_cfg, get_hub_client,
}
use eibc_client.Tracker.State.{OrderTracker, new_order_tracker}
use eibc_client.Types.{Account}

get_elem?-some : {A : Type 0} (xs : List A) (i : ℕ) → i < length xs → get_elem? xs i ≢ none
get_elem?-some [] i h e = absurd (omega arith)
get_elem?-some (x ∷ xs) zero h e = cc
get_elem?-some (x ∷ xs) (suc i) h e = get_elem?-some xs i (omega arith) e

connected_returns : (o : Option String) (text : String) → connected o text ≢ panic
connected_returns none text e = cc
connected_returns (some x) text e = cc

decoded_returns : (b : Bool) → decoded b ≢ panic
decoded_returns true e = cc
decoded_returns false e = cc

new_node_client_returns : (rollapps : Map RollappConfig) → new_node_client rollapps ≢ panic
unfolding new_node_client
new_node_client_returns rollapps e = elim (Option-cases (check_rollapps rollapps)) [
  | inl z ↦ cc (rw (z, new_node_client) at e)
  | inr (x, z) ↦ cc (rw (z, new_node_client) at e)
]

get_full_node_clients_returns : (cfg : Config) → get_full_node_clients cfg ≢ panic
unfolding get_full_node_clients
get_full_node_clients_returns cfg e =
    elim (Bool-cases (str_eq cfg.validation.fallback_level validation_mode_sequencer)) [
      | inl z ↦ cc (rw (z, get_full_node_clients) at e)
      | inr z ↦
          wrapped_returns "failed to create full node client: " (new_node_client cfg.rollapps)
            (new_node_client_returns cfg.rollapps) (rw (z, get_full_node_clients) at e)
    ]

module _ ⦃S : Sdk⦄ (w : World) (cfg : Config) where
  module _ (operator : String) where
    setup_fulfiller_returns :
        (i : ℕ) (acc : Account) (s : Setup) → setup_fulfiller w cfg operator i acc s ≢ panic
    unfolding setup_fulfiller
    setup_fulfiller_returns i acc s =
        >>=_returns _ _
          (wrapped_returns "failed to check if fulfiller account exists: " _
            (account_exists_returns w.chain acc.address))
          (λ exist h.
            >>=_returns _ _
              (wrapped_returns "failed to check if fee is granted: " _
                (has_fee_granted_returns w.chain operator acc.address))
              (λ granted h'.
                >>=_returns (decoded (granted || w.chain.is_bech32 acc.address)) _
                  (decoded_returns _)
                  (λ u h''.
                    >>=_returns
                      (connected
                        (w.new_client (7 + i)
                          (get_cosmos_client_options (fulfiller_client_cfg cfg operator)))
                        "failed to create cosmos client for fulfiller: ")
                      _ (connected_returns _ _) (λ v h3 e. cc))))

    setup_fulfillers_returns :
        (accs : List Account) (n i : ℕ) (s : Setup)
        → n + i ≤ length accs
        → setup_fulfillers w cfg operator accs n i s ≢ panic
    unfolding setup_fulfillers
    setup_fulfillers_returns accs zero i s h e = cc
    setup_fulfillers_returns accs (suc n) i s h e =
        >>=_returns (or_panic (get_elem? accs i)) _
          (λ p. get_elem?-some accs i (omega arith) (or_panic-panic _ p))
          (λ acc k.
            >>=_returns (setup_fulfiller w cfg operator i acc s) _ (setup_fulfiller_returns i acc s)
              (λ t k'. setup_fulfillers_returns accs n (suc i) t (omega arith)))
          e

    unless_empty_returns :
        {A : Type 0} (as_ : List String) (a : A) (r : Result A)
        → r ≢ panic
        → (if is_empty as_ then ok a else r) ≢ panic
    unless_empty_returns [] a r h e = cc
    unless_empty_returns (x ∷ as_) a r h e = h e

    module _ (coin : S.new_coin "adym" (S.new_int 1) ≢ none)
        (long : (n : ℕ) → get? (w.uuid n) 0 5 ≢ none)
        (enabled : cfg.order_polling.enabled ≡ true) where
      send_setup_returns : (s : Setup) → send_setup w cfg operator s ≢ panic
      unfolding send_setup
      send_setup_returns s =
          let name = cfg.operator.account_name in
          >>=_returns _ _
            (unless_empty_returns s.prime_addrs tt _ (
              wrapped_returns "failed to prime fulfiller account: " _
                (prime_accounts_returns w.chain name operator s.prime_addrs coin)))
            (λ primed h.
              >>=_returns _ _
                (unless_empty_returns s.grantee_addrs tt _ (
                  wrapped_returns "failed to add grant to fulfiller: " _
                    (add_fee_grant_to_fulfiller_returns w.chain name operator s.grantee_addrs)))
                (λ granted h'.
                  add_fulfillers_to_group_returns w.chain name operator cfg.operator.group_id
                    s.active_accs))

      assemble_returns : (t : OrderTracker) (s : Setup) → assemble w cfg operator t s ≢ panic
      unfolding assemble new_finalizer
      assemble_returns t s e = cc (rw (enabled, new_finalizer) at e)

      build_returns : (t : OrderTracker) (k : w.keyring.State) → build w cfg operator t k ≢ panic
      unfolding build
      build_returns t k =
          >>=_returns
            (add_fulfiller_accounts w.keyring (w.new_client 6) w.uuid
              (pos_part cfg.fulfillers.scale) (fulfiller_client_cfg cfg operator) k)
            _ (add_fulfiller_accounts_returns w.keyring w.uuid long (w.new_client 6) _ _ k)
            (λ x h.
              let (_, found, created, _, _, _, count, _) =
                add_fulfiller_accounts-length w.keyring (w.new_client 6) w.uuid
                  (pos_part cfg.fulfillers.scale) (fulfiller_client_cfg cfg operator) k x.0 x.1 h in
              >>=_returns
                (setup_fulfillers w cfg operator x.1 (pos_part cfg.fulfillers.scale) 0 no_setup) _
                (setup_fulfillers_returns x.1 (pos_part cfg.fulfillers.scale) 0 no_setup
                  (ground (arith, count)))
                (λ s h'.
                  >>=_returns (send_setup w cfg operator s) _ (send_setup_returns s) (λ sent h''.
                    >>=_returns (assemble w cfg operator t s) _ (assemble_returns t s)
                      (λ c h3 e. cc))))

  tracker_for_returns :
      (n : ℕ) (node : NodeClient) (share : Decimal)
      → cfg.fulfillers.scale ≡ pos n
      → tracker_for w cfg node share ≢ panic
  unfolding new_order_tracker
  tracker_for_returns n node share h e = cc (rw (h, new_order_tracker) at e)

  -- With order polling enabled and a scale that is not negative, `NewOrderClient` never panics, if a
  -- coin of one "adym" can be made and the identifiers that are drawn have five characters: in
  -- particular the loop never reads behind the accounts.
  pub new_order_client_returns :
      (k : w.keyring.State) (n : ℕ)
      → S.new_coin "adym" (S.new_int 1) ≢ none
      → ((n : ℕ) → get? (w.uuid n) 0 5 ≢ none)
      → cfg.fulfillers.scale ≡ pos n
      → cfg.order_polling.enabled ≡ true
      → new_order_client w cfg k ≢ panic
  unfolding new_order_client
  new_order_client_returns k n coin long scale enabled =
      >>=_returns (connected (get_hub_client w.new_client cfg) "failed to create hub client: ") _
        (connected_returns _ _)
        (λ u h1.
          >>=_returns (wrapped "failed to create full node clients: " (get_full_node_clients cfg)) _
            (wrapped_returns "failed to create full node clients: " _
              (get_full_node_clients_returns cfg))
            (λ node h2.
              >>=_returns
                (or_err (w.dec_from_str cfg.operator.min_fee_share)
                  "failed to parse min operator fee share")
                _ (or_err-panic _ _)
                (λ share h3.
                  >>=_returns (tracker_for w cfg node share) _
                    (tracker_for_returns n node share scale)
                    (λ t h6.
                      >>=_returns
                        (connected
                          (w.new_client 5 (get_cosmos_client_options (operator_client_cfg cfg)))
                          "failed to create cosmos client for fulfiller: ")
                        _ (connected_returns _ _)
                        (λ v h4.
                          >>=_returns
                            (wrapped "failed to get operator address: "
                              (received (w.address cfg.operator.account_name)))
                            _
                            (wrapped_returns "failed to get operator address: " _
                              (received_returns _))
                            (λ operator h5. build_returns operator coin long enabled t k))))))
