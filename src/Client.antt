-- ===== src/Client.antt =====
-- eibc/order_client.go: `NewOrderClient` and `getHubClient`, with the constructors that it calls. The
-- other programs and libraries that it calls are arguments.
pub mod Ready
pub mod Sent
pub mod Start
pub mod Panics
pub mod Disabled
use eibc_client.Accounts.{Keyring, Reply, received, add_fulfiller_accounts}
use eibc_client.Accounts.Chain.{
  AccountChain, AccountMsg, account_exists, has_fee_granted, prime_accounts,
  add_fee_grant_to_fulfiller, add_fulfillers_to_group,
}
use eibc_client.Base.{
  ℕ, zero, suc, ◌+◌, Bool, true, false, ◌||◌, List, [], ◌∷◌, ◌++◌, Option, none, some, String, map,
  if◌then◌else◌, Result, ok, err, panic, ◌>>=◌, or_panic, or_err, is_empty, get_elem?,
}
use eibc_client.Base.Int.{ℤ, pos_part}
use eibc_client.Base.Map.{Map, insert}
use eibc_client.Base.Text.{concat}
use eibc_client.Config.{
  Config, ClientConfig, ClientOption, OrderPollingConfig, get_cosmos_client_options,
}
use eibc_client.Finalizer.{OrderFinalizer, new_finalizer}
use eibc_client.Fulfiller.{OrderFulfiller, wrapped, new_order_fulfiller}
use eibc_client.Node.{NodeClient}
use eibc_client.Poller.{OrderPoller, new_order_poller}
use eibc_client.Pool.{Heap, empty_pool}
use eibc_client.Sdk.{Sdk, Decimal}
use eibc_client.Startup.{
  attempts_from, retry, get_full_node_clients, operator_client_cfg, fulfiller_client_cfg,
  get_hub_client,
}
use eibc_client.Tracker.State.{OrderTracker, new_order_tracker}
use eibc_client.Types.{Account}

abbrev connected : Option String → String → Result (Unit {0})
connected none text = ok tt
connected (some e) text = err (concat text e)

-- whether an account's address needs no decoding or is decoded
abbrev decoded : Bool → Result (Unit {0})
decoded true = ok tt
decoded false = err "failed to decode fulfiller address"

module _ ⦃S : Sdk⦄ where
  -- What `NewOrderClient` asks: the error of the numbered call of `cosmosclient.New`, the chain
  -- identifier that the client of the hub has, `Client.Address` of an account name,
  -- `math.LegacyNewDecFromStr`, the keyring of the fulfillers, the random identifiers, the chain,
  -- and the memory before any order is stored.
  pub record World : Type 1 where
    pub new_client : ℕ → List ClientOption → Option String
    pub chain_id : String
    pub address : String → Reply String
    pub dec_from_str : String → Option Decimal
    pub keyring : Keyring
    pub uuid : ℕ → String
    pub chain : AccountChain
    pub memory : Heap

  -- the variables of the loop over the accounts
  pub record Setup : Type 0 where
    pub fulfillers : Map OrderFulfiller
    pub active_accs : List Account
    pub grantee_addrs : List String
    pub prime_addrs : List String

  abbrev pub no_setup : Setup
  no_setup = record { fulfillers = []; active_accs = []; grantee_addrs = []; prime_addrs = [] }

  -- `orderClient`, with `activeAccs`
  pub record NewClient : Type 0 where
    pub setup : Setup
    pub order_poller : Option OrderPoller
    pub order_tracker : OrderTracker
    pub order_finalizer : OrderFinalizer

  abbrev when_absent : Bool → String → List String → List String
  when_absent true a as_ = as_
  when_absent false a as_ = as_ ++ a ∷ []

  -- the tracker
  abbrev pub tracker_for : World → Config → NodeClient → Decimal → Result OrderTracker
  tracker_for w cfg node share =
      new_order_tracker w.memory cfg.fulfillers.policy_address share node cfg.fulfillers.scale
        cfg.fulfillers.max_orders_per_tx cfg.validation.wait_time

  module _ (w : World) (cfg : Config) (operator : String) where
    -- the variables after the body of the loop, for an account that exists or not and that has a
    -- grant or not
    abbrev pub with_account : Account → Bool → Bool → Setup → Setup
    with_account acc exist has_grant s = record {
      fulfillers =
          insert acc.name
            (new_order_fulfiller acc operator cfg.fulfillers.policy_address
              (pos_part cfg.fulfillers.max_orders_per_tx))
            s.fulfillers;
      active_accs = s.active_accs ++ acc ∷ [];
      grantee_addrs = when_absent has_grant acc.address s.grantee_addrs;
      prime_addrs = when_absent exist acc.address s.prime_addrs;
    }

    -- the body of the loop, for the account with index `i`
    unfoldable pub setup_fulfiller : ℕ → Account → Setup → Result Setup
    unfolding account_exists has_fee_granted get_cosmos_client_options
    setup_fulfiller i acc s = do
      exist ←
          wrapped "failed to check if fulfiller account exists: "
            (account_exists w.chain acc.address)
      has_grant ←
          wrapped "failed to check if fee is granted: "
            (has_fee_granted w.chain operator acc.address)
      _ ← decoded (has_grant || w.chain.is_bech32 acc.address)
      _ ←
          connected
            (w.new_client (7 + i) (get_cosmos_client_options (fulfiller_client_cfg cfg operator)))
            "failed to create cosmos client for fulfiller: "
      ok (with_account acc exist has_grant s)

    -- the loop, for `n` accounts from index `i` on
    unfoldable pub setup_fulfillers : List Account → ℕ → ℕ → Setup → Result Setup
    unfolding setup_fulfiller
    setup_fulfillers accs zero i s = ok s
    setup_fulfillers accs (suc n) i s = do
      acc ← or_panic (get_elem? accs i)
      s' ← setup_fulfiller i acc s
      setup_fulfillers accs n (suc i) s'

    -- what is sent to the chain after the loop
    unfoldable pub send_setup : Setup → Result (Unit {0})
    unfolding prime_accounts add_fee_grant_to_fulfiller add_fulfillers_to_group
    send_setup s = do
      _ ←
          if is_empty s.prime_addrs
          then ok tt
          else wrapped "failed to prime fulfiller account: "
              (prime_accounts w.chain cfg.operator.account_name operator s.prime_addrs)
      _ ←
          if is_empty s.grantee_addrs
          then ok tt
          else wrapped "failed to add grant to fulfiller: " (
              add_fee_grant_to_fulfiller w.chain cfg.operator.account_name operator s.grantee_addrs)
      add_fulfillers_to_group w.chain cfg.operator.account_name operator cfg.operator.group_id
          s.active_accs

    -- the poller if polling is enabled
    abbrev pub poller_for : OrderTracker → Option OrderPoller
    poller_for tracker =
        if cfg.order_polling.enabled
        then some (
            new_order_poller w.chain_id tracker cfg.order_polling (map (λ r. r.0) cfg.rollapps)
              operator)
        else none

    -- the client, with the finalizer that is made last
    unfoldable pub assemble : OrderTracker → Setup → Result NewClient
    unfolding new_finalizer
    assemble tracker s = do
      finalizer ← new_finalizer cfg.operator.account_name operator (poller_for tracker)
      ok (record {
        setup = s;
        order_poller = poller_for tracker;
        order_tracker = tracker;
        order_finalizer = finalizer;
      })

    -- The part of `NewOrderClient` after the operator's address is known. A negative scale, which
    -- does not come here, would make no accounts, as 0 does.
    unfoldable pub build : OrderTracker → w.keyring.State → Result (w.keyring.State × NewClient)
    unfolding add_fulfiller_accounts setup_fulfillers send_setup assemble
    build tracker k = do
      (k', accs) ←
          add_fulfiller_accounts w.keyring (w.new_client 6) w.uuid (pos_part cfg.fulfillers.scale)
            (fulfiller_client_cfg cfg operator) k
      s ← setup_fulfillers accs (pos_part cfg.fulfillers.scale) 0 no_setup
      _ ← send_setup s
      c ← assemble tracker s
      ok (k', c)

  -- `NewOrderClient`
  unfoldable pub new_order_client :
      (w : World) → Config → w.keyring.State → Result (w.keyring.State × NewClient)
  unfolding get_hub_client get_full_node_clients new_order_tracker build get_cosmos_client_options
  new_order_client w cfg k = do
    _ ← connected (get_hub_client w.new_client cfg) "failed to create hub client: "
    node ← wrapped "failed to create full node clients: " (get_full_node_clients cfg)
    share ←
        or_err (w.dec_from_str cfg.operator.min_fee_share) "failed to parse min operator fee share"
    tracker ← tracker_for w cfg node share
    _ ←
        connected (w.new_client 5 (get_cosmos_client_options (operator_client_cfg cfg)))
          "failed to create cosmos client for fulfiller: "
    operator ←
        wrapped "failed to get operator address: " (received (w.address cfg.operator.account_name))
    build w cfg operator tracker k
