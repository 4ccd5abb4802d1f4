-- ===== src/Startup.antt =====
-- What runs once at the start: `retry` and `getFullNodeClients` of eibc/order_client.go, and the
-- members of the operator's group in eibc/account.go.
pub mod Modes
pub mod Members
use eibc_client.Base.{
  ℕ, Bool, true, false, ◌||◌, List, [], ◌∷◌, ◌++◌, Option, none, some, String, str_eq, Result, ok,
  err, panic, map, if◌then◌else◌, is_empty, suc, zero,
}
use eibc_client.Base.Text.{concat}
use eibc_client.Config.{
  Config, validation_mode_sequencer, ClientConfig, ClientOption, get_cosmos_client_options,
}
use eibc_client.Fulfiller.{wrapped}
use eibc_client.Node.{NodeClient, new_node_client}
use eibc_client.Types.{Account}

-- the loop of `retry`, over the results of the attempts that are allowed; `last` is `err`
unfoldable pub attempts_from : Option String → List (Option String) → Option String
attempts_from none [] = some "all retry attempts failed: %!w(<nil>)"
attempts_from (some last) [] = some (concat "all retry attempts failed: " last)
attempts_from last (none ∷ later) = none
attempts_from last (some e ∷ later) = attempts_from (some e) later

-- `retry`
unfoldable pub retry : List (Option String) → Option String
unfolding attempts_from
retry results = attempts_from none results

-- `getFullNodeClients`; the zero node client has no rollapps, and an empty map of heights where the
-- code has nil
unfoldable pub get_full_node_clients : Config → Result NodeClient
unfolding new_node_client
get_full_node_clients cfg =
    if str_eq cfg.validation.fallback_level validation_mode_sequencer
    then ok (record { rollapps = []; last_valid_height = [] })
    else wrapped "failed to create full node client: " (new_node_client cfg.rollapps)

-- `group.MemberRequest`
pub record MemberRequest : Type 0 where
  pub address : String
  pub weight : String

abbrev pub is_member : String → List MemberRequest → Bool
is_member address [] = false
is_member address (m ∷ ms) = str_eq m.address address || is_member address ms

-- the accounts that the loop over `newAccs` adds: those that were no members before
unfoldable pub members_to_add : List MemberRequest → List Account → List MemberRequest
members_to_add members [] = []
members_to_add members (a ∷ as_) =
    let rest = members_to_add members as_ in
    if is_member a.address members
    then rest
    else record { address = a.address; weight = "1" } ∷ rest

-- the update of `addFulfillersToGroup`, or `none` if there is nobody to add
unfoldable pub member_updates : List MemberRequest → List Account → Option (List MemberRequest)
unfolding members_to_add
member_updates members accounts =
    let added = members_to_add members accounts in
    if is_empty added then none else some (members ++ added)

-- the configuration of the client that the operator uses
abbrev pub operator_client_cfg : Config → ClientConfig
operator_client_cfg cfg = record {
  home_dir = cfg.operator.keyring_dir;
  node_address = cfg.node_address;
  gas_fees = cfg.gas.fees;
  gas_prices = cfg.gas.prices;
  fee_granter = "";
  keyring_backend = cfg.operator.keyring_backend;
}

-- the configuration of the clients of the fulfillers
abbrev pub fulfiller_client_cfg : Config → String → ClientConfig
fulfiller_client_cfg cfg granter = record {
  home_dir = cfg.fulfillers.keyring_dir;
  node_address = cfg.node_address;
  gas_fees = cfg.gas.fees;
  gas_prices = cfg.gas.prices;
  fee_granter = granter;
  keyring_backend = cfg.fulfillers.keyring_backend;
}

abbrev pub connect_attempts : ℕ
connect_attempts = 5

-- the results of `n` calls of `cosmosclient.New`, of which the first is the one with number `i`
attempts :
    (ℕ → List ClientOption → Option String) → List ClientOption → ℕ → ℕ → List (Option String)
attempts new_client options i zero = []
attempts new_client options i (suc n) = new_client i options ∷ attempts new_client options (suc i) n

-- `getHubClient`: the error, or `none` if there is a client
unfoldable pub get_hub_client : (ℕ → List ClientOption → Option String) → Config → Option String
unfolding retry get_cosmos_client_options attempts
get_hub_client new_client cfg =
    elim (retry (
      attempts new_client (get_cosmos_client_options (fulfiller_client_cfg cfg "")) 0
        connect_attempts)) [
          | none ↦ none
          | some e ↦ some (concat "failed to create cosmos client after retries: " e)
        ]
