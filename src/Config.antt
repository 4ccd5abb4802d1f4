-- ===== src/Config.antt =====
-- config/config.go: the settings that the modelled code reads. Durations are numbers.
pub mod Defaults
use eibc_client.Base.{ℕ, String, List, [], ◌∷◌, Bool, ◌||◌, str_eq}
use eibc_client.Base.Int.{ℤ}
use eibc_client.Base.Map.{Map}

pub record OrderPollingConfig : Type 0 where
  pub indexer_url : String
  pub interval : ℕ
  pub enabled : Bool

pub record GasConfig : Type 0 where
  pub prices : String
  pub fees : String

pub record FulfillerConfig : Type 0 where
  pub scale : ℤ
  pub operator_address : String
  pub policy_address : String
  pub keyring_backend : String
  pub keyring_dir : String
  pub max_orders_per_tx : ℤ

pub record OperatorConfig : Type 0 where
  pub account_name : String
  pub keyring_backend : String
  pub keyring_dir : String
  pub group_id : ℕ
  pub min_fee_share : String

pub record ValidationConfig : Type 0 where
  pub fallback_level : String
  pub wait_time : ℕ
  pub interval : ℕ

pub record RollappConfig : Type 0 where
  pub full_nodes : List String
  pub min_confirmations : ℤ

pub record Config : Type 0 where
  pub node_address : String
  pub gas : GasConfig
  pub order_polling : OrderPollingConfig
  pub rollapps : Map RollappConfig
  pub operator : OperatorConfig
  pub fulfillers : FulfillerConfig
  pub validation : ValidationConfig
  pub log_level : String

abbrev pub hub_address_prefix : String
hub_address_prefix = "dym"

abbrev pub pub_key_prefix : String
pub_key_prefix = "pub"

abbrev pub fulfiller_name_prefix : String
fulfiller_name_prefix = "bot-"

abbrev pub new_order_buffer_size : ℕ
new_order_buffer_size = 100

abbrev pub validation_mode_sequencer : String
validation_mode_sequencer = "sequencer"

abbrev pub validation_mode_p2p : String
validation_mode_p2p = "p2p"

abbrev pub validation_mode_settlement : String
validation_mode_settlement = "settlement"

-- `ValidationLevel.Validate`
unfoldable pub validate_level : String → Bool
validate_level f =
    str_eq f validation_mode_sequencer
    || str_eq f validation_mode_p2p
    || str_eq f validation_mode_settlement

pub record ClientConfig : Type 0 where
  pub home_dir : String
  pub node_address : String
  pub gas_fees : String
  pub gas_prices : String
  pub fee_granter : String
  pub keyring_backend : String

-- the options of `cosmosclient`, named as their constructors; the adjustment is a text, since it is
-- a constant
pub data ClientOption : Type 0 where
  with_address_prefix : String → ClientOption
  with_home : String → ClientOption
  with_node_address : String → ClientOption
  with_fees : String → ClientOption
  with_gas_auto : ClientOption
  with_gas_prices : String → ClientOption
  with_gas_adjustment : String → ClientOption
  with_keyring_backend : String → ClientOption
  with_keyring_dir : String → ClientOption
  with_fee_granter : String → ClientOption

-- `GetCosmosClientOptions`
unfoldable pub get_cosmos_client_options : ClientConfig → List ClientOption
get_cosmos_client_options c =
    with_address_prefix hub_address_prefix
    ∷ with_home c.home_dir
    ∷ with_node_address c.node_address
    ∷ with_fees c.gas_fees
    ∷ with_gas_auto
    ∷ with_gas_prices c.gas_prices
    ∷ with_gas_adjustment "1.3"
    ∷ with_keyring_backend c.keyring_backend
    ∷ with_keyring_dir c.home_dir
    ∷ with_fee_granter c.fee_granter
    ∷ []
