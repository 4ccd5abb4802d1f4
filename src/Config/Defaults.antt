-- ===== src/Config/Defaults.antt =====
-- config/config.go, `InitConfig`. The state of viper and its operations are a parameter.
use eibc_client.Base.{
  ℕ, Bool, false, List, [], ◌∷◌, Option, none, some, String, Result, ok, err, str_eq, if◌then◌else◌,
}
use eibc_client.Base.Int.{ℤ, pos}
use eibc_client.Base.Text.{concat}
use eibc_client.Config.{validation_mode_p2p}

-- What a setting may be. A duration is in seconds, and a fraction is its text.
pub data Setting : Type 0 where
  text : String → Setting
  texts : List String → Setting
  flag : Bool → Setting
  whole : ℤ → Setting
  fraction : String → Setting
  seconds : ℕ → Setting

-- viper: settings by dotted keys, and where the configuration file is looked for
pub record Viper : Type 1 where
  pub State : Type 0
  pub set_default : String → Setting → State → State
  pub set_config_type : String → State → State
  pub set_config_file : String → State → State
  pub add_config_path : String → State → State
  pub set_config_name : String → State → State

abbrev pub default_hub_denom : String
default_hub_denom = "adym"

-- the calls of `viper.SetDefault`, in their order
abbrev pub defaults : String → List (String × Setting)
defaults home =
    ("log_level", text "info")
    ∷ ("node_address", text "http://localhost:36657")
    ∷ ("order_polling.interval", text "<indexer_url>")
    ∷ ("order_polling.interval", seconds 30)
    ∷ ("order_polling.enabled", flag false)
    ∷ ("gas.fees", text (concat "3000000000000000" default_hub_denom))
    ∷ ("operator.account_name", text "client")
    ∷ ("operator.keyring_backend", text "test")
    ∷ ("operator.keyring_dir", text home)
    ∷ ("operator.group_id", whole (pos 1))
    ∷ ("operator.min_fee_share", fraction "0.1")
    ∷ ("fulfillers.keyring_backend", text "test")
    ∷ ("fulfillers.keyring_dir", text home)
    ∷ ("fulfillers.scale", whole (pos 30))
    ∷ ("fulfillers.max_orders_per_tx", whole (pos 1))
    ∷ ("fulfillers.policy_address", text "<your-policy-address>")
    ∷ ("validation.fallback_level", text validation_mode_p2p)
    ∷ ("validation.wait_time", text "61m")
    ∷ ("validation.interval", text "5m")
    ∷ ("rollapps.example_1234-1.full_nodes", texts ("http://localhost:26657" ∷ []))
    ∷ ("rollapps.example_1234-1.min_confirmations", text "1")
    ∷ []

module _ (V : Viper) where
  unfoldable pub set_defaults : List (String × Setting) → V.State → V.State
  set_defaults [] v = v
  set_defaults ((key, value) ∷ rest) v = set_defaults rest (V.set_default key value v)

  -- `CfgFile` as the flag gave it, and afterwards
  abbrev pub find_config : String → String → V.State → String × V.State
  find_config dir cfg_file v =
      if str_eq cfg_file ""
      then (
        concat dir "/config.yaml",
        V.set_config_name "config" (V.add_config_path "." (V.add_config_path dir v)),
      )
      else (cfg_file, V.set_config_file cfg_file v)

  -- `InitConfig`, for what `homedir.Dir` answers
  unfoldable pub init_config : Option String → String → V.State → Result (String × V.State)
  unfolding set_defaults
  init_config none cfg_file v = err "failed to get home directory"
  init_config (some home) cfg_file v =
      let dir = concat home "/.eibc-client" in
      ok (find_config dir cfg_file (V.set_config_type "yaml" (set_defaults (defaults dir) v)))
