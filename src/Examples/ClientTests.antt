-- ===== src/Examples/ClientTests.antt =====
-- The accounts and the construction of the client: `NewOrderClient` for two fulfillers, of which one
-- has an account, a grant and a place in the group, and one has nothing yet.
use eibc_client.Accounts.{Keyring, KeyRecord, reply, add_fulfiller_accounts}
use eibc_client.Accounts.Chain.{AccountChain, failure, found}
use eibc_client.Accounts.Count.{IsFulfiller, Picks, add_fulfiller_accounts-length}
use eibc_client.Base.{
  ℕ, ◌≡◌, ◌≢◌, refl, Bool, true, false, List, [], ◌∷◌, ◌++◌, Option, none, some, String, str_eq,
  if◌then◌else◌, ok, panic, length, All, max,
}
use eibc_client.Client.{World, NewClient, new_order_client}
use eibc_client.Client.Panics.{new_order_client_returns}
use eibc_client.Client.Disabled.{new_order_client_panics}
use eibc_client.Config.{Config, ClientConfig, ClientOption, validation_mode_p2p}
use eibc_client.Examples.Bank.{one_coin}
use eibc_client.Examples.Samples.{tracker, sample_heap}
use eibc_client.Examples.SelectionTests.{unshuffled}
use eibc_client.Examples.StartupTests.{config}
use eibc_client.Fulfiller.{new_order_fulfiller}
use eibc_client.Lp.{Lp}
use eibc_client.Poller.{OrderPoller}
use eibc_client.Pool.{empty_pool}
use eibc_client.Tracker.State.{OrderTracker}
use eibc_client.Types.{Account}

abbrev key : String → String → KeyRecord
key name address = record { name = name; get_address = reply address }

abbrev by_name : List KeyRecord → String → Option KeyRecord
by_name [] name = none
by_name (r ∷ rs) name = if str_eq r.name name then some r else by_name rs name

abbrev keys : Keyring
keys = record {
  State = List KeyRecord;
  get_by_name = by_name;
  create = λ k name. reply (k ++ key name "addr2" ∷ [], key name "addr2");
  list = λ k. reply k;
}

abbrev pub two_keys : List KeyRecord
two_keys = key "client" "operator" ∷ key "bot-1" "addr1" ∷ []

abbrev pub three_keys : List KeyRecord
three_keys = two_keys ++ key "bot-abcde" "addr2" ∷ []

abbrev both : List Account
both =
    record { name = "bot-1"; address = "addr1" }
    ∷ record { name = "bot-abcde"; address = "addr2" }
    ∷ []

abbrev connects : List ClientOption → Option String
connects options = none

abbrev drawn : ℕ → String
drawn n = "abcde-fghij"

abbrev client_config : ClientConfig
client_config = record {
  home_dir = "";
  node_address = "";
  gas_fees = "";
  gas_prices = "";
  fee_granter = "operator";
  keyring_backend = "test";
}

adds_one :
    add_fulfiller_accounts keys connects drawn 2 client_config two_keys ≡ ok (three_keys, both)
unfolding add_fulfiller_accounts
adds_one = refl

add_fulfiller_accounts-length_example :
    (records : List KeyRecord) × (olds : List Account) × (news : List Account) × (reply two_keys
      ≡ reply records)
    × Picks records olds
    × (both ≡ olds ++ news)
    × (length both ≡ max 2 (length olds))
    × All IsFulfiller both
add_fulfiller_accounts-length_example =
    add_fulfiller_accounts-length keys connects drawn 2 client_config two_keys three_keys both
      adds_one

abbrev account_chain : AccountChain
account_chain = record {
  is_address = λ a. true;
  is_bech32 = λ a. true;
  account = λ a. if str_eq a "addr1" then found true else failure (some "NotFound") "no account";
  allowances = λ a. if str_eq a "addr1" then reply ("operator" ∷ []) else reply [];
  group_members = λ g. reply (record { address = "addr1"; weight = "2" } ∷ []);
  broadcast_tx = λ name msgs. reply "tx";
  get_tx = λ hash. some (record { code = 0; raw_log = "" }) ∷ [];
}

abbrev pub world : World
world = record {
  new_client = λ i options. none;
  chain_id = "hub";
  address = λ name. reply "operator";
  dec_from_str = λ text. some 10;
  keyring = keys;
  uuid = drawn;
  chain = account_chain;
  memory = sample_heap;
}

abbrev pub polling : Bool → Config
polling enabled = record config {
  order_polling = record { indexer_url = ""; interval = 30; enabled = enabled };
  validation = record { fallback_level = validation_mode_p2p; wait_time = 60; interval = 10 };
}

abbrev fresh_tracker : OrderTracker
fresh_tracker = record tracker { lps = []; pool = empty_pool; next = 0 }

abbrev pub poller : OrderPoller
poller = record {
  chain_id = "hub";
  indexer_url = "";
  interval = 30;
  rollapps = "ra1" ∷ [];
  operator_addr = "operator";
  last_block_height = 0;
  no_lp_orders = [];
  order_tracker = fresh_tracker;
}

abbrev pub client : NewClient
client = record {
  setup = record {
    fulfillers =
        (
          "bot-1",
          new_order_fulfiller (record { name = "bot-1"; address = "addr1" }) "operator" "policy" 1,
        )
        ∷ (
          "bot-abcde",
          new_order_fulfiller (record { name = "bot-abcde"; address = "addr2" }) "operator" "policy"
              1,
        )
        ∷ [];
    active_accs = both;
    grantee_addrs = "addr2" ∷ [];
    prime_addrs = "addr2" ∷ [];
  };
  order_poller = some poller;
  order_tracker = fresh_tracker;
  order_finalizer = record { account_name = "operator"; account_addr = "operator" };
}

pub client_made : new_order_client world (polling true) two_keys ≡ ok (three_keys, client)
unfolding new_order_client
client_made = refl

-- Without polling nothing fails, and the client is not made.
no_client : new_order_client world (polling false) two_keys ≡ panic
unfolding new_order_client
no_client = refl

new_order_client_panics_example : new_order_client world (polling false) two_keys ≡ panic
new_order_client_panics_example =
    new_order_client_panics world (polling true) two_keys (three_keys, client) client_made

new_order_client_returns_example : new_order_client world (polling true) two_keys ≢ panic
new_order_client_returns_example =
    new_order_client_returns world (polling true) two_keys 2 (λ e. cc) (λ n e. cc) refl refl

abbrev pub draws : ℕ → String → List Lp → List Lp
draws n id = unshuffled
