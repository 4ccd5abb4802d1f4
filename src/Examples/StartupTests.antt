-- ===== src/Examples/StartupTests.antt =====
-- The start of the client in eibc/order_client.go, and the group members of eibc/account.go
use eibc_client.Base.{◌≡◌, refl, [], ◌∷◌, some, none, true, List, ok}
use eibc_client.Base.Int.{pos}
use eibc_client.Config.{Config, validation_mode_sequencer}
use eibc_client.Examples.Bank.{one_coin}
use eibc_client.Examples.Samples.{node_client, tracker, order}
use eibc_client.Examples.SelectionTests.{unshuffled}
use eibc_client.Node.{NodeClient}
use eibc_client.Startup.{MemberRequest, get_full_node_clients, member_updates, retry}
use eibc_client.Startup.Modes.{sequencer_mode_refuses}
use eibc_client.Tracker.Intake.{offer, refused}
use eibc_client.Tracker.State.{OrderTracker}
use eibc_client.Types.{Account}

abbrev pub config : Config
config = record {
  node_address = "http://localhost:26657";
  gas = record { prices = ""; fees = "1adym" };
  order_polling = record { indexer_url = ""; interval = 30; enabled = true };
  rollapps = node_client.rollapps;
  operator = record {
    account_name = "operator";
    keyring_backend = "test";
    keyring_dir = "";
    group_id = 1;
    min_fee_share = "0.1";
  };
  fulfillers = record {
    scale = pos 2;
    operator_address = "operator";
    policy_address = "policy";
    keyring_backend = "test";
    keyring_dir = "";
    max_orders_per_tx = pos 1;
  };
  validation = record { fallback_level = validation_mode_sequencer; wait_time = 60; interval = 10 };
  log_level = "info";
}

abbrev no_nodes : NodeClient
no_nodes = record { rollapps = []; last_valid_height = [] }

abbrev sequencer_tracker : OrderTracker
sequencer_tracker = record tracker { full_node_client = no_nodes }

sequencer_client : get_full_node_clients config ≡ ok no_nodes
unfolding get_full_node_clients
sequencer_client = refl

sequencer_mode_refuses_example :
    offer unshuffled (order "new" 60) sequencer_tracker ≡ ok (sequencer_tracker, refused)
sequencer_mode_refuses_example =
    sequencer_mode_refuses config no_nodes unshuffled (order "new" 60) sequencer_tracker refl
      sequencer_client refl

retry_second : retry (some "refused" ∷ none ∷ []) ≡ none
unfolding retry
retry_second = refl

abbrev members : List MemberRequest
members = record { address = "addr1"; weight = "2" } ∷ []

abbrev accounts : List Account
accounts =
    record { name = "f1"; address = "addr1" } ∷ record { name = "f2"; address = "addr2" } ∷ []

abbrev updated : List MemberRequest
updated =
    record { address = "addr1"; weight = "2" } ∷ record { address = "addr2"; weight = "1" } ∷ []

update_members : member_updates members accounts ≡ some updated
unfolding member_updates
update_members = refl
