-- ===== src/Examples/Samples.antt =====
-- Sample orders, LPs and nodes for the tests.
use eibc_client.Base.{ℕ, true, false, [], ◌∷◌, String, Result, ok, err}
use eibc_client.Base.Int.{pos}
use eibc_client.Base.Map.{Map}
use eibc_client.Config.{RollappConfig}
use eibc_client.Examples.Bank.{one_coin, adym, of_total}
use eibc_client.Lp.{Lp, RollappCriteria}
use eibc_client.Node.{NodeClient, BlockValidatedResponse}
use eibc_client.Pool.{Heap, OrderPool}
use eibc_client.Tracker.State.{OrderTracker}
use eibc_client.Types.{DemandOrder}

abbrev pub order : String → ℕ → DemandOrder
order id price = record {
  id = id;
  denom = "adym";
  price = of_total price;
  amount = 100;
  fee = adym 20;
  rollapp_id = "ra1";
  proof_height = pos 7;
  valid_deadline = 50;
  settlement_validated = false;
  operator_fee_part = 0;
  lp_address = "";
  from = "indexer";
  checking = false;
  valid = false;
}

abbrev pub terms : ℕ → RollappCriteria
terms share = record {
  rollapp_id = "ra1";
  denoms = ("adym", true) ∷ [];
  max_price = of_total 90;
  min_fee_percentage = 10;
  operator_fee_share = share;
  settlement_validated = false;
  spend_limit = of_total 500;
}

abbrev pub sample_lp : String → ℕ → ℕ → Lp
sample_lp address share balance = record {
  address = address;
  rollapps = ("ra1", terms share) ∷ [];
  balance = of_total balance;
  reserved_funds = [];
  hash = "";
}

-- "rich" gives the operator less than "fair", and "poor" cannot pay 80.
abbrev pub sample_lps : Map Lp
sample_lps =
    ("rich", sample_lp "rich" 10 1000)
    ∷ ("fair", sample_lp "fair" 20 100)
    ∷ ("poor", sample_lp "poor" 30 50)
    ∷ []

abbrev pub two_nodes : RollappConfig
two_nodes = record { full_nodes = "n1" ∷ "n2" ∷ []; min_confirmations = pos 2 }

abbrev pub node_client : NodeClient
node_client = record { rollapps = ("ra1", two_nodes) ∷ []; last_valid_height = [] }

-- Every node has validated every height at the p2p level.
abbrev pub all_p2p : String → Result BlockValidatedResponse
all_p2p url = ok (record { chain_id = "ra1"; result = pos 1 })

-- No node answers.
abbrev pub none_answers : String → Result BlockValidatedResponse
none_answers url = err "timeout"

abbrev pub sample_heap : Heap
sample_heap r = elim r [ ℕ.zero ↦ order "a" 80 | ℕ.suc _ ↦ order "b" 40 ]

abbrev pub sample_pool : OrderPool
sample_pool = record { orders = ("a", 0) ∷ ("b", 1) ∷ [] }

abbrev pub tracker : OrderTracker
tracker = record {
  full_node_client = node_client;
  policy_address = "policy";
  lps = sample_lps;
  min_operator_fee_share = 10;
  pool = sample_pool;
  failed_order_hashes = [];
  num_fulfillers = 2;
  max_orders_per_tx = 1;
  wait_time = 60;
  to_check_orders = [];
  output_orders = [];
  heap = sample_heap;
  next = 2;
}
