-- ===== src/Examples/LaunchTests.antt =====
-- The launch of the client of ClientTests.
use eibc_client.Base.{◌≡◌, refl, true, [], Option, none, some, String, ok, err}
use eibc_client.Base.Text.{concat}
use eibc_client.Examples.Bank.{one_coin}
use eibc_client.Eventer.{created_event}
use eibc_client.Launch.{Surroundings, start_eventer}

abbrev any_level : String → Option String
any_level level = none

abbrev quiet : Surroundings
quiet = record {
  unmarshal = λ value. none;
  get_balances = λ address. none;
  rollapps_hash = λ criteria. "";
  grants = some [];
  rpc_start = none;
  subscribe = λ query. none;
  now = λ id. 10;
  orders = ok [];
  hub = record {
    latest_height = λ id. none;
    demand_orders_by_status = λ request. some [];
    big_endian = λ bytes. none;
  };
  finalizer_chain = record {
    is_address = λ a. true;
    broadcast_tx = λ name msgs. ok "tx";
    get_tx = λ hash. [];
  };
}

subscribes_once :
    start_eventer none (λ query. some "closed")
    ≡ err (
        concat
          (concat
            (concat "failed to subscribe to pending demand orders: failed to subscribe to "
              created_event)
            " events: ")
          "closed")
unfolding start_eventer
subscribes_once = refl
