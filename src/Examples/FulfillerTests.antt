-- ===== src/Examples/FulfillerTests.antt =====
-- eibc/order_fulfiller.go and types/tx.go
use eibc_client.Base.{
  ℕ, ◌≡◌, ◌≢◌, ◌↔◌, refl, true, [], ◌∷◌, some, none, String, ok, err, Result, Bool, All, List,
  if◌then◌else◌, str_eq,
}
use eibc_client.Base.Chunk.{chunk}
use eibc_client.Base.Map.{Map}
use eibc_client.Base.Text.{parse_uint, format_ℕ, split}
use eibc_client.Examples.Bank.{one_coin, of_total}
use eibc_client.Examples.Samples.{sample_lp, order}
use eibc_client.Fulfiller.{
  Chain, OrderFulfiller, TxResponse, Event, Processed, is_gas_error, is_rpc_error, process_batch,
  fulfill_authorized, fulfill_msgs, message_of, told, failed,
}
use eibc_client.Fulfiller.Authorized.{Confirms, IsQuiet, proposal, fulfill_authorized_ok}
use eibc_client.Fulfiller.Signers.{AreSigned, fulfill_msgs-AreSigned}
use eibc_client.Fulfiller.Batch.{
  Accounts, process_batch-Accounts, process_batch_returns_iff, GoesOn,
}
use eibc_client.Lp.{Lp, release_funds, debit_reserved_funds}
use eibc_client.Tracker.Selection.{release_all, debit_all}
use eibc_client.Msgs.{MsgFulfillOrderAuthorized, validate_basic}
use eibc_client.Msgs.Checks.{IsSendable, validate_basic_iff}
use eibc_client.Types.{DemandOrder}

abbrev any_address : String → Bool
any_address a = true

abbrev fulfiller : OrderFulfiller
fulfiller = record {
  account = record { name = "f1"; address = "addr1" };
  policy_address = "policy";
  operator_address = "operator";
  max_orders_per_tx = 1;
}

abbrev hash_id : String
hash_id = "388cedaafbe9ea05c5b6422970005d4a9cb13b2b679afedb99aa82ccff8784aa"

abbrev message : MsgFulfillOrderAuthorized
message = message_of fulfiller (order hash_id 80)

message_passes : validate_basic any_address message ≡ none
unfolding validate_basic parse_uint format_ℕ
message_passes = refl

validate_basic_iff_example :
    (validate_basic any_address message ≡ none) ↔ IsSendable any_address message
validate_basic_iff_example = validate_basic_iff any_address message

-- The proposal is broadcast at once, and its transaction is seen at the second query.
abbrev good_chain : Chain
good_chain = record {
  is_address = any_address;
  is_bech32 = any_address;
  broadcast_tx = λ name p. ok "tx1";
  get_tx = λ hash. none ∷ some (record { code = 0; raw_log = "log" }) ∷ [];
  events_of = λ log. some ((record { kind = "message"; attributes = [] } ∷ []) ∷ []);
}

fulfilled : fulfill_authorized good_chain fulfiller (order hash_id 80 ∷ []) ≡ ok tt
unfolding fulfill_authorized validate_basic parse_uint format_ℕ
fulfilled = refl

fulfill_authorized_ok_example :
    All (λ o. IsSendable any_address (message_of fulfiller o)) (order hash_id 80 ∷ [])
    × ((hash : String) × (good_chain.broadcast_tx "f1"
            (proposal good_chain fulfiller (order hash_id 80 ∷ []))
          ≡ ok hash)
        × ((resp : TxResponse) × Confirms (good_chain.get_tx hash) resp
            × ((es : List (List Event)) × (good_chain.events_of resp.raw_log ≡ some es)
                × All (All IsQuiet) es)))
fulfill_authorized_ok_example =
    fulfill_authorized_ok good_chain fulfiller (order hash_id 80 ∷ []) fulfilled

told_second : told (some "proposal execution failed : order not found : x") ≡ err "order not found"
unfolding told split
told_second = refl

-- Only the orders with the identifier "a" are fulfilled.
abbrev only_a : List DemandOrder → Result (Unit {0})
only_a [] = ok tt
only_a (o ∷ os) = if str_eq o.id "a" then ok tt else err "order not found"

abbrev priced : String → ℕ → DemandOrder
priced id price = record (order id price) { lp_address = "fair" }

abbrev reserving : Map Lp
reserving = ("fair", record (sample_lp "fair" 20 100) { reserved_funds = of_total 80 }) ∷ []

abbrev outcome : Processed
outcome = record {
  success_results = record { order_id = "a"; failed_order_hash = "" } ∷ [];
  fail_results = failed (priced "b" 30 ∷ []);
  lps = ("fair", sample_lp "fair" 20 50) ∷ [];
}

run_batch :
    process_batch only_a 1 (priced "a" 50 ∷ priced "b" 30 ∷ []) reserving ≡ ok (some outcome)
unfolding process_batch chunk is_gas_error is_rpc_error release_all debit_all release_funds
    debit_reserved_funds
run_batch = refl

process_batch-Accounts_example :
    Accounts only_a (chunk 1 (priced "a" 50 ∷ priced "b" 30 ∷ [])) reserving outcome
process_batch-Accounts_example =
    process_batch-Accounts only_a 1 (priced "a" 50) (priced "b" 30 ∷ []) reserving outcome run_batch

abbrev always : List DemandOrder → Result (Unit {0})
always os = ok tt

process_batch_returns_iff_example :
    ((p : Processed) × (process_batch always 1 (priced "a" 50 ∷ []) reserving ≡ ok (some p)))
    ↔ (◌≢◌ {A = ℕ} 1 0 × GoesOn always (chunk 1 (priced "a" 50 ∷ [])))
process_batch_returns_iff_example = process_batch_returns_iff always 1 (priced "a" 50) [] reserving

built : fulfill_msgs any_address fulfiller (order hash_id 80 ∷ []) ≡ ok (message ∷ [])
unfolding fulfill_msgs parse_uint format_ℕ validate_basic
built = refl

fulfill_msgs-AreSigned_example :
    AreSigned any_address fulfiller (order hash_id 80 ∷ []) (message ∷ [])
fulfill_msgs-AreSigned_example =
    fulfill_msgs-AreSigned any_address fulfiller (order hash_id 80 ∷ []) (message ∷ []) built
