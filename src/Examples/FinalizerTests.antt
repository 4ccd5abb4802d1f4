-- ===== src/Examples/FinalizerTests.antt =====
-- eibc/order_finalizer.go
use eibc_client.Base.{◌≡◌, refl, [], ◌∷◌, some, String, Bool, true, All, ok, map, arith}
use eibc_client.Base.Base64.{encode_to_string}
use eibc_client.Finalizer.{
  must_decode_packet_key, finalize_signers, OrderFinalizer, FinalizerChain, finalize_msg,
  finalize_msgs, finalize_orders, trim_zeros,
}
use eibc_client.Finalizer.Messages.{finalize_msgs-All}
use eibc_client.Fulfiller.{wait_for_tx}
use eibc_client.Poller.{Order}

abbrev any_address : String → Bool
any_address a = true

abbrev finalizer : OrderFinalizer
finalizer = record { account_name = "operator"; account_addr = "addr" }

abbrev claimed : Order
claimed = record {
  eibc_order_id = "done";
  amount = "80";
  price = "60";
  fee = "20";
  rollapp_id = "ra1";
  proof_height = "7";
  block_height = "0";
  tracking_packet_key = 48 ∷ 47 ∷ 49 ∷ 47 ∷ 7 ∷ 0 ∷ [];
}

-- "0/1/" and two raw bytes
encode_claimed :
    encode_to_string claimed.tracking_packet_key ≡ 77 ∷ 67 ∷ 56 ∷ 120 ∷ 76 ∷ 119 ∷ 99 ∷ 65 ∷ []
unfolding encode_to_string
encode_claimed = refl

abbrev chain : FinalizerChain
chain = record {
  is_address = any_address;
  broadcast_tx = λ name msgs. ok "tx1";
  get_tx = λ hash. some (record { code = 0; raw_log = "" }) ∷ [];
}

finalized_claimed : finalize_orders chain finalizer (claimed ∷ []) ≡ ok tt
unfolding finalize_orders wait_for_tx
finalized_claimed = refl

finalize_msgs-All_example :
    (finalize_msgs any_address finalizer (claimed ∷ [])
      ≡ map (finalize_msg finalizer) (claimed ∷ []))
    × All
        (λ o.
          (must_decode_packet_key (finalize_msg finalizer o)
            ≡ ok (trim_zeros o.tracking_packet_key))
          × (finalize_signers any_address (finalize_msg finalizer o) ≡ "addr" ∷ []))
        (claimed ∷ [])
finalize_msgs-All_example = finalize_msgs-All any_address finalizer (claimed ∷ []) refl (
  (
    λ e. cc,
    (omega arith, (omega arith, (omega arith, (omega arith, (omega arith, (omega arith, tt)))))),
  ),
  tt,
)
