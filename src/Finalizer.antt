-- ===== src/Finalizer.antt =====
-- eibc/order_finalizer.go, and the message of types/eibc/msgs.go that it sends. Whether a text is an
-- address, the broadcast and the answers to the queries for a transaction are arguments.
pub mod Messages
use eibc_client.Base.{
  Bool, true, false, not, List, [], ◌∷◌, Option, none, some, String, if◌then◌else◌, Result, ok, err,
  ◌>>=◌, is_empty, ◌==◌, ℕ, panic, or_panic,
}
use eibc_client.Base.Base64.{encode_to_string, decode_string}
use eibc_client.Fulfiller.{TxResponse, wait_for_tx, wrapped}
use eibc_client.Poller.{Order, OrderPoller, Hub, get_claimable_demand_orders_from_rpc}
use eibc_client.Sdk.{Sdk}

-- `bytes.TrimRight` of zero bytes
unfoldable pub trim_zeros : List ℕ → List ℕ
trim_zeros [] = []
trim_zeros (b ∷ bs) = elim (trim_zeros bs) [
  | [] ↦ if b == 0 then [] else b ∷ []
  | x ∷ xs ↦ b ∷ x ∷ xs
]

-- `MsgFinalizePacketByPacketKey`, with the bytes of the text of the key
pub record MsgFinalizePacketByPacketKey : Type 0 where
  pub sender : String
  pub packet_key : List ℕ

-- `DecodePacketKey`: the buffer that is decoded into ends with zeros, and they are trimmed
unfoldable pub decode_packet_key : List ℕ → Option (List ℕ)
unfolding trim_zeros
decode_packet_key key = elim (decode_string key) [
  | none ↦ none
  | some bytes ↦ some (trim_zeros bytes)
]

-- `ValidateBasic`
unfoldable pub validate_finalize : (String → Bool) → MsgFinalizePacketByPacketKey → Option String
unfolding decode_packet_key
validate_finalize is_address m =
    if not (is_address m.sender)
    then some "sender must be a valid bech32 address"
    else if is_empty m.packet_key
    then some "rollappId must be non-empty"
    else elim (decode_packet_key m.packet_key) [
      | none ↦ some "packet key must be a valid base64 encoded string"
      | some _ ↦ none
    ]

-- `MustDecodePacketKey`
unfoldable pub must_decode_packet_key : MsgFinalizePacketByPacketKey → Result (List ℕ)
unfolding decode_packet_key
must_decode_packet_key m = or_panic (decode_packet_key m.packet_key)

-- `GetSigners`: the error of a sender that is no address is dropped, and its address is empty
unfoldable pub finalize_signers : (String → Bool) → MsgFinalizePacketByPacketKey → List String
finalize_signers is_address m = (if is_address m.sender then m.sender else "") ∷ []

pub record OrderFinalizer : Type 0 where
  pub account_name : String
  pub account_addr : String

abbrev pub finalize_msg : OrderFinalizer → Order → MsgFinalizePacketByPacketKey
finalize_msg f o = record {
  sender = f.account_addr;
  packet_key = encode_to_string o.tracking_packet_key;
}

-- the loop of `finalizeOrders`, which passes over messages that are not valid
unfoldable pub finalize_msgs :
    (String → Bool) → OrderFinalizer → List Order → List MsgFinalizePacketByPacketKey
unfolding validate_finalize
finalize_msgs is_address f [] = []
finalize_msgs is_address f (o ∷ os) =
    let rest = finalize_msgs is_address f os in
    elim (validate_finalize is_address (finalize_msg f o)) [
      | some _ ↦ rest
      | none ↦ finalize_msg f o ∷ rest
    ]

-- what the finalizer asks of the chain and its libraries
pub record FinalizerChain : Type 0 where
  pub is_address : String → Bool
  pub broadcast_tx : String → List MsgFinalizePacketByPacketKey → Result String
  pub get_tx : String → List (Option TxResponse)

-- `finalizeOrders`: `ok tt` is `nil`
unfoldable pub finalize_orders : FinalizerChain → OrderFinalizer → List Order → Result (Unit {0})
unfolding finalize_msgs
finalize_orders c f orders = do
  hash ←
      wrapped "failed to broadcast tx: "
        (c.broadcast_tx f.account_name (finalize_msgs c.is_address f orders))
  resp ← wrapped "failed to wait for tx: " (wait_for_tx hash (c.get_tx hash))
  ok tt

-- `finalizeClaimableOrders`
unfoldable pub finalize_claimable_orders :
    ⦃S : Sdk⦄ → Hub → FinalizerChain → OrderPoller → OrderFinalizer → Result (Unit {0})
unfolding finalize_orders
finalize_claimable_orders ⦃S⦄ hub c p f = do
  orders ←
      wrapped "could not get claimable demand orders from RPC: "
        (get_claimable_demand_orders_from_rpc hub p)
  if is_empty orders
      then ok tt
      else wrapped "could not finalize demand orders: " (finalize_orders c f orders)

-- `newFinalizer` reads the logger of the poller, which is a nil pointer if there is none.
unfoldable pub new_finalizer :
    ⦃S : Sdk⦄ → String → String → Option OrderPoller → Result OrderFinalizer
new_finalizer name addr none = panic
new_finalizer name addr (some p) = ok (record { account_name = name; account_addr = addr })
