-- ===== src/Msgs.antt =====
-- types/tx.go: the message that asks for the fulfilment of an order, and its checks. Whether a text
-- is a bech32 address is decided by the Cosmos SDK, and is an argument.
pub mod Checks
use eibc_client.Base.{
  ℕ, Bool, true, false, not, ◌&&◌, ◌||◌, List, [], ◌∷◌, Option, none, some, String, str_eq, leb,
  ◌==◌, length, if◌then◌else◌, ◌+◌, suc, Result, ok, panic, ◌>>=◌,
}
use eibc_client.Base.Text.{codes}
use eibc_client.Sdk.{Sdk, Coins, Amount, Decimal}

-- the digits that `hex.DecodeString` takes
abbrev pub is_hex : ℕ → Bool
is_hex c = leb 48 c && leb c 57 || (leb 97 c && leb c 102 || leb 65 c && leb c 70)

-- `len(hashBytes)` for the bytes that `hex.DecodeString` gives
unfoldable pub decoded_length : List ℕ → Option ℕ
decoded_length [] = some 0
decoded_length (a ∷ []) = none
decoded_length (a ∷ b ∷ cs) =
    let rest = decoded_length cs in
    if is_hex a && is_hex b then elim rest [ none ↦ none | some n ↦ some (suc n) ] else none

unfoldable pub is_valid_order_id : String → Bool
unfolding decoded_length
is_valid_order_id order_id = elim (decoded_length (codes order_id)) [
  | none ↦ false
  | some n ↦ n == 32
]

-- the loop over the addresses in `validateCommon`
unfoldable pub all_addresses : (String → Bool) → List String → Bool
all_addresses is_address [] = true
all_addresses is_address (a ∷ as_) = is_address a && all_addresses is_address as_

module _ ⦃S : Sdk⦄ where
  pub record MsgFulfillOrderAuthorized : Type 0 where
    pub order_id : String
    pub rollapp_id : String
    pub price : Coins
    pub amount : Amount
    pub lp_address : String
    pub operator_fee_address : String
    pub expected_fee : String
    pub operator_fee_share : Decimal
    pub settlement_validated : Bool

  abbrev pub new_msg_fulfill_order_authorized :
      String
      → String
      → String
      → String
      → String
      → Coins
      → Amount
      → Decimal
      → Bool
      → MsgFulfillOrderAuthorized
  new_msg_fulfill_order_authorized order_id rollapp_id granter operator fee price amount part
        settled =
      record {
        order_id = order_id;
        rollapp_id = rollapp_id;
        lp_address = granter;
        operator_fee_address = operator;
        expected_fee = fee;
        price = price;
        amount = amount;
        operator_fee_share = part;
        settlement_validated = settled;
      }

  -- `validateCommon`: the error, if there is one
  unfoldable pub validate_common : (String → Bool) → String → String → List String → Option String
  unfolding is_valid_order_id all_addresses
  validate_common is_address order_id fee addresses =
      if not (is_valid_order_id order_id)
      then some "Invalid order ID"
      else if not (all_addresses is_address addresses)
      then some "invalid address"
      else elim (S.new_int_from_string fee) [
        | none ↦ some "parse fee"
        | some n ↦
            if S.int_is_negative n then some "Fee must be greater than or equal to 0" else none
      ]

  unfoldable pub validate_basic : (String → Bool) → MsgFulfillOrderAuthorized → Option String
  unfolding validate_common
  validate_basic is_address m =
      if str_eq m.rollapp_id ""
      then some "rollapp id cannot be empty"
      else elim (validate_common is_address m.order_id m.expected_fee
          (m.operator_fee_address ∷ m.lp_address ∷ [])) [
            | some e ↦ some e
            | none ↦
                if not (S.is_valid m.price)
                then some "price is invalid"
                else if S.int_is_nil m.amount || S.int_is_negative m.amount
                then some "amount cannot be empty or negative"
                else if S.dec_is_nil m.operator_fee_share || S.dec_is_negative m.operator_fee_share
                then some "operator fee share cannot be empty or negative"
                else if S.dec_gt m.operator_fee_share S.dec_one
                then some "operator fee share cannot be greater than 1"
                else none
          ]

  -- `sdk.MustAccAddressFromBech32`, which panics on what is no address; an address is its text
  abbrev pub must_address : (String → Bool) → String → Result String
  must_address is_address a = if is_address a then ok a else panic

  -- `GetSigners`
  unfoldable pub get_signers : (String → Bool) → MsgFulfillOrderAuthorized → Result (List String)
  get_signers is_address m = do creator ← must_address is_address m.lp_address; ok (creator ∷ [])

  -- `GetLPBech32Address`
  unfoldable pub get_lp_bech32_address : (String → Bool) → MsgFulfillOrderAuthorized → Result String
  get_lp_bech32_address is_address m = must_address is_address m.lp_address

  -- `GetOperatorFeeBech32Address`
  unfoldable pub get_operator_fee_bech32_address :
      (String → Bool) → MsgFulfillOrderAuthorized → Result String
  get_operator_fee_bech32_address is_address m = must_address is_address m.operator_fee_address
