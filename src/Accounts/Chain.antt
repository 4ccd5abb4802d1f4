-- ===== src/Accounts/Chain.antt =====
-- eibc/account.go: what is asked of the chain for the fulfillers' accounts, and what the operator
-- broadcasts for them. `ok tt` is `nil`.
pub mod Confirmed
pub mod Returns
use eibc_client.Accounts.{Reply, fault, reply, received}
use eibc_client.Base.{
  ℕ, Bool, true, false, not, ◌||◌, List, [], ◌∷◌, ◌++◌, Option, none, some, String, str_eq,
  if◌then◌else◌, Result, ok, err, ◌>>=◌, length, or_panic,
}
use eibc_client.Base.Text.{concat}
use eibc_client.Fulfiller.{TxResponse, wait_for_tx, wrapped}
use eibc_client.Sdk.{Sdk, Coins, Coin}
use eibc_client.Startup.{MemberRequest, member_updates}
use eibc_client.Types.{Account}

-- the answer to `QueryAccountRequest`: an error, with its gRPC status code if it is one, or whether
-- there is an account in the answer
pub data AccountReply : Type 0 where
  failure : Option String → String → AccountReply
  found : Bool → AccountReply

-- `grpcErrorCode`, of an error whose status code is known
abbrev grpc_error_code : Option String → String
grpc_error_code (some code) = code
grpc_error_code none = ""

-- whether there is an account, by the answer
unfoldable pub there_is : AccountReply → Result Bool
there_is (failure code text) =
    if str_eq (grpc_error_code code) "NotFound"
    then ok false
    else err (concat "failed to query account: " text)
there_is (found there) = ok there

module _ ⦃S : Sdk⦄ where
  -- `MsgMultiSend` with its one input, `MsgGrantAllowance` with a `BasicAllowance`, and
  -- `MsgUpdateGroupMembers`
  pub data AccountMsg : Type 0 where
    multi_send : String → Coins → List (String × Coins) → AccountMsg
    grant_allowance : String → String → AccountMsg
    update_group_members : String → ℕ → List MemberRequest → AccountMsg

  -- What is asked of the chain: whether a text is an address (`sdk.AccAddressFromBech32`), or
  -- bech32 at all, the account of an address, the granters of the allowances of an address, the
  -- members of a group, a broadcast, which gives the hash of the transaction, and the answers to
  -- the queries for it.
  pub record AccountChain : Type 0 where
    pub is_address : String → Bool
    pub is_bech32 : String → Bool
    pub account : String → AccountReply
    pub allowances : String → Reply (List String)
    pub group_members : ℕ → Reply (List MemberRequest)
    pub broadcast_tx : String → List AccountMsg → Reply String
    pub get_tx : String → List (Option TxResponse)

  module _ (c : AccountChain) where
    -- `waitForTx` for the hash of a broadcast
    unfoldable pub confirmed : String → Result (Unit {0})
    unfolding wait_for_tx
    confirmed hash = do
      _ ← wrapped "failed to wait for tx: " (wait_for_tx hash (c.get_tx hash))
      ok tt

    abbrev broadcast : String → List AccountMsg → Result String
    broadcast name msgs = wrapped "failed to broadcast tx: " (received (c.broadcast_tx name msgs))

    -- the loop of `sendCoinsMulti`
    unfoldable pub outputs_to : Coins → List String → Result (List (String × Coins))
    outputs_to coins [] = ok []
    outputs_to coins (a ∷ as_) =
        let rest = outputs_to coins as_ in
        if c.is_address a
        then (do outputs ← rest; ok ((a, coins) ∷ outputs))
        else err "failed to parse address"

    -- `sendCoinsMulti`
    unfoldable pub send_coins_multi : Coins → String → String → List String → Result (Unit {0})
    unfolding outputs_to confirmed
    send_coins_multi coins from_name from_addr to_addrs = do
      outputs ← outputs_to coins to_addrs
      let (input, fits) = S.safe_mul_int coins (S.new_int (length to_addrs)) in
          if not fits then err "failed to calculate input coins" else do
            hash ← broadcast from_name (multi_send from_addr input outputs ∷ [])
            confirmed hash

    -- `primeAccounts`
    unfoldable pub prime_accounts : String → String → List String → Result (Unit {0})
    unfolding send_coins_multi
    prime_accounts from_name from_addr to_addrs = do
      coin ← or_panic (S.new_coin "adym" (S.new_int 1))
      wrapped "failed to send coins: "
          (send_coins_multi (S.new_coins (coin ∷ [])) from_name from_addr to_addrs)

    -- `accountExists`
    unfoldable pub account_exists : String → Result Bool
    unfolding there_is
    account_exists address =
        if c.is_address address then there_is (c.account address) else err "invalid address"

    -- whether one of the granters is the given one
    abbrev pub is_among : String → List String → Bool
    is_among granter [] = false
    is_among granter (g ∷ gs) = str_eq g granter || is_among granter gs

    -- `hasFeeGranted`
    unfoldable pub has_fee_granted : String → String → Result Bool
    has_fee_granted granter grantee = do
      granters ← wrapped "failed to query fee grants: " (received (c.allowances grantee))
      ok (is_among granter granters)

    abbrev grants_to : String → List String → List AccountMsg
    grants_to granter [] = []
    grants_to granter (a ∷ as_) = grant_allowance granter a ∷ grants_to granter as_

    -- `addFeeGrantToFulfiller`. That a `BasicAllowance` is packed into its message, which fails for
    -- no allowance of this kind, is left out.
    unfoldable pub add_fee_grant_to_fulfiller : String → String → List String → Result (Unit {0})
    unfolding confirmed
    add_fee_grant_to_fulfiller from_name granter grantees = do
      hash ← broadcast from_name (grants_to granter grantees)
      confirmed hash

    -- `addFulfillersToGroup`
    unfoldable pub add_fulfillers_to_group : String → String → ℕ → List Account → Result (Unit {0})
    unfolding member_updates confirmed
    add_fulfillers_to_group operator_name operator_address group_id new_accs = do
      members ← received (c.group_members group_id)
      elim (member_updates members new_accs) [
        | none ↦ ok tt
        | some updates ↦ do
          hash ← received (
              c.broadcast_tx operator_name
                (update_group_members operator_address group_id updates ∷ []))
          confirmed hash
      ]
