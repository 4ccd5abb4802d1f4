-- ===== src/Accounts/Chain/Returns.antt =====
-- No function that asks the chain about the accounts panics, if a coin of one "adym" can be made.
use eibc_client.Accounts.{received, received_returns}
use eibc_client.Accounts.Chain.{
  AccountChain, AccountReply, failure, found, AccountMsg, account_exists, has_fee_granted,
  confirmed, there_is, outputs_to, send_coins_multi, prime_accounts, add_fee_grant_to_fulfiller,
  add_fulfillers_to_group, broadcast, grpc_error_code,
}
use eibc_client.Base.{
  ℕ, ◌≢◌, List, [], ◌∷◌, Option, none, some, String, str_eq, panic, >>=_returns, >>=-eq-panic,
  or_panic, or_panic-panic, Bool-cases, inl, inr, ◌==◌, length, Option-cases,
}
use eibc_client.Fulfiller.{TxResponse, wait_for_tx, wrapped_returns}
use eibc_client.Sdk.{Sdk, Coins}
use eibc_client.Startup.{member_updates}
use eibc_client.Types.{Account}

pub wait_for_tx_returns :
    (hash : String) (answers : List (Option TxResponse)) → wait_for_tx hash answers ≢ panic
unfolding wait_for_tx
wait_for_tx_returns hash [] e = cc
wait_for_tx_returns hash (none ∷ later) e = wait_for_tx_returns hash later e
wait_for_tx_returns hash (some resp ∷ later) e = elim (Bool-cases (resp.code == 0)) [
  | inl z ↦ cc (rw (z, wait_for_tx) at e)
  | inr z ↦ cc (rw (z, wait_for_tx) at e)
]

there_is_returns : (r : AccountReply) → there_is r ≢ panic
unfolding there_is
there_is_returns (failure code text) e =
    elim (Bool-cases (str_eq (grpc_error_code code) "NotFound")) [
      | inl z ↦ cc (rw (z, there_is) at e)
      | inr z ↦ cc (rw (z, there_is) at e)
    ]
there_is_returns (found there) e = cc

module _ ⦃S : Sdk⦄ (c : AccountChain) where
  confirmed_returns : (hash : String) → confirmed c hash ≢ panic
  unfolding confirmed
  confirmed_returns hash =
      >>=_returns _ _
        (wrapped_returns "failed to wait for tx: " _ (wait_for_tx_returns hash (c.get_tx hash)))
        (λ x h e. cc)

  broadcast_returns : (name : String) (msgs : List AccountMsg) → broadcast c name msgs ≢ panic
  broadcast_returns name msgs =
      wrapped_returns "failed to broadcast tx: " _ (received_returns (c.broadcast_tx name msgs))

  outputs_to_returns : (coins : Coins) (as_ : List String) → outputs_to c coins as_ ≢ panic
  unfolding outputs_to
  outputs_to_returns coins [] e = cc
  outputs_to_returns coins (a ∷ as_) e = elim (Bool-cases (c.is_address a)) [
    | inr z ↦ cc (rw (z, outputs_to) at e)
    | inl z ↦
        >>=_returns (outputs_to c coins as_) _ (outputs_to_returns coins as_) (λ x h e'. cc)
          (rw (z, outputs_to) at e)
  ]

  send_coins_multi_returns :
      (coins : Coins) (name from : String) (as_ : List String)
      → send_coins_multi c coins name from as_ ≢ panic
  unfolding send_coins_multi
  send_coins_multi_returns coins name from as_ e =
      elim (>>=-eq-panic (outputs_to c coins as_) _ e) [
        | inl p ↦ outputs_to_returns coins as_ p
        | inr (outputs, _, e') ↦
            elim (Bool-cases (S.safe_mul_int coins (S.new_int (length as_))).1) [
              | inr z ↦ cc (rw z at e')
              | inl z ↦
                  >>=_returns (broadcast c name _) _ (broadcast_returns name _)
                    (λ hash k. confirmed_returns hash) (rw z at e')
            ]
      ]

  pub prime_accounts_returns :
      (name from : String) (as_ : List String)
      → S.new_coin "adym" (S.new_int 1) ≢ none
      → prime_accounts c name from as_ ≢ panic
  unfolding prime_accounts
  prime_accounts_returns name from as_ h =
      >>=_returns (or_panic (S.new_coin "adym" (S.new_int 1))) _ (λ e. h (or_panic-panic _ e))
        (λ coin k.
          wrapped_returns "failed to send coins: " _ (send_coins_multi_returns _ name from as_))

  pub account_exists_returns : (a : String) → account_exists c a ≢ panic
  unfolding account_exists
  account_exists_returns a e = elim (Bool-cases (c.is_address a)) [
    | inr z ↦ cc (rw (z, account_exists) at e)
    | inl z ↦ there_is_returns (c.account a) (rw (z, account_exists) at e)
  ]

  pub has_fee_granted_returns : (granter a : String) → has_fee_granted c granter a ≢ panic
  unfolding has_fee_granted
  has_fee_granted_returns granter a =
      >>=_returns _ _
        (wrapped_returns "failed to query fee grants: " _ (received_returns (c.allowances a)))
        (λ x h e. cc)

  pub add_fee_grant_to_fulfiller_returns :
      (name granter : String) (as_ : List String)
      → add_fee_grant_to_fulfiller c name granter as_ ≢ panic
  unfolding add_fee_grant_to_fulfiller
  add_fee_grant_to_fulfiller_returns name granter as_ =
      >>=_returns (broadcast c name _) _ (broadcast_returns name _)
        (λ hash h. confirmed_returns hash)

  pub add_fulfillers_to_group_returns :
      (name admin : String) (group : ℕ) (accs : List Account)
      → add_fulfillers_to_group c name admin group accs ≢ panic
  unfolding add_fulfillers_to_group
  add_fulfillers_to_group_returns name admin group accs e0 =
      >>=_returns (received (c.group_members group)) _ (received_returns (c.group_members group))
        (λ members h e. elim (Option-cases (member_updates members accs)) [
          | inl z ↦ cc (rw z at e)
          | inr (updates, z) ↦
              >>=_returns (received (c.broadcast_tx name _)) _
                (received_returns (c.broadcast_tx name _)) (λ hash k. confirmed_returns hash)
                (rw z at e)
        ])
        e0
