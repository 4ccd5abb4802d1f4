-- ===== src/Accounts.antt =====
-- eibc/account.go: the accounts of the fulfillers in the keyring, and what the operator sends to the
-- chain for them. The keyring and the chain are other programs: they are arguments. An address is
-- its text.
pub mod Chain
pub mod Count
use text.Mathlib.Text.{starts_with, get?}
use eibc_client.Base.{
  ℕ, zero, suc, ◌-◌, Bool, true, false, ◌||◌, List, [], ◌∷◌, ◌++◌, Option, none, some, String,
  str_eq, map, if◌then◌else◌, ltb, Result, ok, err, panic, ◌>>=◌, ◌≡◌, ◌≢◌, ap, ok-injective,
  or_panic, is_empty, length, contains_key,
}
use eibc_client.Base.Text.{concat, format_ℕ}
use eibc_client.Config.{
  ClientConfig, ClientOption, fulfiller_name_prefix, get_cosmos_client_options,
}
use eibc_client.Fulfiller.{TxResponse, wait_for_tx, wrapped}
use eibc_client.Sdk.{Sdk, Coins}
use eibc_client.Startup.{MemberRequest, member_updates}
use eibc_client.Types.{Account}

-- what another program answers: an error with its text, or a value
pub data Reply (A : Type 0) : Type 0 where
  fault : String → Reply A
  reply : A → Reply A

abbrev pub received : {A : Type 0} → Reply A → Result A
received (fault text) = err text
received (reply a) = ok a

pub received-ok : {A : Type 0} (r : Reply A) (a : A) → received r ≡ ok a → r ≡ reply a
received-ok (fault text) a e = absurd (cc)
received-ok (reply b) a e = ap reply (ok-injective e)

pub received_returns : {A : Type 0} (r : Reply A) → received r ≢ panic
received_returns (fault text) e = cc
received_returns (reply b) e = cc

-- `cosmosaccount.Account`, with what `Record.GetAddress` gives
pub record KeyRecord : Type 0 where
  pub name : String
  pub get_address : Reply String

-- `AccountRegistry`, with the state that it keeps
pub record Keyring : Type 1 where
  pub State : Type 0
  pub get_by_name : State → String → Option KeyRecord
  pub create : State → String → Reply (State × KeyRecord)
  pub list : State → Reply (List KeyRecord)

abbrev address_of : KeyRecord → Result String
address_of r = wrapped "failed to get account address: " (received r.get_address)

-- the loop of `listAccounts`
unfoldable pub accounts_of : List KeyRecord → Result (List Account)
accounts_of [] = ok []
accounts_of (r ∷ rs) = do
  address ← address_of r
  rest ← accounts_of rs
  ok (record { name = r.name; address = address } ∷ rest)

-- the loop of `getFulfillerAccounts`
unfoldable pub with_prefix : List Account → List Account
with_prefix [] = []
with_prefix (a ∷ as_) =
    let rest = with_prefix as_ in
    if starts_with a.name fulfiller_name_prefix then a ∷ rest else rest

module _ (K : Keyring) where
  -- `addAccount`
  unfoldable pub add_account : K.State → String → Result (K.State × String)
  add_account k name = elim (K.get_by_name k name) [
    | some acc ↦ do address ← address_of acc; ok (k, address)
    | none ↦ do
      (k', acc) ← wrapped "failed to create account: " (received (K.create k name))
      address ← address_of acc
      ok (k', address)
  ]

  -- `listAccounts`
  unfoldable pub list_accounts : K.State → Result (List Account)
  unfolding accounts_of
  list_accounts k = do
    accs ← wrapped "failed to get accounts: " (received (K.list k))
    accounts_of accs

  -- `getFulfillerAccounts`
  unfoldable pub get_fulfiller_accounts : K.State → Result (List Account)
  unfolding list_accounts with_prefix
  get_fulfiller_accounts k = do accounts ← list_accounts k; ok (with_prefix accounts)

  -- `createFulfillerAccounts`: `uuid n` is the identifier drawn for the account after which `n` more
  -- are made
  unfoldable pub create_fulfiller_accounts :
      (ℕ → String) → K.State → ℕ → Result (K.State × List Account)
  unfolding add_account
  create_fulfiller_accounts uuid k zero = ok (k, [])
  create_fulfiller_accounts uuid k (suc n) = do
    part ← or_panic (get? (uuid n) 0 5)
    (k', address) ←
        wrapped "failed to create account: " (add_account k (concat fulfiller_name_prefix part))
    (k'', accs) ← create_fulfiller_accounts uuid k' n
    ok (k'', record { name = concat fulfiller_name_prefix part; address = address } ∷ accs)

  -- `addFulfillerAccounts`; `new_client` is the error of `cosmosclient.New` for its options
  unfoldable pub add_fulfiller_accounts :
      (List ClientOption → Option String)
      → (ℕ → String)
      → ℕ
      → ClientConfig
      → K.State
      → Result (K.State × List Account)
  unfolding get_cosmos_client_options get_fulfiller_accounts create_fulfiller_accounts
  add_fulfiller_accounts new_client uuid scale cfg k =
      elim (new_client (get_cosmos_client_options cfg)) [
        | some e ↦ err (concat "failed to create cosmos client for fulfiller: " e)
        | none ↦ do
          accs ← wrapped "failed to get fulfiller accounts: " (get_fulfiller_accounts k)
          (k', new_accs) ←
              wrapped "failed to create fulfiller accounts: "
                (create_fulfiller_accounts uuid k (scale - length accs))
          if ltb (length (accs ++ new_accs)) scale
              then err (
                  concat (concat "expected " (format_ℕ scale))
                    (concat " fulfiller accounts, got " (format_ℕ (length (accs ++ new_accs)))))
              else ok (k', accs ++ new_accs)
      ]
