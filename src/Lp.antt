-- ===== src/Lp.antt =====
-- eibc/lp.go: a liquidity provider, its criteria for each rollapp, and its funds.
pub mod Funds
use eibc_client.Base.{Bool, [], List, String, Result, ok, ◌>>=◌, or_panic, if◌then◌else◌}
use eibc_client.Base.Map.{Map}
use eibc_client.Sdk.{Sdk, Coins, Decimal}

module _ ⦃S : Sdk⦄ where
  pub record RollappCriteria : Type 0 where
    pub rollapp_id : String
    pub denoms : Map Bool
    pub max_price : Coins
    pub min_fee_percentage : Decimal
    pub operator_fee_share : Decimal
    pub settlement_validated : Bool
    pub spend_limit : Coins

  pub record Lp : Type 0 where
    pub address : String
    pub rollapps : Map RollappCriteria
    pub balance : Coins
    pub reserved_funds : Coins
    pub hash : String

  -- `SafeSub`, with no coins where the result would be negative
  abbrev pub sub_or_none : Coins → Coins → Coins
  sub_or_none a b = if (S.safe_sub a b).1 then S.new_coins [] else (S.safe_sub a b).0

  unfoldable pub spendable_balance : Lp → Result Coins
  spendable_balance l = or_panic (S.coins_sub l.balance l.reserved_funds)

  unfoldable pub has_balance : Coins → Lp → Result Bool
  has_balance amount l = do spendable ← spendable_balance l; ok (S.is_all_gte spendable amount)

  abbrev pub get_balance : Lp → Coins
  get_balance l = l.balance

  unfoldable pub set_balance : Coins → Lp → Lp
  set_balance balance l = record l { balance = balance }

  unfoldable pub reserve_funds : Coins → Lp → Lp
  reserve_funds amount l = record l { reserved_funds = S.coins_add l.reserved_funds amount }

  unfoldable pub release_funds : Coins → Lp → Lp
  release_funds amount l = record l { reserved_funds = sub_or_none l.reserved_funds amount }

  unfoldable pub debit_reserved_funds : Coins → Lp → Lp
  debit_reserved_funds amount l = record l {
    reserved_funds = sub_or_none l.reserved_funds amount;
    balance = sub_or_none l.balance amount;
  }
