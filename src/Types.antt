-- ===== src/Types.antt =====
-- eibc/types.go
use eibc_client.Base.{ℕ, String, Bool}
use eibc_client.Base.Int.{ℤ}
use eibc_client.Sdk.{Sdk, Coin, Coins, Amount, Decimal}

module _ ⦃S : Sdk⦄ where
  pub record DemandOrder : Type 0 where
    pub id : String
    pub denom : String
    pub price : Coins
    pub amount : Amount
    pub fee : Coin Amount
    pub rollapp_id : String
    pub proof_height : ℤ
    pub valid_deadline : ℕ
    pub settlement_validated : Bool
    pub operator_fee_part : Decimal
    pub lp_address : String
    pub from : String
    pub checking : Bool
    pub valid : Bool

pub record OrderFulfillResult : Type 0 where
  pub order_id : String
  pub failed_order_hash : String

pub record Account : Type 0 where
  pub name : String
  pub address : String
