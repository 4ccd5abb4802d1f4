-- ===== src/Sdk.antt =====
-- What the code calls of cosmos-sdk, cosmossdk.io/math and of hashing: types and operations of
-- other repositories, taken as parameters. `Sdk.Laws` states what is documented of them.
pub mod Laws
use eibc_client.Base.{ℕ, String, Bool, List, Option}

-- `sdk.Coin`
pub record Coin (Int : Type 0) : Type 0 where
  pub denom : String
  pub amount : Int

pub record Sdk : Type 1 where
  -- `math.Int` and `math.LegacyDec`, with the nil values that a zero struct holds
  pub Int : Type 0
  pub LegacyDec : Type 0
  pub int_add : Int → Int → Int
  -- `sdk.NewInt` of a number that is not negative
  pub new_int : ℕ → Int
  pub int_lt : Int → Int → Bool
  pub int_is_nil : Int → Bool
  pub int_is_negative : Int → Bool
  pub int_string : Int → String
  -- `sdk.NewIntFromString`
  pub new_int_from_string : String → Option Int
  pub dec_nil : LegacyDec
  pub dec_one : LegacyDec
  pub dec_of_int : Int → LegacyDec
  pub dec_mul : LegacyDec → LegacyDec → LegacyDec
  pub dec_truncate_int : LegacyDec → Int
  pub dec_gt : LegacyDec → LegacyDec → Bool
  pub dec_lt : LegacyDec → LegacyDec → Bool
  pub dec_is_nil : LegacyDec → Bool
  pub dec_is_negative : LegacyDec → Bool
  -- `sdk.NewCoin` (`none` is its panic) and `sdk.NewCoins`
  pub new_coin : String → Int → Option (Coin Int)
  pub new_coins : List (Coin Int) → List (Coin Int)
  -- `Coins.Add`, `SafeSub`, and `Sub` (`none` is its panic)
  pub coins_add : List (Coin Int) → List (Coin Int) → List (Coin Int)
  pub coins_amount_of : List (Coin Int) → String → Int
  pub safe_sub : List (Coin Int) → List (Coin Int) → List (Coin Int) × Bool
  pub coins_sub : List (Coin Int) → List (Coin Int) → Option (List (Coin Int))
  -- `Coins.SafeMulInt`
  pub safe_mul_int : List (Coin Int) → Int → List (Coin Int) × Bool
  pub is_all_gte : List (Coin Int) → List (Coin Int) → Bool
  pub is_any_gt : List (Coin Int) → List (Coin Int) → Bool
  pub is_all_positive : List (Coin Int) → Bool
  pub is_any_nil : List (Coin Int) → Bool
  pub is_valid : List (Coin Int) → Bool
  pub coin_string : Coin Int → String
  -- `sdk.ParseCoinNormalized` and `sdk.ParseCoinsNormalized`
  pub parse_coin : String → Option (Coin Int)
  pub parse_coins : String → Option (List (Coin Int))
  -- the hexadecimal SHA-256 of the JSON text of `hashableOrder`
  pub order_hash : String → Coin Int → String

abbrev pub Amount : ⦃S : Sdk⦄ → Type 0
Amount ⦃S⦄ = S.Int

abbrev pub Decimal : ⦃S : Sdk⦄ → Type 0
Decimal ⦃S⦄ = S.LegacyDec

abbrev pub Coins : ⦃S : Sdk⦄ → Type 0
Coins ⦃S⦄ = List (Coin S.Int)
