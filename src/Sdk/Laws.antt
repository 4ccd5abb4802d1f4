-- ===== src/Sdk/Laws.antt =====
-- What cosmos-sdk documents of the operations on valid coins: each is described by the amounts of
-- the denominations.
use eibc_client.Base.{
  ℕ, ◌+◌, ◌-◌, ◌≤◌, ◌≡◌, ◌↔◌, true, false, none, some, String, [], if◌then◌else◌,
}
use eibc_client.Sdk.{Sdk, Coins}

pub record CoinLaws ⦃S : Sdk⦄ : Type 0 where
  -- `Coins.AmountOf`, which is 0 for a denomination that does not occur
  pub amount_of : Coins → String → ℕ
  pub amount_of-no_coins : (d : String) → amount_of (S.new_coins []) d ≡ 0
  pub amount_of-nil : (d : String) → amount_of [] d ≡ 0
  pub amount_of-add :
      (a b : Coins) (d : String) → amount_of (S.coins_add a b) d ≡ amount_of a d + amount_of b d
  -- `IsAllGTE`: no denomination of the argument has a larger amount in it
  pub is_all_gte_iff :
      (a b : Coins) → (S.is_all_gte a b ≡ true) ↔ ((d : String) → amount_of b d ≤ amount_of a d)
  -- `SafeSub` subtracts and tells whether an amount is negative
  pub safe_sub_negative :
      (a b : Coins) → ((S.safe_sub a b).1 ≡ false) ↔ ((d : String) → amount_of b d ≤ amount_of a d)
  pub amount_of-safe_sub :
      (a b : Coins) (d : String)
      → (S.safe_sub a b).1 ≡ false
      → amount_of (S.safe_sub a b).0 d ≡ amount_of a d - amount_of b d
  -- `Sub` panics where an amount is negative
  pub coins_sub_lem :
      (a b : Coins)
      → S.coins_sub a b ≡ (if (S.safe_sub a b).1 then none else some (S.safe_sub a b).0)

-- `LegacyDec.GT` is the strict order of the decimals.
pub record DecLaws ⦃S : Sdk⦄ : Type 0 where
  pub gt_asym : (a b : S.LegacyDec) → S.dec_gt a b ≡ true → S.dec_gt b a ≡ false
  pub gt_negative :
      (a b c : S.LegacyDec) → S.dec_gt a b ≡ false → S.dec_gt b c ≡ false → S.dec_gt a c ≡ false
