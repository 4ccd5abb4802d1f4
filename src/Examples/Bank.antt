-- ===== src/Examples/Bank.antt =====
-- A chain whose only denomination is "adym": what the parameters in `Sdk` may be. A decimal is a
-- number of hundredths.
use eibc_client.Base.{
  ℕ, ◌+◌, ◌-◌, ◌*◌, ◌/◌, ◌≤◌, ◌≡◌, ◌↔◌, refl, true, false, ◌&&◌, List, [], ◌∷◌, none, some, String,
  str_eq, if◌then◌else◌, ltb, leb, arith,
}
use mathlib.Core.Option
use eibc_client.Base.Text.{concat, format_ℕ, parse_uint}
use eibc_client.Sdk.{Sdk, Coin, Coins}
use eibc_client.Sdk.Laws.{CoinLaws, DecLaws}

abbrev pub adym : ℕ → Coin ℕ
adym n = record { denom = "adym"; amount = n }

abbrev pub total : List (Coin ℕ) → ℕ
total [] = 0
total (c ∷ cs) = c.amount + total cs

abbrev pub of_total : ℕ → List (Coin ℕ)
of_total n = if ltb 0 n then adym n ∷ [] else []

instance abbrev pub one_coin : Sdk
one_coin = record {
  Int = ℕ;
  LegacyDec = ℕ;
  int_add = λ a b. a + b;
  new_int = λ n. n;
  int_lt = ltb;
  int_is_nil = λ _. false;
  int_is_negative = λ _. false;
  int_string = format_ℕ;
  new_int_from_string = parse_uint;
  dec_nil = 0;
  dec_one = 100;
  dec_of_int = λ n. n * 100;
  dec_mul = λ a b. a * b / 100;
  dec_truncate_int = λ a. a / 100;
  dec_gt = λ a b. ltb b a;
  dec_lt = ltb;
  dec_is_nil = λ _. false;
  dec_is_negative = λ _. false;
  new_coin = λ d n. some (record { denom = d; amount = n });
  new_coins = λ cs. of_total (total cs);
  coins_add = λ a b. of_total (total a + total b);
  coins_amount_of = λ a d. if str_eq d "adym" then total a else 0;
  safe_sub = λ a b. (of_total (total a - total b), ltb (total a) (total b));
  coins_sub = λ a b. if ltb (total a) (total b) then none else some (of_total (total a - total b));
  safe_mul_int = λ a n. (of_total (total a * n), ltb 0 n);
  is_all_gte = λ a b. leb (total b) (total a);
  is_any_gt = λ a b. ltb 0 (total b) && ltb (total b) (total a);
  is_all_positive = λ a. ltb 0 (total a);
  is_any_nil = λ _. false;
  is_valid = λ _. true;
  coin_string = λ c. format_ℕ c.amount;
  parse_coin = λ s. Option.map adym (parse_uint s);
  parse_coins = λ s. Option.map (λ n. of_total n) (parse_uint s);
  order_hash = λ id c. concat id (format_ℕ c.amount);
}

abbrev pub amount_in : List (Coin ℕ) → String → ℕ
amount_in a d = if str_eq d "adym" then total a else 0

pub total-of_total : (n : ℕ) → total (of_total n) ≡ n
total-of_total n = ground arith

pub amount_in-nil : (d : String) → amount_in [] d ≡ 0
amount_in-nil d = ground arith

pub amount_in-none : (d : String) → amount_in (one_coin.new_coins []) d ≡ 0
amount_in-none d = ground arith

pub amount_in-add :
    (a b : Coins) (d : String)
    → amount_in (one_coin.coins_add a b) d ≡ amount_in a d + amount_in b d
amount_in-add a b d = ground (arith, total-of_total (total a + total b))

pub is_all_gte_total :
    (a b : Coins)
    → (one_coin.is_all_gte a b ≡ true) ↔ ((d : String) → amount_in b d ≤ amount_in a d)
is_all_gte_total a b = (λ h d. ground arith, λ h. ground (arith, h "adym"))

pub safe_sub_total :
    (a b : Coins)
    → ((one_coin.safe_sub a b).1 ≡ false) ↔ ((d : String) → amount_in b d ≤ amount_in a d)
safe_sub_total a b = (λ h d. ground arith, λ h. ground (arith, h "adym"))

pub amount_in-safe_sub :
    (a b : Coins) (d : String)
    → (one_coin.safe_sub a b).1 ≡ false
    → amount_in (one_coin.safe_sub a b).0 d ≡ amount_in a d - amount_in b d
amount_in-safe_sub a b d h = ground (arith, total-of_total (total a - total b))

abbrev pub one_coin_laws : CoinLaws
one_coin_laws = record {
  amount_of = amount_in;
  amount_of-no_coins = amount_in-none;
  amount_of-nil = amount_in-nil;
  amount_of-add = amount_in-add;
  is_all_gte_iff = is_all_gte_total;
  safe_sub_negative = safe_sub_total;
  amount_of-safe_sub = amount_in-safe_sub;
  coins_sub_lem = λ a b. refl;
}

pub gt_asym_ℕ : (a b : ℕ) → ltb b a ≡ true → ltb a b ≡ false
gt_asym_ℕ a b h = ground arith

pub gt_negative_ℕ : (a b c : ℕ) → ltb b a ≡ false → ltb c b ≡ false → ltb c a ≡ false
gt_negative_ℕ a b c h k = ground arith

abbrev pub one_coin_order : DecLaws
one_coin_order = record { gt_asym = gt_asym_ℕ; gt_negative = gt_negative_ℕ }
