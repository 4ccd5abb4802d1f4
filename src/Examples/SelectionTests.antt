-- ===== src/Examples/SelectionTests.antt =====
-- The choice of an LP in eibc/order_tracker.go
use eibc_client.Base.{◌≡◌, refl, [], ◌∷◌, arith, ok, List, inr}
use eibc_client.Base.Map.{Map}
use eibc_client.Base.Sort.{sort_slice}
use eibc_client.Examples.Bank.{one_coin, one_coin_laws, one_coin_order, of_total}
use eibc_client.Examples.Samples.{sample_lp, sample_lps, order, terms}
use eibc_client.Lp.{Lp, has_balance, spendable_balance, reserve_funds}
use eibc_client.Tracker.Selection.{admits, find_lp_for_order}
use eibc_client.Tracker.Selection.Choice.{IsShuffle, Accepts}
use eibc_client.Tracker.Selection.Found.{Found, find_lp_for_order-Found}
use eibc_client.Tracker.Selection.Solvency.{AreSolvent, admits_again}
use eibc_client.Types.{DemandOrder}

abbrev pub unshuffled : List Lp → List Lp
unshuffled ls = ls

abbrev pub unshuffled-IsShuffle : IsShuffle unshuffled
unshuffled-IsShuffle = record { into = λ P ls h. h; back = λ P ls h. h }

abbrev found_order : DemandOrder
found_order = record (order "a" 80) { lp_address = "fair"; operator_fee_part = 20 }

abbrev fair : Lp
fair = sample_lp "fair" 20 100

abbrev after_found : Map Lp
after_found =
    ("rich", sample_lp "rich" 10 1000)
    ∷ ("fair", record fair { reserved_funds = of_total 80 })
    ∷ ("poor", sample_lp "poor" 30 50)
    ∷ []

found_fair : find_lp_for_order unshuffled (order "a" 80) sample_lps ≡ ok (found_order, after_found)
unfolding find_lp_for_order admits has_balance spendable_balance reserve_funds sort_slice
found_fair = refl

pub sample_lps-AreSolvent : AreSolvent one_coin_laws sample_lps
sample_lps-AreSolvent = (
  refl,
  refl,
  record { covered = λ d. ground arith },
  (
    refl,
    refl,
    record { covered = λ d. ground arith },
    (refl, refl, record { covered = λ d. ground arith }, tt),
  ),
)

fair-Accepts : Accepts (order "a" 80) fair
unfolding has_balance spendable_balance
fair-Accepts = record {
  terms = terms 20;
  for_rollapp = refl;
  for_denom = inr refl;
  for_price = inr refl;
  for_limit = refl;
  for_fee = refl;
  for_balance = refl;
}

find_lp_for_order-Found_example : Found (order "a" 80) found_order sample_lps after_found
find_lp_for_order-Found_example =
    find_lp_for_order-Found unshuffled unshuffled-IsShuffle one_coin_order (order "a" 80)
      found_order sample_lps after_found found_fair

admits_again_example : ¬ Accepts (order "a" 80) (reserve_funds (of_total 80) fair)
admits_again_example =
    admits_again one_coin_laws (order "a" 80) fair "adym" (record { covered = λ d. ground arith })
      fair-Accepts (omega arith)
