-- ===== src/Examples/LpTests.antt =====
-- eibc/lp.go
use eibc_client.Base.{◌≡◌, ◌+◌, refl, arith, String, panic}
use eibc_client.Examples.Bank.{one_coin, one_coin_laws, of_total}
use eibc_client.Examples.Samples.{sample_lp}
use eibc_client.Lp.{
  Lp, has_balance, spendable_balance, set_balance, reserve_funds, debit_reserved_funds,
}
use eibc_client.Lp.Funds.{
  IsSolvent, reserved, held, debit_reserved_funds-reserve_funds, set_balance_panics,
}

abbrev fair : Lp
fair = sample_lp "fair" 20 100

fair-IsSolvent : IsSolvent one_coin_laws fair
fair-IsSolvent = record { covered = λ d. ground arith }

reserved_once : (reserve_funds (of_total 80) fair).reserved_funds ≡ of_total 80
unfolding reserve_funds
reserved_once = refl

debit_reserved_funds-reserve_funds_example :
    let l' = debit_reserved_funds (of_total 80) (reserve_funds (of_total 80) fair) in
    IsSolvent one_coin_laws l'
    × ((d : String)
        → (reserved one_coin_laws l' d ≡ reserved one_coin_laws fair d)
          × (held one_coin_laws l' d + one_coin_laws.amount_of (of_total 80) d
              ≡ held one_coin_laws fair d))
unfolding has_balance spendable_balance
debit_reserved_funds-reserve_funds_example =
    debit_reserved_funds-reserve_funds one_coin_laws (of_total 80) fair fair-IsSolvent refl

set_balance_panics_example :
    has_balance (of_total 1) (set_balance (of_total 50) (reserve_funds (of_total 80) fair)) ≡ panic
unfolding reserve_funds
set_balance_panics_example =
    set_balance_panics one_coin_laws (of_total 50) (of_total 1) (reserve_funds (of_total 80) fair)
      "adym" (omega arith)
