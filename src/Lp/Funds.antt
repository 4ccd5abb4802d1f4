-- ===== src/Lp/Funds.antt =====
-- The funds of an LP: what is reserved stays covered by the balance.
use eibc_client.Base.{
  ℕ, ◌+◌, ◌-◌, ◌≤◌, ◌<◌, ◌≡◌, refl, ◌↔◌, Bool, true, false, String, ok, panic, ap, arith,
  Bool-cases, inl, inr,
}
use eibc_client.Sdk.{Sdk, Coins}
use eibc_client.Sdk.Laws.{CoinLaws}
use eibc_client.Lp.{
  Lp, spendable_balance, has_balance, set_balance, reserve_funds, release_funds,
  debit_reserved_funds, sub_or_none,
}

module _ ⦃S : Sdk⦄ (L : CoinLaws) where
  open L use {
    amount_of, amount_of-add, amount_of-safe_sub, is_all_gte_iff, safe_sub_negative, coins_sub_lem,
    amount_of-no_coins,
  }

  -- In every denomination the balance covers what is reserved.
  pub record IsSolvent (l : Lp) : Type 0 where
    pub covered : (d : String) → amount_of l.reserved_funds d ≤ amount_of l.balance d

  abbrev pub reserved : Lp → String → ℕ
  reserved l d = amount_of l.reserved_funds d

  abbrev pub held : Lp → String → ℕ
  held l d = amount_of l.balance d

  spendable_balance_ok :
      (l : Lp)
      → IsSolvent l
      → (spendable_balance l ≡ ok (S.safe_sub l.balance l.reserved_funds).0)
        × ((S.safe_sub l.balance l.reserved_funds).1 ≡ false)
  unfolding spendable_balance
  spendable_balance_ok l v = ground (
    arith,
    coins_sub_lem l.balance l.reserved_funds,
    (safe_sub_negative l.balance l.reserved_funds).1 v.covered,
  )

  -- The spendable balance is the balance less what is reserved, and is computed with no panic
  -- exactly when the LP is solvent.
  pub spendable_balance_panics : (l : Lp) → (spendable_balance l ≡ panic) ↔ ¬ IsSolvent l
  unfolding spendable_balance
  spendable_balance_panics l = (
    λ p v. ground (arith, spendable_balance_ok l v),
    λ n. elim (Bool-cases (S.safe_sub l.balance l.reserved_funds).1) [
      | inl e ↦ ground (arith, coins_sub_lem l.balance l.reserved_funds)
      | inr e ↦ absurd (n (record { covered = (safe_sub_negative l.balance l.reserved_funds).0 e }))
    ],
  )

  -- Of a solvent LP the check is exact: no panic, and `true` if and only if in each denomination
  -- the balance covers what is reserved and the amount.
  pub has_balance_iff :
      (amount : Coins) (l : Lp)
      → IsSolvent l
      → (has_balance amount l ≡ ok true)
        ↔ ((d : String) → reserved l d + amount_of amount d ≤ held l d)
  unfolding has_balance
  has_balance_iff amount l v =
      rw ((spendable_balance_ok l v).0, has_balance)
        (
          λ h d. omega (
            arith,
            v.covered d,
            amount_of-safe_sub l.balance l.reserved_funds d (spendable_balance_ok l v).1,
            (is_all_gte_iff spendable amount).0 (ground arith) d,
          ),
          λ h. ap ok (
              (is_all_gte_iff spendable amount).1 λ d. omega (
                arith,
                h d,
                amount_of-safe_sub l.balance l.reserved_funds d (spendable_balance_ok l v).1,
              )),
        )
    where
      spendable : Coins
      spendable = (S.safe_sub l.balance l.reserved_funds).0

  -- Reserving an amount that the check passed keeps the LP solvent.
  pub reserve_funds-IsSolvent :
      (amount : Coins) (l : Lp)
      → IsSolvent l
      → has_balance amount l ≡ ok true
      → IsSolvent (reserve_funds amount l)
  unfolding reserve_funds
  reserve_funds-IsSolvent amount l v h = record {
    covered = λ d.
        omega (arith, (has_balance_iff amount l v).0 h d, amount_of-add l.reserved_funds amount d);
  }

  amount_of-sub_or_none-le :
      (a b : Coins) (d : String) → amount_of (sub_or_none a b) d ≤ amount_of a d
  amount_of-sub_or_none-le a b d = ground (arith, amount_of-safe_sub a b d, amount_of-no_coins d)

  -- A release never makes an LP insolvent, whatever the amount.
  pub release_funds-IsSolvent :
      (amount : Coins) (l : Lp) → IsSolvent l → IsSolvent (release_funds amount l)
  unfolding release_funds
  release_funds-IsSolvent amount l v = record {
    covered = λ d. omega (arith, v.covered d, amount_of-sub_or_none-le l.reserved_funds amount d);
  }

  amount_of-sub_or_none :
      (a b : Coins)
      → ((d : String) → amount_of b d ≤ amount_of a d)
      → (d : String) → amount_of (sub_or_none a b) d ≡ amount_of a d - amount_of b d
  amount_of-sub_or_none a b h d =
      ground (arith, (safe_sub_negative a b).1 h, amount_of-safe_sub a b d)

  -- What was reserved is released in full: in every denomination the reservation is as before, and
  -- the balance was never touched.
  pub release_funds-reserve_funds :
      (amount : Coins) (l : Lp) (d : String)
      → (reserved (release_funds amount (reserve_funds amount l)) d ≡ reserved l d)
        × (held (release_funds amount (reserve_funds amount l)) d ≡ held l d)
  unfolding release_funds reserve_funds
  release_funds-reserve_funds amount l d = (
    omega (
      arith,
      amount_of-sub_or_none (S.coins_add l.reserved_funds amount) amount
          (λ e. omega (arith, amount_of-add l.reserved_funds amount e)) d,
      amount_of-add l.reserved_funds amount d,
    ),
    refl,
  )

  -- Of a solvent LP that reserved an amount within its means, the debit takes that amount from the
  -- balance and ends the reservation, and the LP is solvent after it.
  pub debit_reserved_funds-reserve_funds :
      (amount : Coins) (l : Lp)
      → IsSolvent l
      → has_balance amount l ≡ ok true
      → let l' = debit_reserved_funds amount (reserve_funds amount l) in
        IsSolvent l'
        × ((d : String)
            → (reserved l' d ≡ reserved l d) × (held l' d + amount_of amount d ≡ held l d))
  unfolding debit_reserved_funds reserve_funds
  debit_reserved_funds-reserve_funds amount l v h =
      (record { covered = λ d. omega (arith, after d, v.covered d, room d) }, after)
    where
      room : (d : String) → reserved l d + amount_of amount d ≤ held l d
      room d = (has_balance_iff amount l v).0 h d

      after :
          (d : String)
          → (amount_of (sub_or_none (S.coins_add l.reserved_funds amount) amount) d ≡ reserved l d)
            × (amount_of (sub_or_none l.balance amount) d + amount_of amount d ≡ held l d)
      after d = (
        omega (
          arith,
          amount_of-sub_or_none (S.coins_add l.reserved_funds amount) amount
              (λ e. omega (arith, amount_of-add l.reserved_funds amount e)) d,
          amount_of-add l.reserved_funds amount d,
        ),
        omega
            (arith, amount_of-sub_or_none l.balance amount (λ e. omega (arith, room e)) d, room d),
      )

  -- A refreshed balance that falls below what is reserved, in any denomination, makes the check of
  -- the LP, as the refresh leaves it, panic whatever amount is asked for.
  pub set_balance_panics :
      (balance amount : Coins) (l : Lp) (d : String)
      → amount_of balance d < reserved l d
      → has_balance amount (set_balance balance l) ≡ panic
  unfolding set_balance has_balance
  set_balance_panics balance amount l d short = rw (
    (spendable_balance_panics (record l { balance = balance })).1 (λ v. omega (arith, v.covered d)),
    has_balance,
  )

  -- The check of a solvent LP gives an answer.
  pub has_balance_answers :
      (amount : Coins) (l : Lp) → IsSolvent l → (b : Bool) × (has_balance amount l ≡ ok b)
  unfolding has_balance
  has_balance_answers amount l v = (
    S.is_all_gte (S.safe_sub l.balance l.reserved_funds).0 amount,
    rw ((spendable_balance_ok l v).0, has_balance),
  )

  -- A debit never makes an LP insolvent, whatever was reserved.
  pub debit_reserved_funds-IsSolvent :
      (amount : Coins) (l : Lp) → IsSolvent l → IsSolvent (debit_reserved_funds amount l)
  unfolding debit_reserved_funds
  debit_reserved_funds-IsSolvent amount l v =
      elim (Bool-cases (S.safe_sub l.reserved_funds amount).1) [
        | inl e ↦ record { covered = λ d. rw e (omega (arith, amount_of-no_coins d)) }
        | inr e ↦
            let room = (safe_sub_negative l.reserved_funds amount).0 e in
            record {
              covered = λ d. omega (
                arith,
                v.covered d,
                room d,
                amount_of-sub_or_none l.reserved_funds amount room d,
                amount_of-sub_or_none l.balance amount (λ k. omega (arith, room k, v.covered k)) d,
              );
            }
      ]
