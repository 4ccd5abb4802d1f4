-- ===== src/Accounts/Count.antt =====
-- How many accounts `addFulfillerAccounts` returns, and what they are called.
use text.Mathlib.Text.{starts_with, get?}
use text.Mathlib.TextPositions.{starts_with-append}
use eibc_client.Accounts.{
  Keyring, KeyRecord, reply, received, received-ok, received_returns, address_of, accounts_of,
  with_prefix, add_account, list_accounts, get_fulfiller_accounts, create_fulfiller_accounts,
  add_fulfiller_accounts,
}
use eibc_client.Base.{
  ℕ, zero, suc, ◌-◌, ◌≡◌, ◌≢◌, refl, sym, ap, ◌∙◌, subst, true, false, List, [], ◌∷◌, ◌++◌, Option,
  none, String, ok, panic, or_panic, or_panic-panic, >>=-eq-ok, >>=_returns, ok-injective, length,
  length-append, All, All-append, Bool-cases, Option-cases, inl, inr, arith, ltb, max,
}
use eibc_client.Base.Text.{concat}
use eibc_client.Config.{
  ClientConfig, ClientOption, fulfiller_name_prefix, get_cosmos_client_options,
}
use eibc_client.Fulfiller.{wrapped, wrapped-ok, wrapped_returns}
use eibc_client.Types.{Account}

-- The account has a name with the prefix of the fulfillers.
abbrev pub IsFulfiller : Account → Type 0
IsFulfiller a = starts_with a.name fulfiller_name_prefix ≡ true

-- The accounts of a keyring whose names have the prefix of the fulfillers, with their addresses, in
-- the order of the keyring.
pub data Picks : List KeyRecord → List Account → Type 0 where
  none_left : Picks [] []
  picked :
      (r : KeyRecord) (address : String) (rs : List KeyRecord) (as_ : List Account)
      → starts_with r.name fulfiller_name_prefix ≡ true
      → r.get_address ≡ reply address
      → Picks rs as_
      → Picks (r ∷ rs) (record { name = r.name; address = address } ∷ as_)
  passed_over :
      (r : KeyRecord) (rs : List KeyRecord) (as_ : List Account)
      → starts_with r.name fulfiller_name_prefix ≡ false
      → Picks rs as_
      → Picks (r ∷ rs) as_

Picks-IsFulfiller : (rs : List KeyRecord) (as_ : List Account) → Picks rs as_ → All IsFulfiller as_
Picks-IsFulfiller _ _ none_left = tt
Picks-IsFulfiller _ _ (picked r address rs as_ h _ p) = (h, Picks-IsFulfiller rs as_ p)
Picks-IsFulfiller _ _ (passed_over r rs as_ h p) = Picks-IsFulfiller rs as_ p

with_prefix-Picks :
    (rs : List KeyRecord) (all : List Account)
    → accounts_of rs ≡ ok all
    → Picks rs (with_prefix all)
unfolding accounts_of with_prefix
with_prefix-Picks [] all e = subst (λ x. Picks [] (with_prefix x)) (ok-injective e) none_left
with_prefix-Picks (r ∷ rs) all e =
    let (address, a, e1) = >>=-eq-ok (address_of r) _ e in
    let (rest, b, e2) = >>=-eq-ok (accounts_of rs) _ e1 in
    let has = received-ok _ address (wrapped-ok "failed to get account address: " _ address a) in
    subst (λ x. Picks (r ∷ rs) (with_prefix x)) (ok-injective e2)
      (elim (Bool-cases (starts_with r.name fulfiller_name_prefix)) [
        | inl z ↦
            rw (with_prefix, z)
              (picked r address rs (with_prefix rest) z has (with_prefix-Picks rs rest b))
        | inr z ↦
            rw (with_prefix, z)
              (passed_over r rs (with_prefix rest) z (with_prefix-Picks rs rest b))
      ])

module _ (K : Keyring) where
  get_fulfiller_accounts-Picks :
      (k : K.State) (as_ : List Account)
      → get_fulfiller_accounts K k ≡ ok as_
      → (rs : List KeyRecord) × (K.list k ≡ reply rs) × Picks rs as_
  unfolding get_fulfiller_accounts list_accounts
  get_fulfiller_accounts-Picks k as_ e =
      let (all, a, r) = >>=-eq-ok (list_accounts K k) _ e in
      let (rs, b, c) = >>=-eq-ok (wrapped "failed to get accounts: " (received (K.list k))) _ a in
      (
        rs,
        received-ok _ rs (wrapped-ok "failed to get accounts: " _ rs b),
        subst (Picks rs) (ok-injective r) (with_prefix-Picks rs all c),
      )

  create_fulfiller_accounts-length :
      (uuid : ℕ → String) (k k' : K.State) (n : ℕ) (as_ : List Account)
      → create_fulfiller_accounts K uuid k n ≡ ok (k', as_)
      → (length as_ ≡ n) × All IsFulfiller as_
  unfolding create_fulfiller_accounts
  create_fulfiller_accounts-length uuid k k' zero as_ e =
      subst (λ x. (length x.1 ≡ 0) × All IsFulfiller x.1) (ok-injective e) (refl, tt)
  create_fulfiller_accounts-length uuid k k' (suc n) as_ e =
      let (part, _, r1) = >>=-eq-ok (or_panic (get? (uuid n) 0 5)) _ e in
      let ((k1, address), _, r2) =
        >>=-eq-ok
          (wrapped "failed to create account: "
            (add_account K k (concat fulfiller_name_prefix part)))
          _ r1 in
      let ((k2, rest), e3, r3) = >>=-eq-ok (create_fulfiller_accounts K uuid k1 n) _ r2 in
      let (count, named) = create_fulfiller_accounts-length uuid k1 k2 n rest e3 in
      subst (λ x. (length x.1 ≡ suc n) × All IsFulfiller x.1) (ok-injective r3)
        (ap suc count, (starts_with-append fulfiller_name_prefix part, named))

  -- `addFulfillerAccounts` returns exactly those accounts of the keyring whose names have the prefix,
  -- with their addresses, and as many new ones after them as the scale asks for: all together as
  -- many as the larger of the two numbers, and all with the prefix.
  pub add_fulfiller_accounts-length :
      (new_client : List ClientOption → Option String) (uuid : ℕ → String) (scale : ℕ)
      (cfg : ClientConfig) (k k' : K.State) (as_ : List Account)
      → add_fulfiller_accounts K new_client uuid scale cfg k ≡ ok (k', as_)
      → (records : List KeyRecord) × (found : List Account) × (created : List Account) × (K.list k
          ≡ reply records)
        × Picks records found
        × (as_ ≡ found ++ created)
        × (length as_ ≡ max scale (length found))
        × All IsFulfiller as_
  unfolding add_fulfiller_accounts
  add_fulfiller_accounts-length new_client uuid scale cfg k k' as_ e =
      elim (Option-cases (new_client (get_cosmos_client_options cfg))) [
        | inr (text, z) ↦ absurd (cc (rw (z, add_fulfiller_accounts) at e))
        | inl z ↦
            let (found, e1, r1) =
              >>=-eq-ok (wrapped "failed to get fulfiller accounts: " (get_fulfiller_accounts K k))
                _ (rw (z, add_fulfiller_accounts) at e) in
            let ((k1, created), e2, r2) =
              >>=-eq-ok
                (wrapped "failed to create fulfiller accounts: "
                  (create_fulfiller_accounts K uuid k (scale - length found)))
                _ r1 in
            let e1' = wrapped-ok "failed to get fulfiller accounts: " _ found e1 in
            let (count, named) =
              create_fulfiller_accounts-length uuid k k1 (scale - length found) created
                (wrapped-ok "failed to create fulfiller accounts: " _ (k1, created) e2) in
            let total : length (found ++ created) ≡ max scale (length found) =
              length-append found created ∙ ground (arith, count) in
            elim (Bool-cases (ltb (length (found ++ created)) scale)) [
              | inl y ↦ absurd (cc (rw y at r2))
              | inr y ↦
                  let same : found ++ created ≡ as_ = ap (λ x. x.1) (ok-injective (rw y at r2)) in
                  let (records, listed, picks) = get_fulfiller_accounts-Picks k found e1' in
                  (
                    records,
                    found,
                    created,
                    listed,
                    picks,
                    sym same,
                    rw (sym same) total,
                    subst (All IsFulfiller) same
                        (All-append _ found created (Picks-IsFulfiller records found picks) named),
                  )
            ]
      ]

address_of_returns : (r : KeyRecord) → address_of r ≢ panic
address_of_returns r =
    wrapped_returns "failed to get account address: " _ (received_returns r.get_address)

accounts_of_returns : (rs : List KeyRecord) → accounts_of rs ≢ panic
unfolding accounts_of
accounts_of_returns [] e = cc
accounts_of_returns (r ∷ rs) e =
    >>=_returns (address_of r) _ (address_of_returns r)
      (λ address h. >>=_returns (accounts_of rs) _ (accounts_of_returns rs) (λ rest k e'. cc)) e

module _ (K : Keyring) where
  add_account_returns : (k : K.State) (name : String) → add_account K k name ≢ panic
  unfolding add_account
  add_account_returns k name e = elim (Option-cases (K.get_by_name k name)) [
    | inr (acc, z) ↦
        >>=_returns (address_of acc) _ (address_of_returns acc) (λ a h e'. cc)
          (rw (z, add_account) at e)
    | inl z ↦
        >>=_returns (wrapped "failed to create account: " (received (K.create k name))) _
          (wrapped_returns "failed to create account: " _ (received_returns (K.create k name)))
          (λ x h. >>=_returns (address_of x.1) _ (address_of_returns x.1) (λ a h' e'. cc))
          (rw (z, add_account) at e)
  ]

  get_fulfiller_accounts_returns : (k : K.State) → get_fulfiller_accounts K k ≢ panic
  unfolding get_fulfiller_accounts list_accounts
  get_fulfiller_accounts_returns k e =
      >>=_returns (list_accounts K k) _
        (>>=_returns (wrapped "failed to get accounts: " (received (K.list k))) _
          (wrapped_returns "failed to get accounts: " _ (received_returns (K.list k)))
          (λ accs h. accounts_of_returns accs))
        (λ accounts h e'. cc) e

  module _ (uuid : ℕ → String) (long : (n : ℕ) → get? (uuid n) 0 5 ≢ none) where
    create_fulfiller_accounts_returns :
        (k : K.State) (n : ℕ) → create_fulfiller_accounts K uuid k n ≢ panic
    unfolding create_fulfiller_accounts
    create_fulfiller_accounts_returns k zero e = cc
    create_fulfiller_accounts_returns k (suc n) e =
        >>=_returns (or_panic (get? (uuid n) 0 5)) _ (λ p. long n (or_panic-panic _ p))
          (λ part h.
            >>=_returns
              (wrapped "failed to create account: "
                (add_account K k (concat fulfiller_name_prefix part)))
              _ (wrapped_returns "failed to create account: " _ (add_account_returns k _))
              (λ x h'.
                >>=_returns (create_fulfiller_accounts K uuid x.0 n) _
                  (create_fulfiller_accounts_returns x.0 n) (λ y h'' e'. cc)))
          e

    pub add_fulfiller_accounts_returns :
        (new_client : List ClientOption → Option String) (scale : ℕ) (cfg : ClientConfig)
        (k : K.State)
        → add_fulfiller_accounts K new_client uuid scale cfg k ≢ panic
    unfolding add_fulfiller_accounts
    add_fulfiller_accounts_returns new_client scale cfg k e =
        elim (Option-cases (new_client (get_cosmos_client_options cfg))) [
          | inr (text, z) ↦ cc (rw (z, add_fulfiller_accounts) at e)
          | inl z ↦
              >>=_returns
                (wrapped "failed to get fulfiller accounts: " (get_fulfiller_accounts K k)) _
                (wrapped_returns "failed to get fulfiller accounts: " _
                  (get_fulfiller_accounts_returns k))
                (λ found h.
                  >>=_returns
                    (wrapped "failed to create fulfiller accounts: "
                      (create_fulfiller_accounts K uuid k (scale - length found)))
                    _
                    (wrapped_returns "failed to create fulfiller accounts: " _
                      (create_fulfiller_accounts_returns k _))
                    (λ x h' e'. elim (Bool-cases (ltb (length (found ++ x.1)) scale)) [
                      | inl y ↦ cc (rw y at e')
                      | inr y ↦ cc (rw y at e')
                    ]))
                (rw (z, add_fulfiller_accounts) at e)
        ]
